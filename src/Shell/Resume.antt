-- ===== src/Shell/Resume.antt =====
-- c-shell/src/resume.c: the arguments of `resume`, and what it does to the job. The alarm of a timeout comes
-- while the wait is suspended, or not at all.
pub mod Valid
pub mod Asks
pub mod Outcome
mod Tests
use unix_c_shell.Common.{
  ℕ, zero, suc, ◌+◌, ◌-◌, ◌*◌, ◌%◌, ◌^◌, min, Bool, true, false, not, ◌&&◌, ◌||◌, Option, none,
  some, List, [], ◌∷◌, ◌++◌, ltb, leb, ◌==◌, if◌then◌else◌, get_elem?,
}
use unix_c_shell.Shell.Jobs.{Job, JobProc, JobState, jobs_find_by_number, jobs_remove}
use unix_c_shell.Shell.Outputs.{Outputs, outreg_finalize}
use unix_c_shell.Shell.Events.{
  Event, Foreground, Shell, set_state, is_waiting, jobs_wait_foreground,
}

abbrev pub is_digit : ℕ → Bool
is_digit c = leb b'0' c && leb c b'9'

-- The digits up to the end of the string, after those with the value `n`.
unfoldable pub digits : ℕ → List ℕ → Option ℕ
digits n [] = some n
digits n (c ∷ cs) = let rest = digits (n * 10 + (c - b'0')) cs in if is_digit c then rest else none

abbrev pub number : List ℕ → Option ℕ
number [] = none
number (c ∷ cs) = digits 0 (c ∷ cs)

abbrev pub is_space : ℕ → Bool
is_space c = c == b' ' || leb 9 c && leb c 13

abbrev pub long_max : ℕ
long_max = 2 ^ 63 - 1

abbrev pub signed : Bool → Option ℕ → Option (Bool × ℕ)
signed negative none = none
signed negative (some n) = some (negative, min n (if negative then long_max + 1 else long_max))

-- `strtol` to base 10, where `*endp` is the end of the string: the sign and the size of the number.
unfoldable pub strtol : List ℕ → Option (Bool × ℕ)
unfolding digits
strtol [] = none
strtol (c ∷ cs) =
    let rest = strtol cs in
    if is_space c
    then rest
    else if c == b'-'
    then signed true (number cs)
    else if c == b'+'
    then signed false (number cs)
    else signed false (number (c ∷ cs))

-- `(int)job_number`, as an unsigned number of 32 bits: no job has a negative number.
abbrev pub int_of : Bool × ℕ → ℕ
int_of (negative, n) = if negative then (2 ^ 32 - n % 2 ^ 32) % 2 ^ 32 else n % 2 ^ 32

pub record Request : Type 0 where
  pub job_number : ℕ
  pub is_fg : Bool
  pub timeout : Option ℕ

unfoldable pub streq : List ℕ → List ℕ → Bool
streq [] [] = true
streq [] (_ ∷ _) = false
streq (_ ∷ _) [] = false
streq (c ∷ a) (d ∷ b) = let rest = streq a b in if c == d then rest else false

abbrev pub timeout_word : List ℕ
timeout_word = b'-' ∷ b'-' ∷ b't' ∷ b'i' ∷ b'm' ∷ b'e' ∷ b'o' ∷ b'u' ∷ b't' ∷ []

-- A timeout of at least 0.
abbrev pub seconds : Option (Bool × ℕ) → Option ℕ
seconds none = none
seconds (some (negative, n)) = if negative && ltb 0 n then none else some n

-- What follows `fg` or `bg`.
unfoldable pub parse_timeout : (job_number : ℕ) (is_fg : Bool) → List (List ℕ) → Option Request
unfolding strtol streq
parse_timeout n is_fg [] = some (record { job_number = n; is_fg = is_fg; timeout = none })
parse_timeout n is_fg (word ∷ []) = none
parse_timeout n is_fg (word ∷ value ∷ []) =
    let parsed : Option Request = elim (seconds (strtol value)) [
      | none ↦ none
      | some k ↦ some (record { job_number = n; is_fg = is_fg; timeout = some k })
    ] in
    if not is_fg || not (streq word timeout_word) then none else parsed
parse_timeout n is_fg (word ∷ value ∷ _ ∷ _) = none

abbrev pub mode : List ℕ → Option Bool
mode word =
    if streq word (b'f' ∷ b'g' ∷ [])
    then some true
    else if streq word (b'b' ∷ b'g' ∷ [])
    then some false
    else none

-- The tokens behind `resume`; `none` is the syntax error.
unfoldable pub parse_resume : List (List ℕ) → Option Request
unfolding parse_timeout
parse_resume ((c ∷ value) ∷ word ∷ tokens) =
    let parsed : Option Request = elim (strtol value) [
      | none ↦ none
      | some k ↦ elim (mode word) [
        | none ↦ none
        | some is_fg ↦ parse_timeout (int_of k) is_fg tokens
      ]
    ] in
    if c == b'%' then parsed else none
parse_resume _ = none

pub data Message : Type 0 where
  invalid_syntax no_such_job timed_out : Message
  running stopped : ℕ → Message
  command_line : List ℕ → Message

pub data Signal : Type 0 where
  sigcont sigterm : Signal

-- What is printed, and the signals sent to process groups.
pub record Result : Type 0 where
  pub shell : Shell
  pub messages : List Message
  pub signals : List (ℕ × Signal)

pub data Resumed : Type 0 where
  returned : Result → Resumed
  -- still in the wait
  waits : Foreground → Shell → Resumed

abbrev pub pids_of : List JobProc → List ℕ
pids_of [] = []
pids_of (p ∷ ps) = p.pid ∷ pids_of ps

unfoldable pub finalize_all : List ℕ → Shell → Shell
finalize_all [] s = s
finalize_all (p ∷ ps) s = finalize_all ps (record s { outputs = outreg_finalize p s.outputs })

-- The lookup by number, and the write of the state.
unfoldable pub mark_stopped : ℕ → Shell → Shell
unfolding set_state
mark_stopped n s = elim (jobs_find_by_number n s.table) [
  | none ↦ s
  | some i ↦ record s { table = set_state i JobState.stopped s.table }
]

-- What follows the wait for the processes of the job, with the terminal back.
unfoldable pub after_wait : (alarmed : Bool) → Job → Foreground × Shell → Resumed
unfolding is_waiting
after_wait alarmed j (f, s) =
    let flushed = λ (t : Shell). record t { notices = [] } in
    let started = command_line j.cmdline in
    if alarmed && not f.stopped && is_waiting false f
    then returned (record {
      shell = flushed (record s { table = jobs_remove j.job_number s.table });
      messages = started ∷ timed_out ∷ [];
      signals = (j.pgid, sigcont) ∷ (j.pgid, sigterm) ∷ [];
    })
    else if f.stopped
    then returned (record {
      shell = flushed (mark_stopped j.job_number s);
      messages = started ∷ stopped j.job_number ∷ [];
      signals = (j.pgid, sigcont) ∷ [];
    })
    else if is_waiting false f
    then waits f s
    else let t = finalize_all (pids_of j.procs) s in
      returned (record {
        shell = flushed (record t { table = jobs_remove j.job_number t.table });
        messages = started ∷ [];
        signals = (j.pgid, sigcont) ∷ [];
      })

-- Whether `alarm((unsigned int)timeout)` starts a timer: `alarm(0)` starts none.
abbrev pub has_timer : Option ℕ → Bool
has_timer none = false
has_timer (some k) = ltb 0 (k % 2 ^ 32)

-- The job at `i` goes on; `runs` is what the runs of the SIGCHLD handler deliver while it waits.
unfoldable pub resume_job :
    (alarmed : Bool) (runs : List (List Event)) → Request → ℕ → Job → Shell → Resumed
unfolding after_wait set_state
resume_job alarmed runs r i j s =
    let s1 = record s { table = set_state i JobState.running s.table } in
    let has_alarm = alarmed && has_timer r.timeout in
    if r.is_fg
    then after_wait has_alarm j (jobs_wait_foreground (pids_of j.procs) false runs s1)
    else returned (record {
      shell = s1;
      messages = running j.job_number ∷ [];
      signals = (j.pgid, sigcont) ∷ [];
    })

unfoldable pub resume_found :
    (alarmed : Bool) (runs : List (List Event)) → Request → Shell → Resumed
unfolding resume_job
resume_found alarmed runs r s = elim (jobs_find_by_number r.job_number s.table) [
  | none ↦ returned (record { shell = s; messages = no_such_job ∷ []; signals = [] })
  | some i ↦ (elim (get_elem? s.table.jobs i) [
    | none ↦ returned (record { shell = s; messages = no_such_job ∷ []; signals = [] })
    | some j ↦ resume_job alarmed runs r i j s
  ])
]

unfoldable pub run_resume :
    (alarmed : Bool) (runs : List (List Event)) → List (List ℕ) → Shell → Resumed
unfolding parse_resume resume_found
run_resume alarmed runs tokens s = elim (parse_resume tokens) [
  | none ↦ returned (record { shell = s; messages = invalid_syntax ∷ []; signals = [] })
  | some r ↦ resume_found alarmed runs r s
]
