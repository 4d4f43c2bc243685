-- ===== src/Shell/Resume/Outcome.antt =====
-- What `resume` makes of a job.
use unix_c_shell.Common.{
  ℕ, ◌≡◌, Bool, true, false, ◌&&◌, none, some, List, [], ◌∷◌, ◌++◌, arith, All, set, get_elem?, ◌⊎◌,
}
use unix_c_shell.Shell.Jobs.{Job, JobState, JobTable, has_number, jobs_find_by_number}
use unix_c_shell.Shell.Events.{
  Status, Event, Shell, Foreground, set_state, is_waiting, jobs_wait_foreground,
}
use unix_c_shell.Shell.Events.Counted.{Counted}
use unix_c_shell.Shell.Events.Delivered.{In, all_of, HasEnded}
use unix_c_shell.Shell.Resume.Asks.{Asks}
use unix_c_shell.Shell.Resume.{
  Request, Result, Resumed, returned, waits, Message, invalid_syntax, no_such_job, command_line,
  running, stopped, sigcont, sigterm, pids_of, has_timer,
}

-- A job with the number is in the table, and stopped; or there is none.
abbrev pub IsStoppedIn : ℕ → JobTable → Type 0
IsStoppedIn n t =
    (jobs_find_by_number n t ≡ none)
    ⊎ ((i : ℕ) × (j : Job) × (get_elem? t.jobs i ≡ some j)
        × (has_number n j ≡ true)
        × (j.state ≡ JobState.stopped))

-- The job at `i` is the one of the number that is asked for.
pub record IsNamed (s : Shell) (r : Request) (i : ℕ) (j : Job) : Type 0 where
  pub at : get_elem? s.table.jobs i ≡ some j
  pub used : j.used ≡ true
  pub number : j.job_number ≡ r.job_number

-- The job at `i` goes on.
abbrev pub going : ℕ → Shell → Shell
going i s = record s { table = set_state i JobState.running s.table }

-- The shell with this job at `i`.
abbrev pub with_job : ℕ → Job → Shell → Shell
with_job i j s = record s { table = record s.table { jobs = set s.table.jobs i j } }

-- How a call that waits for the job `j` in the foreground can end, where `fs` is its wait, `alarm` says
-- that the time is up, and `es` are the events that were delivered.
pub data Answer (es : List Event) (alarm : Bool) (j : Job) (fs : Foreground × Shell)
    : Resumed → Type 0 where
  -- every process of the job has ended
  ended :
      (t : Result)
      → All (HasEnded es) (pids_of j.procs)
      → jobs_find_by_number j.job_number t.shell.table ≡ none
      → t.messages ≡ command_line j.cmdline ∷ []
      → t.signals ≡ (j.pgid, sigcont) ∷ []
      → t.shell.notices ≡ []
      → Answer es alarm j fs (returned t)
  -- the time was up before the job ended or stopped
  timed_out :
      (t : Result)
      → alarm ≡ true
      → is_waiting false fs.0 ≡ true
      → jobs_find_by_number j.job_number t.shell.table ≡ none
      → t.messages ≡ command_line j.cmdline ∷ Message.timed_out ∷ []
      → t.signals ≡ (j.pgid, sigcont) ∷ (j.pgid, sigterm) ∷ []
      → t.shell.notices ≡ []
      → Answer es alarm j fs (returned t)
  -- a process of the job has stopped again
  halted :
      (t : Result) (pid : ℕ)
      → In pid (pids_of j.procs)
      → In (pid, Status.stopped) es
      → IsStoppedIn j.job_number t.shell.table
      → t.messages ≡ command_line j.cmdline ∷ stopped j.job_number ∷ []
      → t.signals ≡ (j.pgid, sigcont) ∷ []
      → t.shell.notices ≡ []
      → Answer es alarm j fs (returned t)
  -- there is time, a process of the job is left, and none has stopped
  still_waits :
      alarm ≡ false → is_waiting false fs.0 ≡ true → Answer es alarm j fs (waits fs.0 fs.1)

-- How a call of `resume` with the words `tokens` in the state `s` can end.
pub data Outcome (alarmed : Bool) (runs : List (List Event)) (tokens : List (List ℕ)) (s : Shell)
    : Resumed → Type 0 where
  -- the words ask for nothing: nothing changes
  refused :
      ((r : Request) → Asks tokens r → ⊥)
      → Outcome alarmed runs tokens s
          (returned (record { shell = s; messages = invalid_syntax ∷ []; signals = [] }))
  -- there is no such job: nothing changes
  unknown :
      (r : Request)
      → Asks tokens r
      → jobs_find_by_number r.job_number s.table ≡ none
      → Outcome alarmed runs tokens s
          (returned (record { shell = s; messages = no_such_job ∷ []; signals = [] }))
  -- in the background the job is told to go on, and runs
  background :
      (r : Request) (i : ℕ) (j : Job) (t : Shell)
      → Asks tokens r
      → r.is_fg ≡ false
      → IsNamed s r i j
      → t ≡ with_job i (record j { state = JobState.running }) s
      → Outcome alarmed runs tokens s (
          returned (record {
            shell = t;
            messages = running j.job_number ∷ [];
            signals = (j.pgid, sigcont) ∷ [];
          }))
  -- in the foreground the call waits for the job
  foreground :
      (r : Request) (i : ℕ) (j : Job) (x : Resumed)
      → Asks tokens r
      → r.is_fg ≡ true
      → IsNamed s r i j
      → Answer
          (s.pending ++ all_of runs)
          (alarmed && has_timer r.timeout)
          j
          (jobs_wait_foreground (pids_of j.procs) false runs (going i s))
          x
      → Outcome alarmed runs tokens s x

-- The state in which a call is.
abbrev pub shell_of : Resumed → Shell
shell_of (returned r) = r.shell
shell_of (waits f t) = t

and_false : (a b : Bool) → (a && b) ≡ false → b ≡ true → a ≡ false
and_false a b h e = ground arith
