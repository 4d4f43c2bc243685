-- ===== src/Shell/Events.antt =====
-- c-shell/src/jobs.c, the SIGCHLD events: the queue that the handler fills, what each event does to
-- the job table, and the wait for a foreground group.
pub mod Counted
pub mod Delivered
pub mod Wait
pub mod Kept
pub mod Noticed
pub mod Tracked
use unix_c_shell.Common.{
  ℕ, zero, suc, ◌+◌, Bool, true, false, not, ◌&&◌, ◌||◌, Option, none, some, List, [], ◌∷◌, ◌++◌,
  ltb, leb, ◌==◌, if◌then◌else◌, length, set, get_elem?,
}
use unix_c_shell.Shell.Jobs.{Job, JobProc, JobState, JobTable, jobs_find_by_pid, jobs_remove}
use unix_c_shell.Shell.Outputs.{Outputs, outreg_finalize}

abbrev pub pending_max : ℕ
pending_max = 256

abbrev pub notif_max : ℕ
notif_max = 64

-- A wait status, by the macros that read it.
pub data Status : Type 0 where
  stopped continued exited signaled : Status

abbrev pub Event : Type 0
Event = ℕ × Status

-- A notification: the name and pid of the job's first process, and whether it says "abnormally".
pub record Notice : Type 0 where
  pub name : List ℕ
  pub pid : ℕ
  pub abnormal : Bool

pub record Shell : Type 0 where
  pub table : JobTable
  pub outputs : Outputs
  pub pending : List Event
  pub notices : List Notice

unfoldable pub queue_notification : Notice → Shell → Shell
queue_notification n s =
    if ltb (length s.notices) notif_max then record s { notices = s.notices ++ n ∷ [] } else s

-- The loop of the SIGCHLD handler, over what `waitpid` returns.
unfoldable pub jobs_sigchld_handler : List Event → Shell → Shell
jobs_sigchld_handler [] s = s
jobs_sigchld_handler (e ∷ es) s =
    jobs_sigchld_handler es
      (if ltb (length s.pending) pending_max then record s { pending = s.pending ++ e ∷ [] } else s)

unfoldable pub set_state : ℕ → JobState → JobTable → JobTable
set_state i state t = elim (get_elem? t.jobs i) [
  | none ↦ t
  | some j ↦ record t { jobs = set t.jobs i (record j { state = state }) }
]

-- `j->done[idx] = 1`
unfoldable pub mark_done : ℕ → List JobProc → List JobProc
mark_done p ps = elim (get_elem? ps p) [ none ↦ ps | some q ↦ set ps p (record q { done = true }) ]

unfoldable pub all_done : List JobProc → Bool
all_done [] = true
all_done (p ∷ ps) = if p.done then all_done ps else false

-- The message of a finished background job, `names[0]` and `pids[0]`.
unfoldable pub finish_notice : Status → List JobProc → Shell → Shell
unfolding queue_notification
finish_notice status [] s = s
finish_notice status (p ∷ ps) s =
    queue_notification
      (record {
        name = p.name;
        pid = p.pid;
        abnormal = elim status [ Status.signaled ↦ true | _ ↦ false ];
      })
      s

-- A process `p` of the job `j` at `i` has ended.
unfoldable pub proc_ended : (i p : ℕ) → Job → Status → Shell → Shell
unfolding mark_done all_done finish_notice
proc_ended i p j status s =
    let procs = mark_done p j.procs in
    let s1 = record s {
      table = record s.table { jobs = set s.table.jobs i (record j { procs = procs }) };
    } in
    let s2 = if j.background then finish_notice status procs s1 else s1 in
    if all_done procs then record s2 { table = jobs_remove j.job_number s2.table } else s1

-- A change of the process `p` of the job `j` at `i`.
unfoldable pub job_event : (i p : ℕ) → Job → Status → Shell → Shell
unfolding set_state proc_ended
job_event i p j Status.stopped s = record s { table = set_state i JobState.stopped s.table }
job_event i p j Status.continued s = record s { table = set_state i JobState.running s.table }
job_event i p j Status.exited s = proc_ended i p j Status.exited s
job_event i p j Status.signaled s = proc_ended i p j Status.signaled s

unfoldable pub handle_tracked_event : Event → Shell → Shell
unfolding job_event
handle_tracked_event (pid, status) s =
    let s1 = record s { outputs = outreg_finalize pid s.outputs } in
    elim (jobs_find_by_pid pid s1.table) [
      | none ↦ s1
      | some (i, p) ↦ elim (get_elem? s1.table.jobs i) [
        | none ↦ s1
        | some j ↦ job_event i p j status s1
      ]
    ]

-- The loop of `jobs_process_pending`: SIGCHLD is blocked, so that the queue only shrinks.
unfoldable pub process_from : List Event → Shell → Shell
process_from [] s = s
process_from (e ∷ es) s = process_from es (handle_tracked_event e (record s { pending = es }))

unfoldable pub jobs_process_pending : Shell → Shell
unfolding process_from
jobs_process_pending s = process_from s.pending s

-- The processes of `jobs_wait_foreground` with `done_local`, and its counters.
pub record Foreground : Type 0 where
  pub pids : List (ℕ × Bool)
  pub done_count : ℕ
  pub stopped : Bool

-- `idx`
unfoldable pub index_from : (pid i : ℕ) → List (ℕ × Bool) → Option ℕ
index_from pid i [] = none
index_from pid i ((q, done) ∷ qs) =
    if q == pid && not done then some i else index_from pid (i + 1) qs

-- The body of the loop on an event for the process `idx` of the group.
unfoldable pub own_event : (idx pid : ℕ) → Status → Foreground × Shell → Foreground × Shell
own_event idx pid Status.stopped (f, s) = (record f { stopped = true }, s)
own_event idx pid Status.continued (f, s) = (f, s)
own_event idx pid _ (f, s) = (
  record f { pids = set f.pids idx (pid, true); done_count = f.done_count + 1 },
  record s { outputs = outreg_finalize pid s.outputs },
)

unfoldable pub wait_event : Event → Foreground × Shell → Foreground × Shell
unfolding index_from own_event
wait_event (pid, status) (f, s) = elim (index_from pid 0 f.pids) [
  | some idx ↦ own_event idx pid status (f, s)
  | none ↦ (f, handle_tracked_event (pid, status) s)
]

-- Whether the loop goes on: `done_count < n && !stopped`, and not aborted.
unfoldable pub is_waiting : (abort : Bool) → Foreground → Bool
is_waiting abort f = ltb f.done_count (length f.pids) && not f.stopped && not abort

-- The loop of `jobs_wait_foreground` until it ends or finds the queue empty and suspends.
unfoldable pub wait_from : (abort : Bool) → List Event → Foreground × Shell → Foreground × Shell
unfolding is_waiting
wait_from abort [] (f, s) = (f, s)
wait_from abort (e ∷ es) (f, s) =
    if is_waiting abort f
    then wait_from abort es (wait_event e (f, record s { pending = es }))
    else (f, s)

-- A handler run while the loop is suspended, and the loop after it.
unfoldable pub resume_wait : (abort : Bool) → List Event → Foreground × Shell → Foreground × Shell
unfolding jobs_sigchld_handler wait_from
resume_wait abort arrived (f, s) =
    let s1 = jobs_sigchld_handler arrived s in wait_from abort s1.pending (f, s1)

-- `done_local` at its start. It has room for 32 processes, and the code does not check their number.
unfoldable pub not_done : List ℕ → List (ℕ × Bool)
not_done [] = []
not_done (p ∷ ps) = (p, false) ∷ not_done ps

-- `jobs_wait_foreground` from its start: nothing is done; each element of `runs` is what one run of
-- the handler delivers while the loop is suspended.
unfoldable pub wait_runs :
    (abort : Bool) → List (List Event) → Foreground × Shell → Foreground × Shell
unfolding resume_wait
wait_runs abort [] fs = fs
wait_runs abort (r ∷ rs) fs = wait_runs abort rs (resume_wait abort r fs)

unfoldable pub jobs_wait_foreground :
    (pids : List ℕ) → (abort : Bool) → (runs : List (List Event)) → Shell → Foreground × Shell
unfolding wait_from wait_runs not_done
jobs_wait_foreground pids abort runs s = wait_runs abort runs (
    wait_from abort s.pending (record { pids = not_done pids; done_count = 0; stopped = false }, s))
