-- ===== src/Shell/Events/Wait.antt =====
-- `jobs_wait_foreground` from its call to its end.
use unix_c_shell.Common.{ℕ, ◌≤◌, ◌≡◌, Bool, true, List, ◌++◌, All, length, ◌⊎◌}
use unix_c_shell.Shell.Jobs.{job_max_procs}
use unix_c_shell.Shell.Events.{Status, Event, Shell, Foreground, is_waiting, jobs_wait_foreground}
use unix_c_shell.Shell.Events.Counted.{
  Counted, dones, members, jobs_wait_foreground-Counted, wait_over,
}
use unix_c_shell.Shell.Events.Delivered.{In, all_of, HasEnded, Backed, jobs_wait_foreground-Backed}

-- Take a group of at most 32 processes, the room of `done_local`. Whatever is delivered, and in any
-- number of runs of the handler: `jobs_wait_foreground` keeps the group and counts each process that is
-- done once; a process is done only by an event that says that it exited or was killed, and the wait is
-- stopped only by an event that says that a process of the group stopped, both of them queued at the
-- call or delivered in a run; and when the call no longer waits, a process has stopped, the wait was
-- aborted, or every process of the group is done.
pub jobs_wait_foreground_lem :
    (pids : List ℕ) (abort : Bool) (runs : List (List Event)) (s : Shell) (f : Foreground)
    (s' : Shell)
    → length pids ≤ job_max_procs
    → jobs_wait_foreground pids abort runs s ≡ (f, s')
    → (f.done_count ≡ dones f.pids)
      × (members f.pids ≡ pids)
      × All (λ (p : ℕ × Bool). p.1 ≡ true → HasEnded (s.pending ++ all_of runs) p.0) f.pids
      × (f.stopped ≡ true → (q : ℕ) × In q pids × In (q, Status.stopped) (s.pending ++ all_of runs))
      × ((is_waiting abort f ≡ true)
          ⊎ (f.stopped ≡ true)
          ⊎ (abort ≡ true)
          ⊎ All (λ (p : ℕ × Bool). p.1 ≡ true) f.pids)
jobs_wait_foreground_lem pids abort runs s f s' room h =
    let q : Counted pids (f, s') = rw h at (jobs_wait_foreground-Counted pids abort runs s) in
    let b : Backed (s.pending ++ all_of runs) pids (f, s') =
      rw h at (jobs_wait_foreground-Backed pids abort runs s) in
    (q.0, q.1, b.1, b.2, wait_over pids abort f s' q)
