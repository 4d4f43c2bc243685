-- ===== src/Shell/Tests/Table.antt =====
-- The job table and the events on concrete jobs.
use unix_c_shell.Common.{
  ℕ, ◌≡◌, refl, ◌⊎◌, true, false, Bool, Option, none, some, List, [], ◌∷◌, ◌++◌, All, arith, take,
  get_elem?,
}
use unix_c_shell.Shell.Jobs.{
  Job, JobTable, JobState, JobProc, jobs_register, jobs_find_by_number, jobs_find_by_pid,
  fresh_procs, job_max_procs, text_or, used_numbers,
}
use unix_c_shell.Shell.Jobs.Table.{IsValid}
use unix_c_shell.Shell.Jobs.Register.{jobs_register_lem, Registered}
use unix_c_shell.Shell.Events.{
  Shell, Status, Event, Foreground, jobs_process_pending, jobs_wait_foreground, is_waiting,
  wait_event, handle_tracked_event,
}
use unix_c_shell.Shell.Events.Kept.{Unfinished}
use unix_c_shell.Shell.Events.Noticed.{IsOfOther}
use unix_c_shell.Shell.Events.Tracked.{jobs_process_pending-keeps}
use unix_c_shell.Shell.Events.Counted.{dones, members}
use unix_c_shell.Shell.Events.Delivered.{HasEnded, In, all_of}
use unix_c_shell.Shell.Events.Wait.{jobs_wait_foreground_lem}

-- A job of two processes, the first of them done, in the second slot.
abbrev left_proc : JobProc
left_proc = record { pid = 41; name = 115 ∷ []; done = false }

abbrev two_procs : Job
two_procs = record {
  used = true;
  job_number = 3;
  pgid = 40;
  procs = record { pid = 40; name = 99 ∷ []; done = true } ∷ left_proc ∷ [];
  cmdline = [];
  state = JobState.running;
  background = true;
}

abbrev free_slot : Job
free_slot = record {
  used = false;
  job_number = 0;
  pgid = 0;
  procs = [];
  cmdline = [];
  state = JobState.running;
  background = false;
}

abbrev table : JobTable
table = record { jobs = free_slot ∷ two_procs ∷ []; next_job_number = 4 }

table-IsValid : IsValid table
unfolding used_numbers
table-IsValid = record { below = (omega arith, tt); distinct = (tt, tt) }

-- A job of one process goes into the first slot; the other job is still found.
abbrev one_proc : List (ℕ × Option (List ℕ))
one_proc = (50, none) ∷ []

abbrev registered : Job
registered = record {
  used = true;
  job_number = 4;
  pgid = 50;
  procs = take job_max_procs (fresh_procs one_proc);
  cmdline = text_or [] none;
  state = JobState.stopped;
  background = false;
}

abbrev larger : JobTable
larger = record { jobs = registered ∷ two_procs ∷ []; next_job_number = 5 }

jobs_register_lem_example :
    IsValid larger
    × (jobs_find_by_number 3 larger ≡ jobs_find_by_number 3 table)
    × ((slot : ℕ) × (jobs_find_by_number 4 larger ≡ some slot)
        × ((j : Job) × (get_elem? larger.jobs slot ≡ some j)
            × Registered 4 50 one_proc none false JobState.stopped j))
unfolding jobs_register
jobs_register_lem_example =
    jobs_register_lem 50 one_proc none false JobState.stopped table larger 4 3 table-IsValid refl
      (omega arith)

-- Process 40 ends again as far as the queue says, and process 77 of no job stops.
abbrev shell : Shell
shell = record {
  table = table;
  outputs = record { registry = []; copies = [] };
  pending = (40, Status.exited) ∷ (77, Status.stopped) ∷ [];
  notices = [];
}

jobs_process_pending-keeps_example :
    IsValid (jobs_process_pending shell).table
    × Unfinished 1 3 1 41 (jobs_process_pending shell).table
    × All (IsOfOther 1 table.jobs []) (jobs_process_pending shell).notices
jobs_process_pending-keeps_example =
    jobs_process_pending-keeps 1 1 two_procs left_proc shell table-IsValid refl refl refl refl
      (omega arith, (omega arith, tt))

-- A group of two: one process exits, the handler runs, and the other one is killed.
abbrev one_run : List (List Event)
one_run = ((41, Status.signaled) ∷ []) ∷ []

abbrev waited : Foreground × Shell
waited = jobs_wait_foreground (40 ∷ 41 ∷ []) false one_run shell

jobs_wait_foreground_lem_example :
    (waited.0.done_count ≡ dones waited.0.pids)
    × (members waited.0.pids ≡ 40 ∷ 41 ∷ [])
    × All
        (λ (p : ℕ × Bool). p.1 ≡ true → HasEnded (shell.pending ++ all_of one_run) p.0)
        waited.0.pids
    × (waited.0.stopped ≡ true
        → (q : ℕ) × In q (40 ∷ 41 ∷ []) × In (q, Status.stopped) (shell.pending ++ all_of one_run))
    × ((is_waiting false waited.0 ≡ true)
        ⊎ (waited.0.stopped ≡ true)
        ⊎ (false ≡ true)
        ⊎ All (λ (p : ℕ × Bool). p.1 ≡ true) waited.0.pids)
jobs_wait_foreground_lem_example =
    jobs_wait_foreground_lem (40 ∷ 41 ∷ []) false one_run shell waited.0 waited.1 (omega arith) refl

-- Both are done then.
waited_done : waited.0.done_count ≡ 2
unfolding jobs_wait_foreground wait_event handle_tracked_event jobs_find_by_pid
waited_done = refl
