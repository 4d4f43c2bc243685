-- ===== src/Shell/Resume/Tests.antt =====
-- A stopped job of one process.
use unix_c_shell.Common.{ℕ, ◌≡◌, refl, true, false, some, List, [], ◌∷◌}
use unix_c_shell.Shell.Jobs.{Job, JobState, jobs_find_by_number}
use unix_c_shell.Shell.Events.{Shell, Status, Event, jobs_wait_foreground}
use unix_c_shell.Shell.Resume.{run_resume, parse_resume, Resumed, returned, waits}
use unix_c_shell.Shell.Resume.Outcome.{Outcome}

abbrev stopped_job : Job
stopped_job = record {
  used = true;
  job_number = 3;
  pgid = 40;
  procs = record { pid = 40; name = 99 ∷ []; done = false } ∷ [];
  cmdline = 99 ∷ [];
  state = JobState.stopped;
  background = false;
}

abbrev one_job : Shell
one_job = record {
  table = record { jobs = stopped_job ∷ []; next_job_number = 4 };
  outputs = record { registry = []; copies = [] };
  pending = [];
  notices = [];
}

abbrev fg_args : List (List ℕ)
fg_args = (b'%' ∷ b'3' ∷ []) ∷ (b'f' ∷ b'g' ∷ []) ∷ []

-- The words of `--timeout` and a number.
abbrev timeout_args : ℕ → List (List ℕ)
timeout_args digit =
    (b'%' ∷ b'3' ∷ [])
    ∷ (b'f' ∷ b'g' ∷ [])
    ∷ (b'-' ∷ b'-' ∷ b't' ∷ b'i' ∷ b'm' ∷ b'e' ∷ b'o' ∷ b'u' ∷ b't' ∷ [])
    ∷ (digit ∷ [])
    ∷ []

parse_test :
    parse_resume (timeout_args b'5')
    ≡ some (record { job_number = 3; is_fg = true; timeout = some 5 })
unfolding parse_resume
parse_test = refl

-- The job exits in the second run of the handler.
abbrev exits_later : List (List Event)
exits_later = [] ∷ ((40, Status.exited) ∷ []) ∷ []

abbrev still_waits : Resumed → ℕ
still_waits (returned _) = 0
still_waits (waits _ _) = 1

-- A timeout of 0 never comes.
no_timeout_test : still_waits (run_resume true [] (timeout_args b'0') one_job) ≡ 1
unfolding run_resume jobs_find_by_number jobs_wait_foreground
no_timeout_test = refl

timeout_test : still_waits (run_resume true [] (timeout_args b'5') one_job) ≡ 0
unfolding run_resume jobs_find_by_number jobs_wait_foreground
timeout_test = refl
