-- ===== src/Shell/Jobs.antt =====
-- c-shell/src/jobs.c, the job table: registration, removal, lookup and the list of activities.
pub mod Table
pub mod Register
pub mod Activities
use unix_c_shell.Common.{
  ℕ, zero, suc, ◌+◌, Bool, true, false, not, ◌&&◌, ◌||◌, Option, none, some, List, [], ◌∷◌, ◌++◌,
  ltb, ◌==◌, if◌then◌else◌, length, take, set, get_elem?,
}

abbrev pub jobs_max : ℕ
jobs_max = 64

abbrev pub job_max_procs : ℕ
job_max_procs = 32

pub data JobState : Type 0 where
  running stopped : JobState

-- `pids[p]`, `names[p]` and `done[p]` of a job.
pub record JobProc : Type 0 where
  pub pid : ℕ
  pub name : List ℕ
  pub done : Bool

-- `num_procs` is the length of `procs`.
pub record Job : Type 0 where
  pub used : Bool
  pub job_number : ℕ
  pub pgid : ℕ
  pub procs : List JobProc
  pub cmdline : List ℕ
  pub state : JobState
  pub background : Bool

-- `jobs` and `next_job_number`.
pub record JobTable : Type 0 where
  pub jobs : List Job
  pub next_job_number : ℕ

-- A zeroed entry.
unfoldable pub no_job : Job
no_job = record {
  used = false;
  job_number = 0;
  pgid = 0;
  procs = [];
  cmdline = [];
  state = JobState.running;
  background = false;
}

abbrev replicate : ℕ → List Job
unfolding no_job
replicate zero = []
replicate (suc n) = no_job ∷ replicate n

unfoldable pub jobs_init : JobTable
unfolding no_job
jobs_init = record { jobs = replicate jobs_max; next_job_number = 1 }

-- The first index, from `i` on, of a job that passes a test.
unfoldable pub find_from : (Job → Bool) → (i : ℕ) → List Job → Option ℕ
find_from test i [] = none
find_from test i (j ∷ js) = if test j then some i else find_from test (i + 1) js

unfoldable pub has_number : ℕ → Job → Bool
has_number n j = j.used && j.job_number == n

unfoldable pub has_pgid : ℕ → Job → Bool
has_pgid pgid j = j.used && j.pgid == pgid

-- The three lookups return an index of the table in place of a pointer.
unfoldable pub jobs_find_by_number : ℕ → JobTable → Option ℕ
unfolding find_from has_number
jobs_find_by_number n t = find_from (has_number n) 0 t.jobs

unfoldable pub jobs_find_by_pgid : ℕ → JobTable → Option ℕ
unfolding find_from has_pgid
jobs_find_by_pgid pgid t = find_from (has_pgid pgid) 0 t.jobs

-- The inner loop of `jobs_find_by_pid`.
unfoldable pub proc_from : (pid p : ℕ) → List JobProc → Option ℕ
proc_from pid p [] = none
proc_from pid p (q ∷ qs) = if q.pid == pid then some p else proc_from pid (p + 1) qs

-- The index of the job and that of the process in it.
unfoldable pub pid_from : (pid i : ℕ) → List Job → Option (ℕ × ℕ)
unfolding proc_from
pid_from pid i [] = none
pid_from pid i (j ∷ js) =
    let rest = pid_from pid (i + 1) js in
    if j.used then elim (proc_from pid 0 j.procs) [ some p ↦ some (i, p) | none ↦ rest ] else rest

unfoldable pub jobs_find_by_pid : ℕ → JobTable → Option (ℕ × ℕ)
unfolding pid_from
jobs_find_by_pid pid t = pid_from pid 0 t.jobs

unfoldable pub is_stopped : Job → Bool
is_stopped j = j.used && elim j.state [ JobState.stopped ↦ true | JobState.running ↦ false ]

unfoldable pub jobs_has_stopped : JobTable → Bool
unfolding find_from is_stopped
jobs_has_stopped t = elim (find_from is_stopped 0 t.jobs) [ some _ ↦ true | none ↦ false ]

-- A string that may be NULL, or the text that stands for NULL.
unfoldable pub text_or : List ℕ → Option (List ℕ) → List ℕ
text_or d none = d
text_or d (some text) = text

-- `pids` and `names` together; "?" stands for a name that is NULL.
unfoldable pub fresh_procs : List (ℕ × Option (List ℕ)) → List JobProc
unfolding text_or
fresh_procs [] = []
fresh_procs ((pid, name) ∷ ps) =
    record { pid = pid; name = text_or (63 ∷ []) name; done = false } ∷ fresh_procs ps

-- The table and the number of the new job; `none` for -1, which leaves the table.
unfoldable pub jobs_register :
    (pgid : ℕ)
    → List (ℕ × Option (List ℕ))
    → (cmdline : Option (List ℕ)) → (background : Bool) → JobState
    → JobTable
    → Option (JobTable × ℕ)
unfolding find_from fresh_procs text_or
jobs_register pgid ps cmdline background state t =
    elim (find_from (λ (j : Job). not j.used) 0 t.jobs) [
      | none ↦ none
      | some slot ↦ some (
        record {
          jobs = set t.jobs slot (record {
            used = true;
            job_number = t.next_job_number;
            pgid = pgid;
            procs = take job_max_procs (fresh_procs ps);
            cmdline = text_or [] cmdline;
            state = state;
            background = background;
          });
          next_job_number = t.next_job_number + 1;
        },
        t.next_job_number,
      )
    ]

unfoldable pub jobs_remove : ℕ → JobTable → JobTable
unfolding find_from has_number no_job
jobs_remove n t = elim (find_from (has_number n) 0 t.jobs) [
  | none ↦ t
  | some i ↦ record t { jobs = set t.jobs i no_job }
]

-- `numbers`
unfoldable pub used_numbers : List Job → List ℕ
used_numbers [] = []
used_numbers (j ∷ js) = let rest = used_numbers js in if j.used then j.job_number ∷ rest else rest

-- The inner loop of the sort: `numbers[a]` at its end, and the numbers behind it.
unfoldable pub sift : ℕ → List ℕ → ℕ × List ℕ
sift x [] = (x, [])
sift x (y ∷ ys) =
    let r = sift (if ltb y x then y else x) ys in (r.0, (if ltb y x then x else y) ∷ r.1)

-- The outer loop, for `count` rounds.
unfoldable pub sort : (count : ℕ) → List ℕ → List ℕ
unfolding sift
sort zero xs = xs
sort (suc n) [] = []
sort (suc n) (x ∷ xs) = let r = sift x xs in r.0 ∷ sort n r.1

-- The jobs that `jobs_print_activities` prints, in order; `none` is skipped.
unfoldable pub activities : JobTable → List (Option ℕ)
unfolding used_numbers sort jobs_find_by_number
activities t = let numbers = used_numbers t.jobs in find_all (sort (length numbers) numbers)
  where
    find_all : List ℕ → List (Option ℕ)
    find_all [] = []
    find_all (n ∷ ns) = jobs_find_by_number n t ∷ find_all ns
