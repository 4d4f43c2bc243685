-- ===== src/Shell/Events/Kept.antt =====
-- A job with a process that has not ended, under changes of the job table.
use unix_c_shell.Common.{
  ℕ, zero, suc, ◌+◌, ◌≡◌, ◌≢◌, refl, sym, ap, ◌∙◌, true, false, Option, some, List, [], ◌∷◌, arith,
  set, get_elem?, get_elem?-set_self, get_elem?-set_ne, get_elem?-lt, ◌==◌, if◌then◌else◌,
  Bool-cases, Option-cases, ◌⊎◌, inl, inr,
}
use unix_c_shell.Shell.Jobs.{
  Job, JobProc, JobTable, no_job, jobs_remove, has_number, find_from, pid_from, proc_from,
  used_numbers,
}
use unix_c_shell.Shell.Jobs.Register.{jobs_remove_lem}
use unix_c_shell.Shell.Jobs.Table.{
  IsValid, find_from-found, NoDup, All-used_numbers-get, removed_fresh,
}

-- The job `i` is in use, has the number `n`, and its process `p` has the pid `own` and is not done.
pub record Unfinished (i n p own : ℕ) (t : JobTable) : Type 0 where
  pub job : Job
  pub proc : JobProc
  pub at : get_elem? t.jobs i ≡ some job
  pub used : job.used ≡ true
  pub number : job.job_number ≡ n
  pub proc_at : get_elem? job.procs p ≡ some proc
  pub proc_pid : proc.pid ≡ own
  pub open_still : proc.done ≡ false

-- What the lookup by pid finds.
proc_from-found :
    (pid k p : ℕ) (qs : List JobProc)
    → proc_from pid k qs ≡ some p
    → (o : ℕ) × (q : JobProc) × (p ≡ k + o) × (get_elem? qs o ≡ some q) × (q.pid ≡ pid)
unfolding proc_from
proc_from-found pid k p [] h = cc
proc_from-found pid k p (q ∷ qs) h = elim (Bool-cases (q.pid == pid)) [
  | inl e ↦
      let a : some k ≡ some p = rw (e, if◌then◌else◌) at h in
      (0, q, ground arith, refl, ground arith)
  | inr e ↦
      let a : proc_from pid (k + 1) qs ≡ some p = rw (e, if◌then◌else◌) at h in
      let (o, r, at, g, c) = proc_from-found pid (k + 1) p qs a in (suc o, r, omega arith, g, c)
]

abbrev pub Found : (pid k i p : ℕ) → List Job → Type 0
Found pid k i p js =
    (o : ℕ) × (j : Job) × (q : JobProc) × (i ≡ k + o)
    × (get_elem? js o ≡ some j)
    × (j.used ≡ true)
    × (get_elem? j.procs p ≡ some q)
    × (q.pid ≡ pid)

Found-later :
    (pid k i p : ℕ) (j : Job) (js : List Job) → Found pid (k + 1) i p js → Found pid k i p (j ∷ js)
Found-later pid k i p j js (o, j', q, at, g, u, f, c) = (suc o, j', q, omega arith, g, u, f, c)

pub pid_from-Found :
    (pid k i p : ℕ) (js : List Job) → pid_from pid k js ≡ some (i, p) → Found pid k i p js
unfolding pid_from
pid_from-Found pid k i p [] h = cc
pid_from-Found pid k i p (j ∷ js) h = elim (Bool-cases j.used) [
  | inr e ↦
      let a : pid_from pid (k + 1) js ≡ some (i, p) = rw (e, if◌then◌else◌) at h in
      Found-later pid k i p j js (pid_from-Found pid (k + 1) i p js a)
  | inl e ↦ elim (Option-cases (proc_from pid 0 j.procs)) [
    | inl f ↦
        let a : pid_from pid (k + 1) js ≡ some (i, p) = rw (e, f, if◌then◌else◌) at h in
        Found-later pid k i p j js (pid_from-Found pid (k + 1) i p js a)
    | inr (p', f) ↦
        let a : ◌≡◌ {A = Option (ℕ × ℕ)} (some (k, p')) (some (i, p)) =
          rw (e, f, if◌then◌else◌) at h in
        let (o, q, at, g, c) = proc_from-found pid 0 p' j.procs f in
        let b : p' ≡ p = cc in
        let b' : o ≡ p = omega arith in
        let d : k ≡ i = cc in (0, j, q, omega arith, refl, e, rw b' at g, c)
  ]
]

-- Two jobs in use have different numbers.
pub numbers_differ :
    (js : List Job) (i i' : ℕ) (j j' : Job)
    → NoDup (used_numbers js)
    → get_elem? js i ≡ some j
    → get_elem? js i' ≡ some j'
    → j.used ≡ true
    → j'.used ≡ true
    → i ≢ i'
    → j.job_number ≢ j'.job_number
unfolding no_job
numbers_differ js i i' j j' d g g' u u' ne e =
    All-used_numbers-get (λ m. m ≢ j.job_number) (set js i no_job) i' j'
      (removed_fresh j.job_number js i j no_job d g u refl refl)
      (get_elem?-set_ne js i i' no_job ne ∙ g') u' (sym e)

pub used_numbers-set :
    (js : List Job) (i : ℕ) (j j' : Job)
    → get_elem? js i ≡ some j
    → j'.used ≡ j.used
    → j'.job_number ≡ j.job_number
    → used_numbers (set js i j') ≡ used_numbers js
unfolding used_numbers
used_numbers-set [] i j j' g u e = refl
used_numbers-set (k ∷ js) zero j j' g u e = let q : k ≡ j = cc in rw (u, e, q)
used_numbers-set (k ∷ js) (suc i) j j' g u e =
    ap (λ ns. if k.used then k.job_number ∷ ns else ns) (used_numbers-set js i j j' g u e)

abbrev pub Kept : (i n p own : ℕ) → JobTable → Type 0
Kept i n p own t = IsValid t × Unfinished i n p own t

-- A job replaced by one of the same number.
pub Kept-set :
    (i n p own i' : ℕ) (j' j2 : Job) (t : JobTable)
    → Kept i n p own t
    → get_elem? t.jobs i' ≡ some j'
    → j2.used ≡ j'.used
    → j2.job_number ≡ j'.job_number
    → (i' ≢ i) ⊎ (get_elem? j2.procs p ≡ get_elem? j'.procs p)
    → Kept i n p own (record t { jobs = set t.jobs i' j2 })
Kept-set i n p own i' j' j2 t (v, h) g u e c =
    let same = used_numbers-set t.jobs i' j' j2 g u e in
    (
      record { below = rw same v.below; distinct = rw same v.distinct },
      elim (Bool-cases (i' == i)) [
        | inl y ↦
            let here : i' ≡ i = ground arith in
            let k : h.job ≡ j' = cc in
            record {
              job = j2;
              proc = h.proc;
              at = rw (← here) (get_elem?-set_self t.jobs i' j2 (get_elem?-lt t.jobs i' j' g));
              used = u ∙ ap (λ (x : Job). x.used) (sym k) ∙ h.used;
              number = e ∙ ap (λ (x : Job). x.job_number) (sym k) ∙ h.number;
              proc_at =
                  proc_same c here ∙ ap (λ (x : Job). get_elem? x.procs p) (sym k) ∙ h.proc_at;
              proc_pid = h.proc_pid;
              open_still = h.open_still;
            }
        | inr y ↦ record {
          job = h.job;
          proc = h.proc;
          at = get_elem?-set_ne t.jobs i' i j2 (ground arith) ∙ h.at;
          used = h.used;
          number = h.number;
          proc_at = h.proc_at;
          proc_pid = h.proc_pid;
          open_still = h.open_still;
        }
      ],
    )
  where
    proc_same :
        (i' ≢ i) ⊎ (get_elem? j2.procs p ≡ get_elem? j'.procs p)
        → i' ≡ i
        → get_elem? j2.procs p ≡ get_elem? j'.procs p
    proc_same (inl ne) here = absurd (ne here)
    proc_same (inr s) here = s

number_of : (m : ℕ) (j : Job) → has_number m j ≡ true → j.job_number ≡ m
unfolding has_number
number_of m j h = ground arith

other_place :
    (o i : ℕ) (j k : Job) (js : List Job) (m n : ℕ)
    → get_elem? js o ≡ some j
    → get_elem? js i ≡ some k
    → j.job_number ≡ m
    → k.job_number ≡ n
    → m ≢ n
    → o ≢ i
other_place o i j k js m n g g' a b ne e =
    let g2 : get_elem? js i ≡ some j = rw e at g in
    let same : j ≡ k = cc in ne (sym a ∙ ap (λ (x : Job). x.job_number) same ∙ b)

pub Kept-jobs_remove :
    (i n p own m : ℕ) (t : JobTable) → m ≢ n → Kept i n p own t → Kept i n p own (jobs_remove m t)
unfolding jobs_remove no_job
Kept-jobs_remove i n p own m t ne (v, h) = (
  (jobs_remove_lem m n t v (λ e. ne (sym e))).0,
  elim (Option-cases (find_from (has_number m) 0 t.jobs)) [
    | inl e ↦ rw (e, jobs_remove) h
    | inr (o, e) ↦
        let (j, q, at, g, named) = find_from-found (has_number m) 0 t.jobs o e in
        let here : q ≡ o = omega arith in
        let g' : get_elem? t.jobs o ≡ some j = rw here at g in
        let apart : o ≢ i =
          other_place o i j h.job t.jobs m n g' h.at (number_of m j named) h.number ne in
        rw (e, jobs_remove)
          (record {
            job = h.job;
            proc = h.proc;
            at = get_elem?-set_ne t.jobs o i no_job apart ∙ h.at;
            used = h.used;
            number = h.number;
            proc_at = h.proc_at;
            proc_pid = h.proc_pid;
            open_still = h.open_still;
          })
  ],
)
