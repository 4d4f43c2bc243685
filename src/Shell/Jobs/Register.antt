-- ===== src/Shell/Jobs/Register.antt =====
-- Registration and removal of a job, and the lookup by its number.
use unix_c_shell.Common.{
  ℕ, zero, suc, ◌∷◌, ◌+◌, ◌<◌, ◌≡◌, ◌≢◌, refl, ap, ◌∙◌, Bool, true, false, not, Option, none, some,
  List, [], arith, All-imp, take, set, get_elem?, get_elem?-set_self, get_elem?-lt, ==_refl,
  Option-cases, inl, inr,
}
use unix_c_shell.Shell.Jobs.{
  Job, JobProc, JobTable, JobState, no_job, find_from, has_number, jobs_find_by_number,
  jobs_register, jobs_remove, used_numbers, fresh_procs, job_max_procs, text_or,
}
use unix_c_shell.Shell.Jobs.Table.{
  IsValid, All-used_numbers-set, NoDup-used_numbers-set, find_from-set_fresh, find_from-fresh,
  find_from-set_other, find_from-found, not_number, removed_fresh,
}

abbrev placed : (slot : ℕ) → Job → JobTable → JobTable
placed slot j t = record { jobs = set t.jobs slot j; next_job_number = t.next_job_number + 1 }

placed_lem :
    (slot m : ℕ) (j : Job) (t : JobTable)
    → IsValid t
    → find_from (λ (o : Job). not o.used) 0 t.jobs ≡ some slot
    → j.used ≡ true
    → j.job_number ≡ t.next_job_number
    → m ≢ t.next_job_number
    → IsValid (placed slot j t)
      × (jobs_find_by_number m (placed slot j t) ≡ jobs_find_by_number m t)
      × (jobs_find_by_number t.next_job_number (placed slot j t) ≡ some slot)
      × (get_elem? (placed slot j t).jobs slot ≡ some j)
unfolding jobs_find_by_number has_number
placed_lem slot m j t v e u a ne =
    let (o, p, at, g, free) = find_from-found (λ (o : Job). not o.used) 0 t.jobs slot e in
    let here : p ≡ slot = omega arith in
    let g' : get_elem? t.jobs slot ≡ some o = rw here at g in
    let lt = get_elem?-lt t.jobs slot o g' in
    let fresh =
      All-imp (λ n. n < t.next_job_number) (λ n. n ≢ j.job_number) (used_numbers t.jobs)
        (λ n less. omega arith) v.below in
    let unused : o.used ≡ false = ground arith in
    (
      record {
        below =
            All-used_numbers-set (λ n. n < t.next_job_number + 1) t.jobs slot j (inr (omega arith))
              (All-imp (λ n. n < t.next_job_number) (λ n. n < t.next_job_number + 1)
                (used_numbers t.jobs) (λ n less. omega arith) v.below);
        distinct = NoDup-used_numbers-set t.jobs slot j (inr fresh) v.distinct;
      },
      find_from-set_other (has_number m) 0 t.jobs slot o j g' (not_number m o (inl unused))
          (not_number m j (inr (omega arith))),
      find_from-set_fresh t.next_job_number 0 t.jobs slot j (rw a at fresh) lt
            (named j t.next_job_number u a)
          ∙ ap some (omega arith),
      get_elem?-set_self t.jobs slot j lt,
    )
  where
    named : (j : Job) (n : ℕ) → j.used ≡ true → j.job_number ≡ n → has_number n j ≡ true
    named j n u a = rw (u, a, ==_refl)

-- What the processes of a job have of those it is registered with, at most `n`: the pid, the name or "?" for
-- none, and none is done.
abbrev pub Started : (n : ℕ) → List JobProc → List (ℕ × Option (List ℕ)) → Type 0
Started zero procs ps = procs ≡ []
Started (suc n) procs [] = procs ≡ []
Started (suc n) [] (_ ∷ _) = ⊥
Started (suc n) (p ∷ procs) ((pid, none) ∷ ps) =
    (p.pid ≡ pid) × (p.name ≡ b'?' ∷ []) × (p.done ≡ false) × Started n procs ps
Started (suc n) (p ∷ procs) ((pid, some name) ∷ ps) =
    (p.pid ≡ pid) × (p.name ≡ name) × (p.done ≡ false) × Started n procs ps

fresh_procs-Started :
    (n : ℕ) (ps : List (ℕ × Option (List ℕ))) → Started n (take n (fresh_procs ps)) ps
unfolding fresh_procs text_or
fresh_procs-Started zero ps = refl
fresh_procs-Started (suc n) [] = refl
fresh_procs-Started (suc n) ((pid, none) ∷ ps) = (refl, refl, refl, fresh_procs-Started n ps)
fresh_procs-Started (suc n) ((pid, some name) ∷ ps) = (refl, refl, refl, fresh_procs-Started n ps)

-- The text of the job's command line, empty for none.
abbrev pub HasText : Option (List ℕ) → List ℕ → Type 0
HasText none text = text ≡ []
HasText (some cmd) text = text ≡ cmd

text_or-HasText : (cmd : Option (List ℕ)) → HasText cmd (text_or [] cmd)
unfolding text_or
text_or-HasText none = refl
text_or-HasText (some cmd) = refl

-- A job as it is registered.
pub record Registered (n pgid : ℕ) (ps : List (ℕ × Option (List ℕ))) (cmd : Option (List ℕ))
    (bg : Bool) (state : JobState) (j : Job) : Type 0 where
  pub used : j.used ≡ true
  pub number : j.job_number ≡ n
  pub group : j.pgid ≡ pgid
  pub procs : Started 32 j.procs ps
  pub text : HasText cmd j.cmdline
  pub mode : j.background ≡ bg
  pub is_in : j.state ≡ state

-- A valid table stays valid when a job is registered; the job is then found by the number that is
-- returned, with its group, command line, state and mode, and the pids and names given, up to 32, none of
-- them done; every other number finds what it found before.
pub jobs_register_lem :
    (pgid : ℕ) (ps : List (ℕ × Option (List ℕ))) (cmd : Option (List ℕ)) (bg : Bool)
    (state : JobState) (t t' : JobTable) (n m : ℕ)
    → IsValid t
    → jobs_register pgid ps cmd bg state t ≡ some (t', n)
    → m ≢ n
    → IsValid t'
      × (jobs_find_by_number m t' ≡ jobs_find_by_number m t)
      × ((slot : ℕ) × (jobs_find_by_number n t' ≡ some slot)
          × ((j : Job) × (get_elem? t'.jobs slot ≡ some j) × Registered n pgid ps cmd bg state j))
unfolding jobs_register jobs_find_by_number
jobs_register_lem pgid ps cmd bg state t t' n m v h ne =
    elim (Option-cases (find_from (λ (j : Job). not j.used) 0 t.jobs)) [
      | inl e ↦
          let bad : ◌≡◌ {A = Option (JobTable × ℕ)} none (some (t', n)) =
            rw (e, jobs_register) at h in
          cc
      | inr (slot, e) ↦
          let j : Job = record {
            used = true;
            job_number = t.next_job_number;
            pgid = pgid;
            procs = take job_max_procs (fresh_procs ps);
            cmdline = text_or [] cmd;
            state = state;
            background = bg;
          } in
          let q : ◌≡◌ {A = Option (JobTable × ℕ)} (some (placed slot j t, t.next_job_number))
              (some (t', n)) =
            rw (e, jobs_register) at h in
          let a : placed slot j t ≡ t' = cc in
          let b : t.next_job_number ≡ n = cc in
          let r = placed_lem slot m j t v e refl refl (omega arith) in
          rw (← a, ← b)
            (
              r.0,
              r.1,
              (
                slot,
                r.2,
                (
                  j,
                  r.3,
                  record {
                    used = refl;
                    number = refl;
                    group = refl;
                    procs = fresh_procs-Started 32 ps;
                    text = text_or-HasText cmd;
                    mode = refl;
                    is_in = refl;
                  },
                ),
              ),
            )
    ]

-- After a removal the number is not found, the table stays valid, and every other number finds what it
-- found before.
pub jobs_remove_lem :
    (n m : ℕ) (t : JobTable)
    → IsValid t
    → m ≢ n
    → IsValid (jobs_remove n t)
      × (jobs_find_by_number n (jobs_remove n t) ≡ none)
      × (jobs_find_by_number m (jobs_remove n t) ≡ jobs_find_by_number m t)
unfolding jobs_remove jobs_find_by_number no_job has_number
jobs_remove_lem n m t v ne = elim (Option-cases (find_from (has_number n) 0 t.jobs)) [
  | inl e ↦ rw (e, jobs_remove) (v, e, refl)
  | inr (i, e) ↦
      rw (e, jobs_remove)
        (let (j, p, at, g, named) = find_from-found (has_number n) 0 t.jobs i e in
          let here : p ≡ i = omega arith in
          let g' : get_elem? t.jobs i ≡ some j = rw here at g in
          (
            record {
              below =
                  All-used_numbers-set (λ x. x < t.next_job_number) t.jobs i no_job (inl refl)
                    v.below;
              distinct = NoDup-used_numbers-set t.jobs i no_job (inl refl) v.distinct;
            },
            find_from-fresh n 0 (set t.jobs i no_job) (
                removed_fresh n t.jobs i j no_job v.distinct g' (ground arith) (ground arith) refl),
            find_from-set_other (has_number m) 0 t.jobs i j no_job g'
                (not_number m j (inr (ground arith))) (not_number m no_job (inl refl)),
          ))
]
