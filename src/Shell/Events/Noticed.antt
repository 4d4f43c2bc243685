-- ===== src/Shell/Events/Noticed.antt =====
-- Whom the notices of finished jobs name.
use unix_c_shell.Common.{
  ℕ, zero, suc, ◌≡◌, ◌≢◌, refl, sym, ap, ◌∙◌, Bool, true, false, Option, none, some, List, [], ◌∷◌,
  ◌++◌, arith, All, length, set, get_elem?, get_elem?-set_ne, ltb, ◌==◌, if◌then◌else◌, Bool-cases,
  Option-cases, ◌⊎◌, inl, inr,
}
use unix_c_shell.Shell.Jobs.{
  Job, JobProc, JobState, JobTable, jobs_remove, no_job, find_from, has_number,
}
use unix_c_shell.Shell.Events.Delivered.{In, All-append}
use unix_c_shell.Shell.Events.{
  Status, Notice, Shell, set_state, mark_done, all_done, finish_notice, queue_notification,
  proc_ended, job_event,
}

-- The pid of the first process.
abbrev pub leader : List JobProc → Option ℕ
leader [] = none
leader (q ∷ qs) = some q.pid

-- The jobs in use have been in use before, at their places and with their first processes.
abbrev pub Stems : (before now : List Job) → Type 0
Stems before now =
    (k : ℕ) (x : Job)
    → get_elem? now k ≡ some x
    → x.used ≡ true
    → (y : Job) × (get_elem? before k ≡ some y)
      × (y.used ≡ true)
      × (leader y.procs ≡ leader x.procs)

-- A notice that was there, or names the first process of a job in use at another place than `i`.
abbrev pub IsOfOther : ℕ → List Job → List Notice → Notice → Type 0
IsOfOther i before old n =
    In n old
    ⊎ ((k : ℕ) × (y : Job) × (k ≢ i)
        × (get_elem? before k ≡ some y)
        × (y.used ≡ true)
        × (leader y.procs ≡ some n.pid))

get_elem?-set_here :
    {A : Type 0} → (xs : List A) (k : ℕ) (v x : A) → get_elem? (set xs k v) k ≡ some x → x ≡ v
get_elem?-set_here [] k v x h = cc
get_elem?-set_here (y ∷ xs) zero v x h = cc
get_elem?-set_here (y ∷ xs) (suc k) v x h = get_elem?-set_here xs k v x h

Stems-set :
    (before js : List Job) (k : ℕ) (j j' : Job)
    → Stems before js
    → get_elem? js k ≡ some j
    → j.used ≡ true
    → leader j'.procs ≡ leader j.procs
    → Stems before (set js k j')
Stems-set before js k j j' h g u l m x at used = elim (Bool-cases (k == m)) [
  | inl e ↦
      let here : k ≡ m = ground arith in
      let at' : get_elem? (set js m j') m ≡ some x =
        ap (λ c. get_elem? (set js c j') m) (sym here) ∙ at in
      let same : x ≡ j' = get_elem?-set_here js m j' x at' in
      let (y, b, v, q) = h k j g u in
      (
        y,
        ap (λ c. get_elem? before c) (sym here) ∙ b,
        v,
        q ∙ sym l ∙ ap (λ (z : Job). leader z.procs) (sym same),
      )
  | inr e ↦ let ne : k ≢ m = ground arith in h m x (sym (get_elem?-set_ne js k m j' ne) ∙ at) used
]

Stems-jobs_remove :
    (before : List Job) (n : ℕ) (t : JobTable)
    → Stems before t.jobs
    → Stems before (jobs_remove n t).jobs
unfolding jobs_remove no_job
Stems-jobs_remove before n t h = elim (Option-cases (find_from (has_number n) 0 t.jobs)) [
  | inl e ↦ rw (e, jobs_remove) h
  | inr (i, e) ↦
      rw (e, jobs_remove)
        (λ m x at used. elim (Bool-cases (i == m)) [
          | inl c ↦
              let here : i ≡ m = ground arith in
              let at' : get_elem? (set t.jobs m no_job) m ≡ some x =
                ap (λ c. get_elem? (set t.jobs c no_job) m) (sym here) ∙ at in
              let same = get_elem?-set_here t.jobs m no_job x at' in
              let free : no_job.used ≡ false = refl in absurd (cc)
          | inr c ↦
              let ne : i ≢ m = ground arith in
              h m x (sym (get_elem?-set_ne t.jobs i m no_job ne) ∙ at) used
        ])
]

leader-mark_done : (p : ℕ) (qs : List JobProc) → leader (mark_done p qs) ≡ leader qs
unfolding mark_done
leader-mark_done p [] = refl
leader-mark_done zero (q ∷ qs) = refl
leader-mark_done (suc p) (q ∷ qs) = elim (Option-cases (get_elem? qs p)) [
  | inl e ↦ rw (e, mark_done, leader)
  | inr (r, e) ↦ rw (e, mark_done, leader)
]

finish_notice-All :
    (P : Notice → Type 0) (b : Bool) (status : Status) (qs : List JobProc) (s : Shell)
    → ((n : Notice) → leader qs ≡ some n.pid → P n)
    → All P s.notices
    → All P (if b then finish_notice status qs s else s).notices
unfolding finish_notice queue_notification
finish_notice-All P false status qs s f h = h
finish_notice-All P true status [] s f h = h
finish_notice-All P true status (q ∷ qs) s f h =
    queued (ltb (length s.notices) 64)
      (record {
        name = q.name;
        pid = q.pid;
        abnormal = elim status [ Status.signaled ↦ true | _ ↦ false ];
      })
      (f _ refl)
  where
    queued :
        (room : Bool) (n : Notice)
        → P n
        → All P (if room then record s { notices = s.notices ++ n ∷ [] } else s).notices
    queued true n p = All-append P s.notices (n ∷ []) h (p, tt)
    queued false n p = h

finish_notice-table :
    (status : Status) (qs : List JobProc) (s : Shell) → (finish_notice status qs s).table ≡ s.table
unfolding finish_notice queue_notification
finish_notice-table status [] s = refl
finish_notice-table status (q ∷ qs) s = elim (Bool-cases (ltb (length s.notices) 64)) [
  | inl e ↦ rw e
  | inr e ↦ rw e
]

pub noticed_table :
    (b : Bool) (status : Status) (qs : List JobProc) (s : Shell)
    → (if b then finish_notice status qs s else s).table ≡ s.table
noticed_table true status qs s = finish_notice-table status qs s
noticed_table false status qs s = refl

-- The jobs are the ones before, and the notices those before or of other jobs than the one at `i`.
abbrev pub Noticed : ℕ → List Job → List Notice → Shell → Type 0
Noticed i before old s = Stems before s.table.jobs × All (IsOfOther i before old) s.notices

proc_ended-Noticed :
    (i : ℕ) (before : List Job) (old : List Notice) (i' p' : ℕ) (j : Job) (status : Status)
    (s : Shell)
    → Noticed i before old s
    → get_elem? s.table.jobs i' ≡ some j
    → j.used ≡ true
    → (all_done (mark_done p' j.procs) ≡ true → i' ≢ i)
    → Noticed i before old (proc_ended i' p' j status s)
unfolding proc_ended
proc_ended-Noticed i before old i' p' j status s (stems, all) g u other =
    let procs = mark_done p' j.procs in
    let j2 : Job = record j { procs = procs } in
    let k = Stems-set before s.table.jobs i' j j2 stems g u (leader-mark_done p' j.procs) in
    elim (Bool-cases (all_done procs)) [
      | inr e ↦ rw (e, if◌then◌else◌) (k, all)
      | inl e ↦
          let s1 : Shell = record s { table = record s.table { jobs = set s.table.jobs i' j2 } } in
          let (y, at, used, l) = stems i' j g u in
          let k1 : Stems before
              (if j.background then finish_notice status procs s1 else s1).table.jobs =
            rw (noticed_table j.background status procs s1) k in
          rw (e, if◌then◌else◌)
            (
              Stems-jobs_remove before j.job_number
                  (if j.background then finish_notice status procs s1 else s1).table k1,
              finish_notice-All (IsOfOther i before old) j.background status procs s1
                  (λ n h. inr (i', y, other e, at, used, l ∙ sym (leader-mark_done p' j.procs) ∙ h))
                  all,
            )
    ]

set_state-Noticed :
    (i : ℕ) (before : List Job) (old : List Notice) (i' : ℕ) (j : Job) (state : JobState)
    (s : Shell)
    → Noticed i before old s
    → get_elem? s.table.jobs i' ≡ some j
    → j.used ≡ true
    → Noticed i before old (record s { table = set_state i' state s.table })
unfolding set_state
set_state-Noticed i before old i' j state s h g u =
    rw (g, set_state)
      (Stems-set before s.table.jobs i' j (record j { state = state }) h.0 g u refl, h.1)

pub job_event-Noticed :
    (i : ℕ) (before : List Job) (old : List Notice) (i' p' : ℕ) (j : Job) (status : Status)
    (s : Shell)
    → Noticed i before old s
    → get_elem? s.table.jobs i' ≡ some j
    → j.used ≡ true
    → (all_done (mark_done p' j.procs) ≡ true → i' ≢ i)
    → Noticed i before old (job_event i' p' j status s)
unfolding job_event
job_event-Noticed i before old i' p' j Status.stopped s h g u other =
    set_state-Noticed i before old i' j JobState.stopped s h g u
job_event-Noticed i before old i' p' j Status.continued s h g u other =
    set_state-Noticed i before old i' j JobState.running s h g u
job_event-Noticed i before old i' p' j Status.exited s h g u other =
    proc_ended-Noticed i before old i' p' j Status.exited s h g u other
job_event-Noticed i before old i' p' j Status.signaled s h g u other =
    proc_ended-Noticed i before old i' p' j Status.signaled s h g u other
