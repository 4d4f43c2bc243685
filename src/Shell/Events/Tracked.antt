-- ===== src/Shell/Events/Tracked.antt =====
-- A job stays in the table until all its processes have ended.
use unix_c_shell.Common.{
  ℕ, zero, suc, ◌≡◌, ◌≢◌, refl, sym, ap, ◌∙◌, true, false, some, List, [], ◌∷◌, arith, All, set,
  get_elem?, get_elem?-set_ne, ◌==◌, if◌then◌else◌, Bool-cases, Option-cases, ◌⊎◌, inl, inr,
}
use unix_c_shell.Shell.Jobs.{Job, JobProc, JobState, JobTable, jobs_find_by_pid, pid_from}
use unix_c_shell.Shell.Jobs.Table.{IsValid}
use unix_c_shell.Shell.Outputs.{outreg_finalize}
use unix_c_shell.Shell.Events.{
  Status, Event, Notice, Shell, set_state, mark_done, all_done, proc_ended, job_event,
  handle_tracked_event, process_from, jobs_process_pending,
}
use unix_c_shell.Shell.Events.Delivered.{All-of_In}
use unix_c_shell.Shell.Events.Noticed.{IsOfOther, Noticed, noticed_table, job_event-Noticed}
use unix_c_shell.Shell.Events.Kept.{
  Unfinished, Kept, pid_from-Found, numbers_differ, Kept-set, Kept-jobs_remove,
}

set_state-Kept :
    (i n p own i' : ℕ) (state : JobState) (t : JobTable)
    → Kept i n p own t
    → Kept i n p own (set_state i' state t)
unfolding set_state
set_state-Kept i n p own i' state t h = elim (Option-cases (get_elem? t.jobs i')) [
  | inl e ↦ rw (e, set_state) h
  | inr (j, e) ↦
      rw (e, set_state)
        (Kept-set i n p own i' j (record j { state = state }) t h e refl refl (inr refl))
]

mark_done-other :
    (p p' : ℕ) (qs : List JobProc) → p' ≢ p → get_elem? (mark_done p' qs) p ≡ get_elem? qs p
unfolding mark_done
mark_done-other p p' qs ne = elim (Option-cases (get_elem? qs p')) [
  | inl e ↦ rw (e, mark_done)
  | inr (q, e) ↦ rw (e, mark_done) (get_elem?-set_ne qs p' p (record q { done = true }) ne)
]

not_all_done :
    (qs : List JobProc) (p : ℕ) (q : JobProc)
    → get_elem? qs p ≡ some q
    → q.done ≡ false
    → all_done qs ≡ false
unfolding all_done
not_all_done [] p q g d = cc
not_all_done (x ∷ qs) zero q g d = let e : x ≡ q = cc in rw (e, d)
not_all_done (x ∷ qs) (suc p) q g d = elim (Bool-cases x.done) [
  | inl e ↦ rw e (not_all_done qs p q g d)
  | inr e ↦ rw e
]

-- The job that loses its last process is another one.
ended_elsewhere :
    (i n p own i' p' : ℕ) (j : Job) (t : JobTable)
    → Unfinished i n p own t
    → get_elem? t.jobs i' ≡ some j
    → (i' ≢ i) ⊎ (p' ≢ p)
    → all_done (mark_done p' j.procs) ≡ true
    → i' ≢ i
ended_elsewhere i n p own i' p' j t h g (inl ne) all here = ne here
ended_elsewhere i n p own i' p' j t h g (inr ne) all here =
    let g' : get_elem? t.jobs i ≡ some j = rw here at g in
    let same : h.job ≡ j = cc in
    let at : get_elem? (mark_done p' j.procs) p ≡ some h.proc =
      mark_done-other p p' j.procs ne
      ∙ ap (λ (x : Job). get_elem? x.procs p) (sym same)
      ∙ h.proc_at in
    let bad = not_all_done (mark_done p' j.procs) p h.proc at h.open_still in absurd (cc)

proc_ended-Kept :
    (i n p own i' p' : ℕ) (j : Job) (status : Status) (s : Shell)
    → Kept i n p own s.table
    → get_elem? s.table.jobs i' ≡ some j
    → j.used ≡ true
    → (i' ≢ i) ⊎ (p' ≢ p)
    → Kept i n p own (proc_ended i' p' j status s).table
unfolding proc_ended
proc_ended-Kept i n p own i' p' j status s h g u other =
    let j2 : Job = record j { procs = mark_done p' j.procs } in
    let cond : (i' ≢ i) ⊎ (get_elem? j2.procs p ≡ get_elem? j.procs p) = elim other [
      | inl ne ↦ inl ne
      | inr ne ↦ inr (mark_done-other p p' j.procs ne)
    ] in
    let k = Kept-set i n p own i' j j2 s.table h g refl refl cond in
    elim (Bool-cases (all_done (mark_done p' j.procs))) [
      | inr e ↦ rw (e, if◌then◌else◌) k
      | inl e ↦
          let ne = ended_elsewhere i n p own i' p' j s.table h.1 g other e in
          let differ =
            numbers_differ s.table.jobs i' i j h.1.job h.0.distinct g h.1.at u h.1.used ne in
          let far : j.job_number ≢ n = λ q. differ (q ∙ sym h.1.number) in
          let s1 : Shell = record s { table = record s.table { jobs = set s.table.jobs i' j2 } } in
          rw (e, if◌then◌else◌)
            (rw (noticed_table j.background status (mark_done p' j.procs) s1)
              (Kept-jobs_remove i n p own j.job_number s1.table far k))
    ]

job_event-Kept :
    (i n p own i' p' : ℕ) (j : Job) (status : Status) (s : Shell)
    → Kept i n p own s.table
    → get_elem? s.table.jobs i' ≡ some j
    → j.used ≡ true
    → (i' ≢ i) ⊎ (p' ≢ p)
    → Kept i n p own (job_event i' p' j status s).table
unfolding job_event
job_event-Kept i n p own i' p' j Status.stopped s h g u other =
    set_state-Kept i n p own i' JobState.stopped s.table h
job_event-Kept i n p own i' p' j Status.continued s h g u other =
    set_state-Kept i n p own i' JobState.running s.table h
job_event-Kept i n p own i' p' j Status.exited s h g u other =
    proc_ended-Kept i n p own i' p' j Status.exited s h g u other
job_event-Kept i n p own i' p' j Status.signaled s h g u other =
    proc_ended-Kept i n p own i' p' j Status.signaled s h g u other

-- A process with another pid is not process `p` of job `i`.
not_own :
    (i n p own pid i' p' : ℕ) (j : Job) (q : JobProc) (t : JobTable)
    → Unfinished i n p own t
    → get_elem? t.jobs i' ≡ some j
    → get_elem? j.procs p' ≡ some q
    → q.pid ≡ pid
    → pid ≢ own
    → (i' ≢ i) ⊎ (p' ≢ p)
not_own i n p own pid i' p' j q t h g f c ne = elim (Bool-cases (i' == i)) [
  | inr a ↦ inl (ground arith)
  | inl a ↦ elim (Bool-cases (p' == p)) [
    | inr b ↦ inr (ground arith)
    | inl b ↦
        let a' : i' ≡ i = ground arith in
        let b' : p' ≡ p = ground arith in
        let g2 : get_elem? t.jobs i ≡ some j = rw a' at g in
        let same : h.job ≡ j = cc in
        let f2 : get_elem? j.procs p ≡ some q = rw b' at f in
        let f3 : get_elem? j.procs p ≡ some h.proc =
          ap (λ (x : Job). get_elem? x.procs p) (sym same) ∙ h.proc_at in
        let eq : q ≡ h.proc = cc in
        absurd (ne (sym c ∙ ap (λ (x : JobProc). x.pid) eq ∙ h.proc_pid))
  ]
]

handle_tracked_event-Kept :
    (i n p own pid : ℕ) (before : List Job) (old : List Notice) (status : Status) (s : Shell)
    → pid ≢ own
    → Kept i n p own s.table
    → Noticed i before old s
    → Kept i n p own (handle_tracked_event (pid, status) s).table
      × Noticed i before old (handle_tracked_event (pid, status) s)
unfolding handle_tracked_event jobs_find_by_pid
handle_tracked_event-Kept i n p own pid before old status s ne h w =
    elim (Option-cases (pid_from pid 0 s.table.jobs)) [
      | inl e ↦ rw (e, handle_tracked_event) (h, w)
      | inr ((i', p'), e) ↦
          let (o, j, q, at, g, u, f, c) = pid_from-Found pid 0 i' p' s.table.jobs e in
          let here : o ≡ i' = omega arith in
          let g' : get_elem? s.table.jobs i' ≡ some j = rw here at g in
          let other = not_own i n p own pid i' p' j q s.table h.1 g' f c ne in
          let s1 = record s { outputs = outreg_finalize pid s.outputs } in
          rw (e, g', handle_tracked_event)
            (
              job_event-Kept i n p own i' p' j status s1 h g' u other,
              job_event-Noticed i before old i' p' j status s1 w g' u
                  (ended_elsewhere i n p own i' p' j s.table h.1 g' other),
            )
    ]

process_from-Kept :
    (i n p own : ℕ) (before : List Job) (old : List Notice) (es : List Event) (s : Shell)
    → All (λ (e : Event). e.0 ≢ own) es
    → Kept i n p own s.table
    → Noticed i before old s
    → Kept i n p own (process_from es s).table × Noticed i before old (process_from es s)
unfolding process_from
process_from-Kept i n p own before old [] s a h w = (h, w)
process_from-Kept i n p own before old (e ∷ es) s a h w =
    let s1 = record s { pending = es } in
    let q = handle_tracked_event-Kept i n p own e.0 before old e.1 s1 a.0 h w in
    process_from-Kept i n p own before old es (handle_tracked_event e s1) a.1 q.0 q.1

-- `jobs_process_pending` does not drop a job with a process that has not ended, and queues no notice for
-- it: for a valid table with a job in use at `i` of number `n`, whose process at `p` is not done, and a
-- queue without an event for that process, the table is valid afterwards and has at `i` a job in use of
-- that number whose process at `p` has that pid and is not done; and every notice that is queued then
-- was queued before, or names the first process of a job that was in use at another place.
pub jobs_process_pending-keeps :
    (i p : ℕ) (j : Job) (q : JobProc) (s : Shell)
    → IsValid s.table
    → get_elem? s.table.jobs i ≡ some j
    → j.used ≡ true
    → get_elem? j.procs p ≡ some q
    → q.done ≡ false
    → All (λ (e : Event). e.0 ≢ q.pid) s.pending
    → IsValid (jobs_process_pending s).table
      × Unfinished i j.job_number p q.pid (jobs_process_pending s).table
      × All (IsOfOther i s.table.jobs s.notices) (jobs_process_pending s).notices
unfolding jobs_process_pending
jobs_process_pending-keeps i p j q s v g u f d a =
    let start : Unfinished i j.job_number p q.pid s.table = record {
      job = j;
      proc = q;
      at = g;
      used = u;
      number = refl;
      proc_at = f;
      proc_pid = refl;
      open_still = d;
    } in
    let old = All-of_In (IsOfOther i s.table.jobs s.notices) s.notices (λ n h. inl h) in
    let r =
      process_from-Kept i j.job_number p q.pid s.table.jobs s.notices s.pending s a (v, start)
        (λ k x at used. (x, at, used, refl), old) in
    (r.0.0, r.0.1, r.1.1)
