-- ===== src/Shell/Resume/Valid.antt =====
-- Events keep the job table valid, those that come during a wait too.
use unix_c_shell.Common.{
  ℕ, suc, ◌≡◌, refl, ◌∙◌, Bool, true, false, some, List, [], ◌∷◌, ◌++◌, ltb, length, arith, set,
  get_elem?, if◌then◌else◌, Bool-cases, Option-cases, inl, inr,
}
use unix_c_shell.Shell.Jobs.{Job, JobState, JobTable, jobs_find_by_pid, jobs_remove}
use unix_c_shell.Shell.Jobs.Table.{IsValid}
use unix_c_shell.Shell.Jobs.Register.{jobs_remove_lem}
use unix_c_shell.Shell.Outputs.{outreg_finalize}
use unix_c_shell.Shell.Events.{
  Status, Event, Shell, Foreground, set_state, mark_done, all_done, proc_ended, job_event,
  handle_tracked_event, jobs_sigchld_handler, index_from, own_event, wait_event, is_waiting,
  pending_max, wait_from, resume_wait, wait_runs, jobs_wait_foreground,
}
use unix_c_shell.Shell.Events.Kept.{used_numbers-set}
use unix_c_shell.Shell.Events.Noticed.{noticed_table}

set-IsValid :
    (i : ℕ) (j j2 : Job) (t : JobTable)
    → IsValid t
    → get_elem? t.jobs i ≡ some j
    → j2.used ≡ j.used
    → j2.job_number ≡ j.job_number
    → IsValid (record t { jobs = set t.jobs i j2 })
set-IsValid i j j2 t v g u e =
    let same = used_numbers-set t.jobs i j j2 g u e in
    record { below = rw same v.below; distinct = rw same v.distinct }

pub set_state-IsValid :
    (i : ℕ) (state : JobState) (t : JobTable) → IsValid t → IsValid (set_state i state t)
unfolding set_state
set_state-IsValid i state t v = elim (Option-cases (get_elem? t.jobs i)) [
  | inl e ↦ rw (e, set_state) v
  | inr (j, e) ↦ rw (e, set_state) (set-IsValid i j (record j { state = state }) t v e refl refl)
]

pub jobs_remove-IsValid : (n : ℕ) (t : JobTable) → IsValid t → IsValid (jobs_remove n t)
jobs_remove-IsValid n t v = (jobs_remove_lem n (suc n) t v (λ e. omega arith)).0

proc_ended-IsValid :
    (i p : ℕ) (j : Job) (status : Status) (s : Shell)
    → IsValid s.table
    → get_elem? s.table.jobs i ≡ some j
    → IsValid (proc_ended i p j status s).table
unfolding proc_ended
proc_ended-IsValid i p j status s v g =
    let j2 : Job = record j { procs = mark_done p j.procs } in
    let k = set-IsValid i j j2 s.table v g refl refl in
    elim (Bool-cases (all_done (mark_done p j.procs))) [
      | inr e ↦ rw (e, if◌then◌else◌) k
      | inl e ↦
          let s1 : Shell = record s { table = record s.table { jobs = set s.table.jobs i j2 } } in
          rw (e, if◌then◌else◌)
            (rw (noticed_table j.background status (mark_done p j.procs) s1)
              (jobs_remove-IsValid j.job_number s1.table k))
    ]

job_event-IsValid :
    (i p : ℕ) (j : Job) (status : Status) (s : Shell)
    → IsValid s.table
    → get_elem? s.table.jobs i ≡ some j
    → IsValid (job_event i p j status s).table
unfolding job_event
job_event-IsValid i p j Status.stopped s v g = set_state-IsValid i JobState.stopped s.table v
job_event-IsValid i p j Status.continued s v g = set_state-IsValid i JobState.running s.table v
job_event-IsValid i p j Status.exited s v g = proc_ended-IsValid i p j Status.exited s v g
job_event-IsValid i p j Status.signaled s v g = proc_ended-IsValid i p j Status.signaled s v g

handle_tracked_event-IsValid :
    (e : Event) (s : Shell) → IsValid s.table → IsValid (handle_tracked_event e s).table
unfolding handle_tracked_event
handle_tracked_event-IsValid (pid, status) s v =
    elim (Option-cases (jobs_find_by_pid pid s.table)) [
      | inl e ↦ rw (e, handle_tracked_event) v
      | inr ((i, p), e) ↦ elim (Option-cases (get_elem? s.table.jobs i)) [
        | inl f ↦ rw (e, f, handle_tracked_event) v
        | inr (j, f) ↦
            rw (e, f, handle_tracked_event)
              (job_event-IsValid i p j status (record s { outputs = outreg_finalize pid s.outputs })
                v f)
      ]
    ]

own_event-IsValid :
    (idx pid : ℕ) (status : Status) (f : Foreground) (s : Shell)
    → IsValid s.table
    → IsValid (own_event idx pid status (f, s)).1.table
unfolding own_event
own_event-IsValid idx pid Status.stopped f s v = v
own_event-IsValid idx pid Status.continued f s v = v
own_event-IsValid idx pid Status.exited f s v = v
own_event-IsValid idx pid Status.signaled f s v = v

wait_event-IsValid :
    (e : Event) (f : Foreground) (s : Shell)
    → IsValid s.table
    → IsValid (wait_event e (f, s)).1.table
unfolding wait_event
wait_event-IsValid (pid, status) f s v = elim (Option-cases (index_from pid 0 f.pids)) [
  | inl e ↦ rw (e, wait_event) (handle_tracked_event-IsValid (pid, status) s v)
  | inr (idx, e) ↦ rw (e, wait_event) (own_event-IsValid idx pid status f s v)
]

wait_from-IsValid :
    (abort : Bool) (es : List Event) (fs : Foreground × Shell)
    → IsValid fs.1.table
    → IsValid (wait_from abort es fs).1.table
unfolding wait_from
wait_from-IsValid abort [] fs v = v
wait_from-IsValid abort (e ∷ es) (f, s) v = elim (Bool-cases (is_waiting abort f)) [
  | inl w ↦
      rw (w, if◌then◌else◌)
        (wait_from-IsValid abort es (wait_event e (f, record s { pending = es }))
          (wait_event-IsValid e f (record s { pending = es }) v))
  | inr w ↦ rw (w, if◌then◌else◌) v
]

if_table : (b : Bool) (s t : Shell) → s.table ≡ t.table → (if b then s else t).table ≡ t.table
if_table true s t h = h
if_table false s t h = refl

handler-table : (es : List Event) (s : Shell) → (jobs_sigchld_handler es s).table ≡ s.table
unfolding jobs_sigchld_handler
handler-table [] s = refl
handler-table (e ∷ es) s =
    handler-table es _
    ∙ if_table (ltb (length s.pending) pending_max) (record s { pending = s.pending ++ e ∷ [] }) s
        refl

wait_runs-IsValid :
    (abort : Bool) (runs : List (List Event)) (fs : Foreground × Shell)
    → IsValid fs.1.table
    → IsValid (wait_runs abort runs fs).1.table
unfolding wait_runs resume_wait
wait_runs-IsValid abort [] fs v = v
wait_runs-IsValid abort (r ∷ rs) (f, s) v =
    let s1 = jobs_sigchld_handler r s in
    wait_runs-IsValid abort rs (wait_from abort s1.pending (f, s1))
      (wait_from-IsValid abort s1.pending (f, s1) (rw (handler-table r s) v))

pub jobs_wait_foreground-IsValid :
    (pids : List ℕ) (abort : Bool) (runs : List (List Event)) (s : Shell)
    → IsValid s.table
    → IsValid (jobs_wait_foreground pids abort runs s).1.table
unfolding jobs_wait_foreground
jobs_wait_foreground-IsValid pids abort runs s v =
    wait_runs-IsValid abort runs _ (wait_from-IsValid abort s.pending _ v)
