-- ===== src/Shell/Events/Delivered.antt =====
-- The wait for a foreground group acts on events that were delivered.
use unix_c_shell.Common.{
  ℕ, ◌+◌, ◌≡◌, refl, sym, Bool, true, false, not, ◌&&◌, some, List, [], ◌∷◌, ◌++◌, arith, All,
  All-set, length, ltb, ◌==◌, if◌then◌else◌, Bool-cases, Option-cases, ◌⊎◌, inl, inr, get_elem?,
}
use unix_c_shell.Shell.Jobs.{Job, JobProc, jobs_find_by_pid}
use unix_c_shell.Shell.Events.Counted.{
  Counted, members, wait_event-Counted, wait_from-Counted, fresh_count,
}
use unix_c_shell.Shell.Events.{
  Status, Event, Shell, Foreground, finish_notice, queue_notification, mark_done, all_done,
  proc_ended, job_event, handle_tracked_event, index_from, own_event, wait_event, is_waiting,
  wait_from, resume_wait, wait_runs, not_done, jobs_sigchld_handler, jobs_wait_foreground,
}

-- `x` is an element.
abbrev pub In : {A : Type 0} → A → List A → Type 0
In x [] = ⊥
In x (y ∷ ys) = (x ≡ y) ⊎ In x ys

In-left : {A : Type 0} → (x : A) (xs ys : List A) → In x xs → In x (xs ++ ys)
In-left x [] ys h = absurd h
In-left x (z ∷ xs) ys (inl e) = inl e
In-left x (z ∷ xs) ys (inr h) = inr (In-left x xs ys h)

In-right : {A : Type 0} → (x : A) (xs ys : List A) → In x ys → In x (xs ++ ys)
In-right x [] ys h = h
In-right x (z ∷ xs) ys h = inr (In-right x xs ys h)

pub All-of_In : {A : Type 0} → (P : A → Type 0) (xs : List A) → ((x : A) → In x xs → P x) → All P xs
All-of_In P [] f = tt
All-of_In P (x ∷ xs) f = (f x (inl refl), All-of_In P xs (λ y h. f y (inr h)))

pub All-append :
    {A : Type 0} → (P : A → Type 0) (xs ys : List A) → All P xs → All P ys → All P (xs ++ ys)
All-append P [] ys h g = g
All-append P (x ∷ xs) ys h g = (h.0, All-append P xs ys h.1 g)

-- The events of all runs of the handler.
abbrev pub all_of : List (List Event) → List Event
all_of [] = []
all_of (r ∷ rs) = r ++ all_of rs

-- An event that says that the process has ended.
abbrev pub HasEnded : List Event → ℕ → Type 0
HasEnded es pid = In (pid, Status.exited) es ⊎ In (pid, Status.signaled) es

-- What is queued has been delivered; each process that is done has an event of its end; and the wait is
-- stopped by an event of a process of the group.
abbrev pub Backed : List Event → List ℕ → Foreground × Shell → Type 0
Backed es group fs =
    All (λ (e : Event). In e es) fs.1.pending
    × All (λ (p : ℕ × Bool). p.1 ≡ true → HasEnded es p.0) fs.0.pids
    × (fs.0.stopped ≡ true → (q : ℕ) × In q group × In (q, Status.stopped) es)

finish_notice-pending :
    (b : Bool) (status : Status) (qs : List JobProc) (s : Shell)
    → (if b then finish_notice status qs s else s).pending ≡ s.pending
unfolding finish_notice queue_notification
finish_notice-pending false status qs s = refl
finish_notice-pending true status [] s = refl
finish_notice-pending true status (q ∷ qs) s = elim (Bool-cases (ltb (length s.notices) 64)) [
  | inl e ↦ rw e
  | inr e ↦ rw e
]

proc_ended-pending :
    (i p : ℕ) (j : Job) (status : Status) (s : Shell)
    → (proc_ended i p j status s).pending ≡ s.pending
unfolding proc_ended
proc_ended-pending i p j status s = elim (Bool-cases (all_done (mark_done p j.procs))) [
  | inl e ↦
      rw (e, if◌then◌else◌) (finish_notice-pending j.background status (mark_done p j.procs) _)
  | inr e ↦ rw (e, if◌then◌else◌)
]

job_event-pending :
    (i p : ℕ) (j : Job) (status : Status) (s : Shell)
    → (job_event i p j status s).pending ≡ s.pending
unfolding job_event
job_event-pending i p j Status.stopped s = refl
job_event-pending i p j Status.continued s = refl
job_event-pending i p j Status.exited s = proc_ended-pending i p j Status.exited s
job_event-pending i p j Status.signaled s = proc_ended-pending i p j Status.signaled s

handle_tracked_event-pending :
    (e : Event) (s : Shell) → (handle_tracked_event e s).pending ≡ s.pending
unfolding handle_tracked_event
handle_tracked_event-pending (pid, status) s = elim (Option-cases (jobs_find_by_pid pid s.table)) [
  | inl e ↦ rw (e, handle_tracked_event)
  | inr ((i, p), e) ↦ elim (Option-cases (get_elem? s.table.jobs i)) [
    | inl g ↦ rw (e, g, handle_tracked_event)
    | inr (j, g) ↦ rw (e, g, handle_tracked_event) (job_event-pending i p j status _)
  ]
]

-- The process that is found is in the group.
index_from-In :
    (pid k i : ℕ) (ps : List (ℕ × Bool)) → index_from pid k ps ≡ some i → In pid (members ps)
unfolding index_from
index_from-In pid k i [] h = cc
index_from-In pid k i ((q, d) ∷ ps) h = elim (Bool-cases (q == pid && not d)) [
  | inl e ↦ inl (ground arith)
  | inr e ↦ inr (index_from-In pid (k + 1) i ps (rw (e, if◌then◌else◌) at h))
]

own_event-Backed :
    (es : List Event) (group : List ℕ) (pid idx : ℕ) (status : Status) (f : Foreground) (s : Shell)
    → index_from pid 0 f.pids ≡ some idx
    → members f.pids ≡ group
    → In (pid, status) es
    → Backed es group (f, s)
    → Backed es group (own_event idx pid status (f, s))
unfolding own_event
own_event-Backed es group pid idx Status.stopped f s e m d (queued, ended, stop) =
    (queued, ended, λ _. (pid, rw m at (index_from-In pid 0 idx f.pids e), d))
own_event-Backed es group pid idx Status.continued f s e m d h = h
own_event-Backed es group pid idx Status.exited f s e m d (queued, ended, stop) =
    (queued, All-set _ f.pids idx (pid, true) ended (λ _. inl d), stop)
own_event-Backed es group pid idx Status.signaled f s e m d (queued, ended, stop) =
    (queued, All-set _ f.pids idx (pid, true) ended (λ _. inr d), stop)

wait_event-Backed :
    (es : List Event) (group : List ℕ) (e : Event) (fs : Foreground × Shell)
    → members fs.0.pids ≡ group
    → In e es
    → Backed es group fs
    → Backed es group (wait_event e fs)
unfolding wait_event
wait_event-Backed es group (pid, status) (f, s) m d h =
    elim (Option-cases (index_from pid 0 f.pids)) [
      | inl e ↦
          rw (e, wait_event)
            (rw (sym (handle_tracked_event-pending (pid, status) s)) at h.0, h.1, h.2)
      | inr (idx, e) ↦ rw (e, wait_event) (own_event-Backed es group pid idx status f s e m d h)
    ]

wait_from-Backed :
    (es : List Event) (group : List ℕ) (abort : Bool) (queue : List Event) (fs : Foreground × Shell)
    → Counted group fs
    → All (λ (e : Event). In e es) queue
    → Backed es group fs
    → Backed es group (wait_from abort queue fs)
unfolding wait_from
wait_from-Backed es group abort [] fs c a h = h
wait_from-Backed es group abort (e ∷ queue) (f, s) c a h = elim (Bool-cases (is_waiting abort f)) [
  | inl w ↦
      let s1 = record s { pending = queue } in
      rw (w, if◌then◌else◌)
        (wait_from-Backed es group abort queue _ (wait_event-Counted group e (f, s1) c) a.1
          (wait_event-Backed es group e (f, s1) c.1 a.0 (a.1, h.1, h.2)))
  | inr w ↦ rw (w, if◌then◌else◌) h
]

queued :
    (P : Event → Type 0) (e : Event) (b : Bool) (s : Shell)
    → P e
    → All P s.pending
    → All P (if b then record s { pending = s.pending ++ e ∷ [] } else s).pending
queued P e true s p h = All-append P s.pending (e ∷ []) h (p, tt)
queued P e false s p h = h

jobs_sigchld_handler-pending :
    (P : Event → Type 0) (run : List Event) (s : Shell)
    → All P run
    → All P s.pending
    → All P (jobs_sigchld_handler run s).pending
unfolding jobs_sigchld_handler
jobs_sigchld_handler-pending P [] s a h = h
jobs_sigchld_handler-pending P (e ∷ run) s a h =
    jobs_sigchld_handler-pending P run _ a.1 (queued P e (ltb (length s.pending) 256) s a.0 h)

pub wait_runs-Backed :
    (es : List Event) (group : List ℕ) (abort : Bool) (runs : List (List Event))
    (fs : Foreground × Shell)
    → Counted group fs
    → ((e : Event) → In e (all_of runs) → In e es)
    → Backed es group fs
    → Backed es group (wait_runs abort runs fs)
unfolding wait_runs resume_wait
wait_runs-Backed es group abort [] fs c d h = h
wait_runs-Backed es group abort (run ∷ runs) (f, s) c d h =
    let s1 = jobs_sigchld_handler run s in
    let a =
      jobs_sigchld_handler-pending (λ (e : Event). In e es) run s
        (All-of_In _ run (λ e i. d e (In-left e run (all_of runs) i))) h.0 in
    wait_runs-Backed es group abort runs _ (wait_from-Counted group abort s1.pending (f, s1) c)
      (λ e i. d e (In-right e run (all_of runs) i))
      (wait_from-Backed es group abort s1.pending (f, s1) c a (a, h.1, h.2))

not_done-Backed :
    (es : List Event) (ps : List ℕ)
    → All (λ (p : ℕ × Bool). p.1 ≡ true → HasEnded es p.0) (not_done ps)
unfolding not_done
not_done-Backed es [] = tt
not_done-Backed es (p ∷ ps) = (λ e. cc, not_done-Backed es ps)

-- From the start of the wait, everything rests on the events that were queued or come in the runs.
pub jobs_wait_foreground-Backed :
    (pids : List ℕ) (abort : Bool) (runs : List (List Event)) (s : Shell)
    → Backed (s.pending ++ all_of runs) pids (jobs_wait_foreground pids abort runs s)
unfolding jobs_wait_foreground
jobs_wait_foreground-Backed pids abort runs s =
    let es = s.pending ++ all_of runs in
    let c = fresh_count pids in
    let a =
      All-of_In (λ (e : Event). In e es) s.pending (λ e i. In-left e s.pending (all_of runs) i) in
    wait_runs-Backed es pids abort runs _ (wait_from-Counted pids abort s.pending (start, s) c)
      (λ e i. In-right e s.pending (all_of runs) i)
      (wait_from-Backed es pids abort s.pending (start, s) c a
        (a, not_done-Backed es pids, λ e. cc))
  where
    start : Foreground
    start = record { pids = not_done pids; done_count = 0; stopped = false }
