-- ===== src/Shell/Events/Counted.antt =====
-- The wait for a foreground group counts the processes that are done.
use unix_c_shell.Common.{
  ℕ, suc, ◌+◌, ◌≤◌, ◌≡◌, refl, sym, ap, ◌∙◌, Bool, true, false, not, ◌&&◌, some, List, [], ◌∷◌,
  arith, All, length, set, ◌==◌, if◌then◌else◌, Bool-cases, Option-cases, ◌⊎◌, inl, inr,
}
use unix_c_shell.Shell.Events.{
  Status, Event, Shell, Foreground, index_from, own_event, wait_event, is_waiting, wait_from,
  resume_wait, wait_runs, jobs_wait_foreground, not_done, jobs_sigchld_handler,
}

-- How many processes of the group are done.
abbrev pub dones : List (ℕ × Bool) → ℕ
dones [] = 0
dones ((p, d) ∷ ps) = (if d then 1 else 0) + dones ps

dones_le : (ps : List (ℕ × Bool)) → dones ps ≤ length ps
dones_le [] = omega arith
dones_le ((p, true) ∷ ps) = omega (arith, dones_le ps)
dones_le ((p, false) ∷ ps) = omega (arith, dones_le ps)

dones_full : (ps : List (ℕ × Bool)) → length ps ≤ dones ps → All (λ (p : ℕ × Bool). p.1 ≡ true) ps
dones_full [] h = tt
dones_full ((p, true) ∷ ps) h = (refl, dones_full ps (omega arith))
dones_full ((p, false) ∷ ps) h = absurd (omega (arith, dones_le ps))

-- The processes of the group.
abbrev pub members : List (ℕ × Bool) → List ℕ
members [] = []
members ((p, d) ∷ ps) = p ∷ members ps

-- An index that is found is of a process that is not done: marking it counts one more.
pub index_from-dones :
    (pid k i : ℕ) (ps : List (ℕ × Bool))
    → index_from pid k ps ≡ some i
    → (p : ℕ) × (i ≡ k + p)
      × (dones (set ps p (pid, true)) ≡ dones ps + 1)
      × (members (set ps p (pid, true)) ≡ members ps)
unfolding index_from
index_from-dones pid k i [] h = cc
index_from-dones pid k i ((q, d) ∷ ps) h = elim (Bool-cases (q == pid && not d)) [
  | inl e ↦
      let a : some k ≡ some i = rw (e, if◌then◌else◌) at h in
      (0, ground arith, ground arith, ap (λ x. x ∷ members ps) (ground arith))
  | inr e ↦
      let a : index_from pid (k + 1) ps ≡ some i = rw (e, if◌then◌else◌) at h in
      let (p, at, c, m) = index_from-dones pid (k + 1) i ps a in
      (suc p, omega arith, omega (arith, c), ap (λ xs. q ∷ xs) m)
]

-- `done_count` counts the processes that are done, of the same group.
abbrev pub Counted : List ℕ → Foreground × Shell → Type 0
Counted group fs = (fs.0.done_count ≡ dones fs.0.pids) × (members fs.0.pids ≡ group)

ended :
    (pid idx : ℕ) (f : Foreground)
    → index_from pid 0 f.pids ≡ some idx
    → f.done_count ≡ dones f.pids
    → (f.done_count + 1 ≡ dones (set f.pids idx (pid, true)))
      × (members (set f.pids idx (pid, true)) ≡ members f.pids)
ended pid idx f e h =
    let (p, at, c, m) = index_from-dones pid 0 idx f.pids e in
    let here : p ≡ idx = omega arith in
    (
      ap (λ n. n + 1) h ∙ sym c ∙ ap (λ i. dones (set f.pids i (pid, true))) here,
      ap (λ i. members (set f.pids i (pid, true))) (sym here) ∙ m,
    )

pub own_event-Counted :
    (group : List ℕ) (pid idx : ℕ) (status : Status) (f : Foreground) (s : Shell)
    → index_from pid 0 f.pids ≡ some idx
    → Counted group (f, s)
    → Counted group (own_event idx pid status (f, s))
unfolding own_event
own_event-Counted group pid idx Status.stopped f s e h = h
own_event-Counted group pid idx Status.continued f s e h = h
own_event-Counted group pid idx Status.exited f s e h =
    let q = ended pid idx f e h.0 in (q.0, q.1 ∙ h.1)
own_event-Counted group pid idx Status.signaled f s e h =
    let q = ended pid idx f e h.0 in (q.0, q.1 ∙ h.1)

pub wait_event-Counted :
    (group : List ℕ) (e : Event) (fs : Foreground × Shell)
    → Counted group fs
    → Counted group (wait_event e fs)
unfolding wait_event
wait_event-Counted group (pid, status) (f, s) h = elim (Option-cases (index_from pid 0 f.pids)) [
  | inl e ↦ rw (e, wait_event) h
  | inr (idx, e) ↦ rw (e, wait_event) (own_event-Counted group pid idx status f s e h)
]

pub wait_from-Counted :
    (group : List ℕ) (abort : Bool) (es : List Event) (fs : Foreground × Shell)
    → Counted group fs
    → Counted group (wait_from abort es fs)
unfolding wait_from
wait_from-Counted group abort [] fs h = h
wait_from-Counted group abort (e ∷ es) (f, s) h = elim (Bool-cases (is_waiting abort f)) [
  | inl c ↦
      rw (c, if◌then◌else◌)
        (wait_from-Counted group abort es _
          (wait_event-Counted group e (f, record s { pending = es }) h))
  | inr c ↦ rw (c, if◌then◌else◌) h
]

pub wait_runs-Counted :
    (group : List ℕ) (abort : Bool) (rs : List (List Event)) (fs : Foreground × Shell)
    → Counted group fs
    → Counted group (wait_runs abort rs fs)
unfolding wait_runs resume_wait
wait_runs-Counted group abort [] fs h = h
wait_runs-Counted group abort (r ∷ rs) (f, s) h =
    wait_runs-Counted group abort rs _
      (wait_from-Counted group abort _ (f, jobs_sigchld_handler r s) h)

-- Where the loop does not wait, something ended it.
pub wait_over :
    (group : List ℕ) (abort : Bool) (f : Foreground) (s : Shell)
    → Counted group (f, s)
    → (is_waiting abort f ≡ true)
      ⊎ (f.stopped ≡ true)
      ⊎ (abort ≡ true)
      ⊎ All (λ (p : ℕ × Bool). p.1 ≡ true) f.pids
unfolding is_waiting
wait_over group abort f s h = elim (Bool-cases (is_waiting abort f)) [
  | inl e ↦ inl e
  | inr e ↦ ground (arith, dones_full f.pids)
]

pub fresh_count : (ps : List ℕ) → (0 ≡ dones (not_done ps)) × (members (not_done ps) ≡ ps)
unfolding not_done
fresh_count [] = (refl, refl)
fresh_count (p ∷ ps) = let h = fresh_count ps in (omega (arith, h.0), ap (λ xs. p ∷ xs) h.1)

pub jobs_wait_foreground-Counted :
    (pids : List ℕ) (abort : Bool) (runs : List (List Event)) (s : Shell)
    → Counted pids (jobs_wait_foreground pids abort runs s)
unfolding jobs_wait_foreground
jobs_wait_foreground-Counted pids abort runs s =
    wait_runs-Counted pids abort runs (wait_from abort s.pending (start, s))
      (wait_from-Counted pids abort s.pending (start, s) (fresh_count pids))
  where
    start : Foreground
    start = record { pids = not_done pids; done_count = 0; stopped = false }
