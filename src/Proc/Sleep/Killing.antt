-- ===== src/Proc/Sleep/Killing.antt =====
-- Killing by pid.
use unix_c_shell.Common.{
  ℕ, zero, suc, ◌≡◌, ◌≢◌, refl, ap, Bool, true, false, Option, none, some, List, [], ◌∷◌, All, take,
  drop, not, ◌&&◌, set, get_elem?, ◌==◌, arith, ==_ne, ==_refl, ◌⊎◌, inl, inr, Bool-cases,
}
use unix_c_shell.Proc.{Proc, Kernel, is_sleeping, runnable, is_unused}
use unix_c_shell.Proc.Sleep.{kill_one, kill_from, kkill, priority_from, mlfq_priority_of}

abbrev pub Other : ℕ → Proc → Type 0
Other pid p = p.pid ≢ pid

kill_from-missing :
    (pid : ℕ) (ps : List Proc) (seq : ℕ)
    → All (Other pid) ps
    → kill_from pid ps seq ≡ (ps, seq, false)
unfolding kill_from
kill_from-missing pid [] seq h = refl
kill_from-missing pid (p ∷ ps) seq h = rw (kill_from-missing pid ps seq h.1, ==_ne p.pid pid h.0)

-- No process has the pid: -1, and nothing changes.
pub kkill_missing : (pid : ℕ) (k : Kernel) → All (Other pid) k.procs → kkill pid k ≡ (k, false)
unfolding kkill
kkill_missing pid k h = rw (kill_from-missing pid k.procs k.mlfq_seq_counter h)

kill_from-found :
    (pid : ℕ) (ps : List Proc) (seq j : ℕ) (p : Proc)
    → get_elem? ps j ≡ some p
    → p.pid ≡ pid
    → All (Other pid) (take j ps)
    → kill_from pid ps seq ≡ (set ps j (kill_one p seq).0, (kill_one p seq).1, true)
unfolding kill_from
kill_from-found pid [] seq j p g e h = absurd (cc)
kill_from-found pid (q ∷ ps) seq zero p g e h = let same : q ≡ p = cc in rw (same, e, ==_refl)
kill_from-found pid (q ∷ ps) seq (suc j) p g e h =
    rw (==_ne q.pid pid h.0, kill_from-found pid ps seq j p g e h.1)

-- The first process with the pid is marked as killed, and runs again if it slept; no other process
-- changes, and the answer is 0.
pub kkill_found :
    (pid : ℕ) (k : Kernel) (j : ℕ) (p : Proc)
    → get_elem? k.procs j ≡ some p
    → p.pid ≡ pid
    → All (Other pid) (take j k.procs)
    → (p' : Proc) × ((kkill pid k).0.procs ≡ set k.procs j p')
      × ((kkill pid k).1 ≡ true)
      × (p'.killed ≡ 1)
      × (is_sleeping p'.state ≡ false)
      × ((is_sleeping p.state ≡ false) × (p' ≡ record p { killed = 1 })
          ⊎ (is_sleeping p.state ≡ true) × (p'.state ≡ runnable))
unfolding kkill kill_one
kkill_found pid k j p g e h =
    let f = kill_from-found pid k.procs k.mlfq_seq_counter j p g e h in
    (
      (kill_one p k.mlfq_seq_counter).0,
      ap (λ (r : List Proc × ℕ × Bool). r.0) f,
      ap (λ (r : List Proc × ℕ × Bool). r.2) f,
      ground arith,
      ground arith,
      ground arith,
    )

-- The loop of `kkill` leaves each process as it is, or kills it.
pub kill_from-get_elem? :
    (pid : ℕ) (ps : List Proc) (seq j : ℕ) (p : Proc)
    → get_elem? ps j ≡ some p
    → (get_elem? (kill_from pid ps seq).0 j ≡ some p)
      ⊎ ((s : ℕ) × (get_elem? (kill_from pid ps seq).0 j ≡ some (kill_one p s).0))
unfolding kill_from
kill_from-get_elem? pid [] seq j p g = absurd (cc)
kill_from-get_elem? pid (q ∷ ps) seq zero p g = elim (Bool-cases (q.pid == pid)) [
  | inl e ↦ let same : q ≡ p = cc in inr (seq, rw e (rw same))
  | inr e ↦ inl (rw e g)
]
kill_from-get_elem? pid (q ∷ ps) seq (suc j) p g = elim (Bool-cases (q.pid == pid)) [
  | inl e ↦ inl (rw e g)
  | inr e ↦ rw e (kill_from-get_elem? pid ps seq j p g)
]

pub kill_one_cases :
    (p : Proc) (seq : ℕ)
    → is_sleeping p.state ≡ false
    → (kill_one p seq).0 ≡ record p { killed = 1 }
unfolding kill_one
kill_one_cases p seq h = ground arith

-- A live process with the pid.
abbrev pub has_pid : ℕ → Proc → Bool
has_pid pid p = (p.pid == pid) && not (is_unused p.state)

priority_from-missing :
    (pid : ℕ) (ps : List Proc) (result : Option ℕ)
    → All (λ q. has_pid pid q ≡ false) ps
    → priority_from pid ps result ≡ result
unfolding priority_from
priority_from-missing pid [] result h = refl
priority_from-missing pid (q ∷ ps) result h = rw h.0 (priority_from-missing pid ps result h.1)

priority_from-found :
    (pid : ℕ) (ps : List Proc) (j : ℕ) (p : Proc) (result : Option ℕ)
    → get_elem? ps j ≡ some p
    → has_pid pid p ≡ true
    → All (λ q. has_pid pid q ≡ false) (drop (suc j) ps)
    → priority_from pid ps result ≡ some p.mlfq_priority
unfolding priority_from
priority_from-found pid [] j p result g e h = absurd (cc)
priority_from-found pid (q ∷ ps) zero p result g e h =
    let same : q ≡ p = cc in rw (same, e) (priority_from-missing pid ps (some p.mlfq_priority) h)
priority_from-found pid (q ∷ ps) (suc j) p result g e h = priority_from-found pid ps j p _ g e h

-- No live process has the pid: the answer is -1.
pub mlfq_priority_of-missing :
    (pid : ℕ) (k : Kernel)
    → All (λ q. has_pid pid q ≡ false) k.procs
    → mlfq_priority_of pid k ≡ none
unfolding mlfq_priority_of
mlfq_priority_of-missing pid k h = priority_from-missing pid k.procs none h

-- The queue of the live process with the pid, behind which no other has it.
pub mlfq_priority_of-found :
    (pid : ℕ) (k : Kernel) (j : ℕ) (p : Proc)
    → get_elem? k.procs j ≡ some p
    → has_pid pid p ≡ true
    → All (λ q. has_pid pid q ≡ false) (drop (suc j) k.procs)
    → mlfq_priority_of pid k ≡ some p.mlfq_priority
unfolding mlfq_priority_of
mlfq_priority_of-found pid k j p g e h = priority_from-found pid k.procs j p none g e h
