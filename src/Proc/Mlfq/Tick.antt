-- ===== src/Proc/Mlfq/Tick.antt =====
-- The timer tick of a running process: slice accounting, demotion and preemption.
use mathlib.Core.Path.{subst}
use unix_c_shell.Common.{
  Option-cases, sym, ap, ◌∙◌, ℕ, ◌+◌, ◌^◌, ◌≤◌, ◌<◌, ◌≡◌, refl, Bool, true, false, none, some, List,
  [], ◌∷◌, All, All-set, All-get_elem?, get_elem?, set, get_elem?-set_self, get_elem?-lt, length,
  length-set, min, leb, arith, Bool-cases, ◌⊎◌, inl, inr,
}
use unix_c_shell.Proc.{Proc, Kernel, is_runnable, runnable, nproc, mlfq_slice}
use unix_c_shell.Proc.Inv.{Fits, IsValid, All-Fits_mono}
use unix_c_shell.Proc.Mlfq.{
  account, yield, tick_proc, mlfq_tick, mlfq_maybe_boost, mlfq_higher_priority_exists,
}
use unix_c_shell.Proc.Mlfq.Boost.{mlfq_maybe_boost-IsValid, mlfq_maybe_boost_counts}

-- With its slice used up a process moves down one queue, the lowest aside, and to the tail of it
-- with a full slice; otherwise only the tick is counted.
pub account_lem :
    (p : Proc) (seq : ℕ)
    → seq + 1 < 2 ^ 64
    → Fits seq p
    → let (p', seq', exhausted) = account p seq in
      (mlfq_slice p.mlfq_priority ≤ p.mlfq_ticks_used + 1)
        × (exhausted ≡ true)
        × (p' ≡ record p {
          mlfq_priority = min (p.mlfq_priority + 1) 3;
          mlfq_ticks_used = 0;
          mlfq_qtime = seq;
        })
        × (seq' ≡ seq + 1)
      ⊎ (p.mlfq_ticks_used + 1 < mlfq_slice p.mlfq_priority)
        × (exhausted ≡ false)
        × (p' ≡ record p { mlfq_ticks_used = p.mlfq_ticks_used + 1 })
        × (seq' ≡ seq)
unfolding account
account_lem p seq h f =
    elim (Bool-cases (leb (mlfq_slice p.mlfq_priority) (p.mlfq_ticks_used + 1))) [
      | inl e ↦ inl (ground arith, rw e, rw e (ground arith), rw e (omega arith))
      | inr e ↦ inr (ground arith, rw e, rw e, rw e)
    ]

account-Fits :
    (p : Proc) (seq : ℕ)
    → seq + 1 < 2 ^ 64
    → Fits seq p
    → Fits (account p seq).1 (account p seq).0
      × (seq ≤ (account p seq).1)
      × ((account p seq).0.state ≡ p.state)
unfolding account
account-Fits p seq h f = (ground arith, ground arith, ground arith)

yield_cases :
    (i : ℕ) (procs : List Proc)
    → (get_elem? procs i ≡ none) × (yield i procs ≡ procs)
      ⊎ ((p : Proc) × (get_elem? procs i ≡ some p)
          × (yield i procs ≡ set procs i (record p { state = runnable })))
unfolding yield
yield_cases i procs = elim (Option-cases (get_elem? procs i)) [
  | inl e ↦ inl (e, ground arith)
  | inr (p, e) ↦ inr (p, e, ground arith)
]

yield-All :
    (P : Proc → Type 0) (i : ℕ) (procs : List Proc)
    → ((p : Proc) → P p → P (record p { state = runnable }))
    → All P procs
    → All P (yield i procs)
yield-All P i procs keep h = elim (yield_cases i procs) [
  | inl (_, e) ↦ subst (All P) (sym e) h
  | inr (p, g, e) ↦
      subst (All P) (sym e) (All-set P procs i _ h (keep p (All-get_elem? P procs i p h g)))
]

length-yield : (i : ℕ) (procs : List Proc) → length (yield i procs) ≡ length procs
length-yield i procs = elim (yield_cases i procs) [
  | inl (_, e) ↦ ap length e
  | inr (p, g, e) ↦ ap length e ∙ length-set procs i _
]

-- The process is not runnable, or on no higher queue than `prio`.
abbrev pub NoneAbove : ℕ → Proc → Type 0
NoneAbove prio q = (is_runnable q.state ≡ false) ⊎ (prio ≤ q.mlfq_priority)

mlfq_higher_priority_exists-false :
    (prio : ℕ) (qs : List Proc)
    → mlfq_higher_priority_exists prio qs ≡ false
    → All (NoneAbove prio) qs
unfolding mlfq_higher_priority_exists
mlfq_higher_priority_exists-false prio [] h = tt
mlfq_higher_priority_exists-false prio (q ∷ qs) h =
    (ground arith, mlfq_higher_priority_exists-false prio qs (ground arith))

-- The table after the accounting of `p`, and whether `p` gives up the hart.
abbrev accounted : ℕ → Kernel → Proc → List Proc
accounted i k p = set k.procs i (account p k.mlfq_seq_counter).0

tick_proc_cases :
    (i : ℕ) (k : Kernel) (p : Proc)
    → ((tick_proc i k p).1 ≡ true) × ((tick_proc i k p).0.procs ≡ yield i (accounted i k p))
      ⊎ ((tick_proc i k p).1 ≡ false)
        × ((tick_proc i k p).0.procs ≡ accounted i k p)
        × ((account p k.mlfq_seq_counter).2 ≡ false)
        × (mlfq_higher_priority_exists
              (account p k.mlfq_seq_counter).0.mlfq_priority
              (accounted i k p)
            ≡ false)
unfolding tick_proc
tick_proc_cases i k p = ground arith

tick_proc-seq :
    (i : ℕ) (k : Kernel) (p : Proc)
    → (tick_proc i k p).0.mlfq_seq_counter ≡ (account p k.mlfq_seq_counter).1
unfolding tick_proc
tick_proc-seq i k p = refl

module _ (i : ℕ) (k : Kernel) (v : IsValid k) (room : k.mlfq_seq_counter + 1 < 2 ^ 64) where
  accounted-Fits :
      (p : Proc)
      → get_elem? k.procs i ≡ some p
      → All (Fits (account p k.mlfq_seq_counter).1) (accounted i k p)
  accounted-Fits p g =
      let f = All-get_elem? (Fits k.mlfq_seq_counter) k.procs i p v.fits g in
      let a = account-Fits p k.mlfq_seq_counter room f in
      All-set (Fits _) k.procs i _ (All-Fits_mono _ _ k.procs a.1 v.fits) a.0

  tick_proc-Fits :
      (p : Proc)
      → get_elem? k.procs i ≡ some p
      → (All (Fits (account p k.mlfq_seq_counter).1) (tick_proc i k p).0.procs)
        × (length (tick_proc i k p).0.procs ≡ length k.procs)
  tick_proc-Fits p g = elim (tick_proc_cases i k p) [
    | inl (_, e) ↦ (
      subst (All (Fits (account p k.mlfq_seq_counter).1)) (sym e)
          (yield-All (Fits _) i (accounted i k p) (λ q f. ground arith) (accounted-Fits p g)),
      ap length e ∙ length-yield i (accounted i k p) ∙ length-set k.procs i _,
    )
    | inr (_, e, _, _) ↦ (
      subst (All (Fits (account p k.mlfq_seq_counter).1)) (sym e) (accounted-Fits p g),
      ap length e ∙ length-set k.procs i _,
    )
  ]

  tick_proc-IsValid : (p : Proc) → get_elem? k.procs i ≡ some p → IsValid (tick_proc i k p).0
  tick_proc-IsValid p g =
      let t = tick_proc-Fits p g in
      let f = All-get_elem? (Fits k.mlfq_seq_counter) k.procs i p v.fits g in
      record {
        size = t.1 ∙ v.size;
        started =
            omega (arith, account-Fits p k.mlfq_seq_counter room f, tick_proc-seq i k p, v.started);
        fits = subst (λ s. All (Fits s) (tick_proc i k p).0.procs) (sym (tick_proc-seq i k p)) t.0;
      }

mlfq_tick_cases :
    (i : ℕ) (k : Kernel)
    → (get_elem? (mlfq_maybe_boost k).procs i ≡ none)
        × (mlfq_tick i k ≡ (mlfq_maybe_boost k, false))
      ⊎ ((p : Proc) × (get_elem? (mlfq_maybe_boost k).procs i ≡ some p)
          × (mlfq_tick i k ≡ tick_proc i (mlfq_maybe_boost k) p))
unfolding mlfq_tick
mlfq_tick_cases i k = elim (Option-cases (get_elem? (mlfq_maybe_boost k).procs i)) [
  | inl e ↦ inl (e, rw (e, mlfq_tick))
  | inr (p, e) ↦ inr (p, e, rw (e, mlfq_tick))
]

-- A timer tick keeps the scheduling invariant, if the sequence counter has room for the numbers
-- that a boost and a demotion hand out.
pub mlfq_tick-IsValid :
    (i : ℕ) (k : Kernel)
    → IsValid k
    → k.mlfq_seq_counter + nproc + 1 < 2 ^ 64
    → IsValid (mlfq_tick i k).0
mlfq_tick-IsValid i k v h =
    let c = mlfq_maybe_boost_counts k (omega (arith, v.size)) in
    let b : IsValid (mlfq_maybe_boost k) = mlfq_maybe_boost-IsValid k v (omega arith) in
    elim (mlfq_tick_cases i k) [
      | inl (_, e) ↦ subst (λ (r : Kernel × Bool). IsValid r.0) (sym e) b
      | inr (p, g, e) ↦
          subst (λ (r : Kernel × Bool). IsValid r.0) (sym e)
            (tick_proc-IsValid i (mlfq_maybe_boost k) b (omega (arith, c, v.size)) p g)
    ]

-- The state and the answer of a tick leave the hart to the process only if no other deserves it.
abbrev IsStrict : ℕ → Kernel × Bool → Type 0
IsStrict i r =
    (p : Proc)
    → r.1 ≡ false
    → get_elem? r.0.procs i ≡ some p
    → All (NoneAbove p.mlfq_priority) r.0.procs

tick_proc-IsStrict :
    (i : ℕ) (k : Kernel) (q : Proc) → get_elem? k.procs i ≡ some q → IsStrict i (tick_proc i k q)
tick_proc-IsStrict i k q g p h gp = elim (tick_proc_cases i k q) [
  | inl (yes_yield, _) ↦ absurd (cc)
  | inr (_, e, _, hi) ↦
      let a = (account q k.mlfq_seq_counter).0 in
      let at_i : get_elem? (accounted i k q) i ≡ some a =
        get_elem?-set_self k.procs i a (get_elem?-lt k.procs i q g) in
      let same : a ≡ p = cc in
      let all = mlfq_higher_priority_exists-false a.mlfq_priority (accounted i k q) hi in
      subst (All (NoneAbove p.mlfq_priority)) (sym e)
        (subst (λ (x : Proc). All (NoneAbove x.mlfq_priority) (accounted i k q)) same all)
]

-- A process that keeps the hart after its tick has no runnable process on a higher queue.
pub mlfq_tick_strict :
    (i : ℕ) (k : Kernel) (p : Proc)
    → (mlfq_tick i k).1 ≡ false
    → get_elem? (mlfq_tick i k).0.procs i ≡ some p
    → All (NoneAbove p.mlfq_priority) (mlfq_tick i k).0.procs
mlfq_tick_strict i k p h g = elim (mlfq_tick_cases i k) [
  | inl (missing, e) ↦ absurd (let e' = ap (λ (r : Kernel × Bool). get_elem? r.0.procs i) e in cc)
  | inr (q, at_q, e) ↦
      subst (IsStrict i) (sym e) (tick_proc-IsStrict i (mlfq_maybe_boost k) q at_q) p h g
]
