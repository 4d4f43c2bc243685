-- ===== src/Proc/Mlfq/Boost.antt =====
-- The priority boost.
use unix_c_shell.Common.{
  ℕ, ◌+◌, ◌^◌, ◌≤◌, ◌<◌, ◌≡◌, true, List, [], ◌∷◌, All, length, leb, arith, Bool-cases, ◌⊎◌, inl,
  inr,
}
use unix_c_shell.Proc.{Proc, Kernel, is_unused, sweep, nproc, mlfq_boost_interval}
use unix_c_shell.Proc.Inv.{IsValid, Keeps, sweep_counts, sweep-IsValid}
use unix_c_shell.Proc.Mlfq.{boost_one, mlfq_boost_all, since_boost, mlfq_maybe_boost}

pub boost_one-Keeps : Keeps boost_one
unfolding boost_one
boost_one-Keeps = record { fits = λ p seq h f. ground arith; counts = λ p seq h. ground arith }

-- A boost keeps the scheduling invariant.
pub mlfq_boost_all-IsValid :
    (k : Kernel) → IsValid k → k.mlfq_seq_counter + nproc < 2 ^ 64 → IsValid (mlfq_boost_all k)
unfolding mlfq_boost_all
mlfq_boost_all-IsValid k v h = sweep-IsValid boost_one boost_one-Keeps k v h

pub mlfq_maybe_boost-IsValid :
    (k : Kernel) → IsValid k → k.mlfq_seq_counter + nproc < 2 ^ 64 → IsValid (mlfq_maybe_boost k)
unfolding mlfq_maybe_boost
mlfq_maybe_boost-IsValid k v h = elim (Bool-cases (leb mlfq_boost_interval (since_boost k))) [
  | inl e ↦
      rw e
        (mlfq_boost_all-IsValid _ (record { size = v.size; started = v.started; fits = v.fits }) h)
  | inr e ↦ rw e v
]

pub mlfq_maybe_boost_counts :
    (k : Kernel)
    → k.mlfq_seq_counter + length k.procs < 2 ^ 64
    → (mlfq_maybe_boost k).mlfq_seq_counter ≤ k.mlfq_seq_counter + length k.procs
unfolding mlfq_maybe_boost mlfq_boost_all
mlfq_maybe_boost_counts k h =
    ground (arith, sweep_counts boost_one boost_one-Keeps k.procs k.mlfq_seq_counter h)

-- Every live process has a full slice on queue 0, and arrives behind every number below `seq`.
abbrev pub IsBoosted : ℕ → Proc → Type 0
IsBoosted seq p =
    (is_unused p.state ≡ true)
    ⊎ (p.mlfq_priority ≡ 0) × (p.mlfq_ticks_used ≡ 0) × (seq ≤ p.mlfq_qtime)

sweep-IsBoosted :
    (ps : List Proc) (low seq : ℕ)
    → low ≤ seq
    → seq + length ps < 2 ^ 64
    → All (IsBoosted low) (sweep boost_one ps seq).0
unfolding sweep
sweep-IsBoosted [] low seq h r = tt
sweep-IsBoosted (p ∷ ps) low seq h r =
    let c = boost_one-Keeps.counts p seq (omega arith) in
    (at_head, sweep-IsBoosted ps low (boost_one p seq).1 (omega (arith, c)) (omega (arith, c)))
  where
    at_head : IsBoosted low (boost_one p seq).0
    at_head = unfold boost_one in ground arith

-- A boost gives every live process a full slice on queue 0, behind every arrival number handed out
-- before, if the sequence counter has room for the table.
pub mlfq_boost_all_lem :
    (k : Kernel)
    → k.mlfq_seq_counter + length k.procs < 2 ^ 64
    → All (IsBoosted k.mlfq_seq_counter) (mlfq_boost_all k).procs
unfolding mlfq_boost_all
mlfq_boost_all_lem k h = sweep-IsBoosted k.procs _ _ (omega arith) h

-- After the check fewer than 48 ticks separate the tick counter from the last boost.
pub mlfq_maybe_boost_window :
    (k : Kernel) → k.ticks < 2 ^ 32 → since_boost (mlfq_maybe_boost k) < 48
unfolding mlfq_maybe_boost mlfq_boost_all
mlfq_maybe_boost_window k h = ground arith

-- A second check at the same tick changes nothing: one boost per window.
pub mlfq_maybe_boost_idem :
    (k : Kernel) → k.ticks < 2 ^ 32 → mlfq_maybe_boost (mlfq_maybe_boost k) ≡ mlfq_maybe_boost k
mlfq_maybe_boost_idem k h = within_window (mlfq_maybe_boost k) (mlfq_maybe_boost_window k h)
  where
    within_window : (j : Kernel) → since_boost j < 48 → mlfq_maybe_boost j ≡ j
    within_window j w = unfold mlfq_maybe_boost in ground arith
