-- ===== src/Proc/Inv.antt =====
-- The scheduling invariant of the process table, and the loops that keep it.
use unix_c_shell.Common.{
  ℕ, zero, suc, some, get_elem?, ◌+◌, ◌^◌, ◌≤◌, ◌<◌, ◌≡◌, refl, ap, List, [], ◌∷◌, All, All-imp,
  length, arith,
}
use unix_c_shell.Proc.{Proc, Kernel, nproc, mlfq_levels, mlfq_slice, sweep}

-- The queue exists, the slice is not used up, and the arrival number was handed out before.
pub record Fits (seq : ℕ) (p : Proc) : Type 0 where
  pub queue : p.mlfq_priority < mlfq_levels
  pub slice : p.mlfq_ticks_used < mlfq_slice p.mlfq_priority
  pub arrived : p.mlfq_qtime < seq

pub record IsValid (k : Kernel) : Type 0 where
  pub size : length k.procs ≡ nproc
  pub started : 0 < k.mlfq_seq_counter
  pub fits : All (Fits k.mlfq_seq_counter) k.procs

pub Fits-mono : (s t : ℕ) (p : Proc) → s ≤ t → Fits s p → Fits t p
Fits-mono s t p h f = omega arith

pub All-Fits_mono : (s t : ℕ) (ps : List Proc) → s ≤ t → All (Fits s) ps → All (Fits t) ps
All-Fits_mono s t ps h = All-imp (Fits s) (Fits t) ps (λ p. Fits-mono s t p h)

-- A loop body keeps the invariant of the process at hand and hands out at most one number.
pub record Keeps (body : Proc → ℕ → Proc × ℕ) : Type 0 where
  pub fits :
      (p : Proc) (seq : ℕ) → seq + 1 < 2 ^ 64 → Fits seq p → Fits (body p seq).1 (body p seq).0
  pub counts :
      (p : Proc) (seq : ℕ) → seq + 1 < 2 ^ 64 → (seq ≤ (body p seq).1) × ((body p seq).1 ≤ seq + 1)

module _ (body : Proc → ℕ → Proc × ℕ) where
  pub length-sweep : (ps : List Proc) (seq : ℕ) → length (sweep body ps seq).0 ≡ length ps
  unfolding sweep
  length-sweep [] seq = refl
  length-sweep (p ∷ ps) seq = ap suc (length-sweep ps (body p seq).1)

  -- The loop leaves at each index what the body made of the process there.
  pub get_elem?-sweep :
      (ps : List Proc) (seq j : ℕ) (p : Proc)
      → get_elem? ps j ≡ some p
      → (s : ℕ) × (get_elem? (sweep body ps seq).0 j ≡ some (body p s).0)
  unfolding sweep
  get_elem?-sweep [] seq j p g = absurd (cc)
  get_elem?-sweep (q ∷ ps) seq zero p g =
      let e : q ≡ p = cc in (seq, ap (λ x. some (body x seq).0) e)
  get_elem?-sweep (q ∷ ps) seq (suc j) p g = get_elem?-sweep ps (body q seq).1 j p g

  pub get_elem?-sweep_inv :
      (ps : List Proc) (seq j : ℕ) (p' : Proc)
      → get_elem? (sweep body ps seq).0 j ≡ some p'
      → (s : ℕ) × (p : Proc) × (get_elem? ps j ≡ some p) × (p' ≡ (body p s).0)
  unfolding sweep
  get_elem?-sweep_inv [] seq j p' g = absurd (cc)
  get_elem?-sweep_inv (q ∷ ps) seq zero p' g = (seq, q, refl, cc)
  get_elem?-sweep_inv (q ∷ ps) seq (suc j) p' g = get_elem?-sweep_inv ps (body q seq).1 j p' g

  module _ (keeps : Keeps body) where
    pub sweep_counts :
        (ps : List Proc) (seq : ℕ)
        → seq + length ps < 2 ^ 64
        → (seq ≤ (sweep body ps seq).1) × ((sweep body ps seq).1 ≤ seq + length ps)
    unfolding sweep
    sweep_counts [] seq h = omega arith
    sweep_counts (p ∷ ps) seq h =
        let c = keeps.counts p seq (omega arith) in
        omega (arith, c, sweep_counts ps (body p seq).1 (omega (arith, c)))

    pub sweep-Fits :
        (ps : List Proc) (seq : ℕ)
        → seq + length ps < 2 ^ 64
        → All (Fits seq) ps
        → All (Fits (sweep body ps seq).1) (sweep body ps seq).0
    unfolding sweep
    sweep-Fits [] seq h f = tt
    sweep-Fits (p ∷ ps) seq h f =
        let c = keeps.counts p seq (omega arith) in
        let more : (body p seq).1 + length ps < 2 ^ 64 = omega (arith, c) in
        (
          Fits-mono (body p seq).1 _ (body p seq).0 (sweep_counts ps (body p seq).1 more).0
              (keeps.fits p seq (omega arith) f.0),
          sweep-Fits ps (body p seq).1 more (All-Fits_mono seq (body p seq).1 ps c.0 f.1),
        )

    -- A loop over the whole table keeps the invariant.
    pub sweep-IsValid :
        (k : Kernel)
        → IsValid k
        → k.mlfq_seq_counter + nproc < 2 ^ 64
        → let (procs', seq') = sweep body k.procs k.mlfq_seq_counter in
          IsValid (record k { procs = procs'; mlfq_seq_counter = seq' })
    sweep-IsValid k v h =
        let room : k.mlfq_seq_counter + length k.procs < 2 ^ 64 = omega arith in
        record {
          size = omega (arith, length-sweep k.procs k.mlfq_seq_counter);
          started = omega (arith, sweep_counts k.procs k.mlfq_seq_counter room);
          fits = sweep-Fits k.procs k.mlfq_seq_counter room v.fits;
        }
