-- ===== src/Spinlock/Exclusion.antt =====
-- Mutual exclusion, for every schedule.
use unix_c_shell.Common.{
  ℕ, zero, suc, ◌≡◌, refl, ap, ◌∙◌, Bool, true, false, Option, none, some, List, [], ◌∷◌, ==_refl,
  if◌then◌else◌, arith, inl, inr, Bool-cases, Option-cases, get_elem?, set,
}
use unix_c_shell.Spinlock.{Phase, Lock, holding, step_at, step, run}
use unix_c_shell.Spinlock.Holders.{
  holders, IsSafe, holders-set, named_set, is_cpu_ne, alone, locked_by, unnamed,
}

abbrev Safely : Option Lock → Type 0
Safely o = (k : Lock) × (o ≡ some k) × IsSafe k

step_outside :
    (l : Lock) (i : ℕ)
    → get_elem? l.phases i ≡ some Phase.outside
    → IsSafe l
    → Safely (step_at i Phase.outside l)
unfolding step_at holding
step_outside l i g s =
    let n = unnamed l.cpu i Phase.outside (s.named i Phase.outside g) (λ e. cc) in
    let free : holding i l ≡ false = elim (Bool-cases l.locked) [
      | inl e ↦ rw (e, is_cpu_ne l.cpu i n)
      | inr e ↦ rw e
    ] in
    (
      record l { phases = set l.phases i Phase.spinning },
      rw free,
      record {
        count = omega (arith, s.count, holders-set l.phases i Phase.outside Phase.spinning g);
        named =
            named_set l.phases i Phase.spinning l.cpu (inr ((λ e. cc), n))
              (λ j p h ne. s.named j p h);
      },
    )

step_spinning :
    (l : Lock) (i : ℕ)
    → get_elem? l.phases i ≡ some Phase.spinning
    → IsSafe l
    → Safely (step_at i Phase.spinning l)
unfolding step_at
step_spinning l i g s = elim (Bool-cases l.locked) [
  | inl e ↦ (l, rw e, s)
  | inr e ↦
      let n = unnamed l.cpu i Phase.spinning (s.named i Phase.spinning g) (λ e. cc) in
      let none_held : holders l.phases ≡ 0 = s.count ∙ ap (λ (b : Bool). if b then 1 else 0) e in
      (
        record l { locked = true; phases = set l.phases i Phase.swapped },
        rw e,
        record {
          count = omega (arith, holders-set l.phases i Phase.spinning Phase.swapped g);
          named =
              named_set l.phases i Phase.swapped l.cpu (inr ((λ e. cc), n))
                (λ j p h ne. s.named j p h);
        },
      )
]

step_swapped :
    (l : Lock) (i : ℕ)
    → get_elem? l.phases i ≡ some Phase.swapped
    → IsSafe l
    → Safely (step_at i Phase.swapped l)
unfolding step_at
step_swapped l i g s = (
  record l { cpu = some i; phases = set l.phases i Phase.inside },
  refl,
  record {
    count = omega (arith, s.count, holders-set l.phases i Phase.swapped Phase.inside g);
    named =
        named_set l.phases i Phase.inside (some i) (inl (refl, refl))
          (λ j p h ne. inr (alone l i j Phase.swapped p s g refl h ne, λ e. ne (cc)));
  },
)

step_inside :
    (l : Lock) (i : ℕ)
    → get_elem? l.phases i ≡ some Phase.inside
    → IsSafe l
    → Safely (step_at i Phase.inside l)
unfolding step_at holding
step_inside l i g s =
    let locked = locked_by l i Phase.inside s g refl in
    let mine : l.cpu ≡ some i = elim (s.named i Phase.inside g) [
      | inl (_, e) ↦ e
      | inr (ne, _) ↦ absurd (ne refl)
    ] in
    (
      record l { cpu = none; phases = set l.phases i Phase.leaving },
      rw (locked, mine, ==_refl),
      record {
        count = omega (arith, s.count, holders-set l.phases i Phase.inside Phase.leaving g);
        named =
            named_set l.phases i Phase.leaving none (inr ((λ e. cc), (λ e. cc)))
              (λ j p h ne. inr (alone l i j Phase.inside p s g refl h ne, λ e. cc));
      },
    )

step_leaving :
    (l : Lock) (i : ℕ)
    → get_elem? l.phases i ≡ some Phase.leaving
    → IsSafe l
    → Safely (step_at i Phase.leaving l)
unfolding step_at
step_leaving l i g s =
    let n = unnamed l.cpu i Phase.leaving (s.named i Phase.leaving g) (λ e. cc) in
    let held : holders l.phases ≡ 1 =
      s.count ∙ ap (λ (b : Bool). if b then 1 else 0) (locked_by l i Phase.leaving s g refl) in
    (
      record l { locked = false; phases = set l.phases i Phase.outside },
      refl,
      record {
        count = omega (arith, holders-set l.phases i Phase.leaving Phase.outside g);
        named =
            named_set l.phases i Phase.outside l.cpu (inr ((λ e. cc), n))
              (λ j p h ne. s.named j p h);
      },
    )

step-Safely :
    (l : Lock) (i : ℕ) (p : Phase)
    → get_elem? l.phases i ≡ some p
    → IsSafe l
    → Safely (step_at i p l)
step-Safely l i Phase.outside g s = step_outside l i g s
step-Safely l i Phase.spinning g s = step_spinning l i g s
step-Safely l i Phase.swapped g s = step_swapped l i g s
step-Safely l i Phase.inside g s = step_inside l i g s
step-Safely l i Phase.leaving g s = step_leaving l i g s

run-Safely : (is : List ℕ) (l : Lock) → IsSafe l → Safely (run is l)
unfolding run step
run-Safely [] l s = (l, refl, s)
run-Safely (i ∷ is) l s = elim (Option-cases (get_elem? l.phases i)) [
  | inl e ↦ rw (e, run) (run-Safely is l s)
  | inr (p, e) ↦ let (k, a, t) = step-Safely l i p e s in rw (e, a, run) (run-Safely is k t)
]

abbrev all_outside : ℕ → List Phase
all_outside zero = []
all_outside (suc n) = Phase.outside ∷ all_outside n

abbrev pub fresh : ℕ → Lock
fresh n = record { locked = false; cpu = none; phases = all_outside n }

holders-all_outside : (n : ℕ) → holders (all_outside n) ≡ 0
holders-all_outside zero = refl
holders-all_outside (suc n) = omega (arith, holders-all_outside n)

outside_at : (n i : ℕ) (p : Phase) → get_elem? (all_outside n) i ≡ some p → p ≡ Phase.outside
outside_at zero i p g = cc
outside_at (suc n) zero p g = cc
outside_at (suc n) (suc i) p g = outside_at n i p g

-- However the steps of `n` harts on a new lock interleave, neither `acquire` nor `release` panics, and
-- the lock is held, from the atomic exchange to the last store, by one hart where `locked` is set and
-- by none where it is not.
pub run_exclusive :
    (n : ℕ) (schedule : List ℕ)
    → (l : Lock) × (run schedule (fresh n) ≡ some l)
      × (holders l.phases ≡ (if l.locked then 1 else 0))
run_exclusive n schedule =
    let (l, e, s) = run-Safely schedule (fresh n) (record {
      count = holders-all_outside n;
      named = λ i p g. inr ((λ e. let o = outside_at n i p g in cc), (λ e. cc));
    }) in
    (l, e, s.count)
