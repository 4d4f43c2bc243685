-- ===== src/Spinlock/Holders.antt =====
-- The harts that hold the lock.
use unix_c_shell.Common.{
  ℕ, zero, suc, ◌+◌, ◌≤◌, ◌≡◌, ◌≢◌, refl, ap, ◌∙◌, Bool, true, false, Option, none, some, List, [],
  ◌∷◌, ==_ne, if◌then◌else◌, arith, ◌⊎◌, inl, inr, Bool-cases, get_elem?, set, get_elem?-set_ne,
}
use unix_c_shell.Spinlock.{Phase, Lock, is_cpu}

-- 1 for a hart between its atomic exchange and the last store of `release`.
abbrev pub weight : Phase → ℕ
weight Phase.outside = 0
weight Phase.spinning = 0
weight Phase.swapped = 1
weight Phase.inside = 1
weight Phase.leaving = 1

abbrev pub holders : List Phase → ℕ
holders [] = 0
holders (p ∷ ps) = weight p + holders ps

pub holders-set :
    (ps : List Phase) (i : ℕ) (p q : Phase)
    → get_elem? ps i ≡ some p
    → holders (set ps i q) + weight p ≡ holders ps + weight q
holders-set [] i p q g = cc
holders-set (x ∷ ps) zero p q g = let e : x ≡ p = cc in omega (arith, ap weight e)
holders-set (x ∷ ps) (suc i) p q g = omega (arith, holders-set ps i p q g)

weight_le : (ps : List Phase) (i : ℕ) (p : Phase) → get_elem? ps i ≡ some p → weight p ≤ holders ps
weight_le [] i p g = cc
weight_le (x ∷ ps) zero p g = let e : x ≡ p = cc in omega (arith, ap weight e)
weight_le (x ∷ ps) (suc i) p g = omega (arith, weight_le ps i p g)

weights_le :
    (ps : List Phase) (i j : ℕ) (p q : Phase)
    → get_elem? ps i ≡ some p
    → get_elem? ps j ≡ some q
    → i ≢ j
    → weight p + weight q ≤ holders ps
weights_le ps i j p q g h ne =
    let other =
      weight_le (set ps i Phase.outside) j q (get_elem?-set_ne ps i j Phase.outside ne ∙ h) in
    omega (arith, other, holders-set ps i p Phase.outside g)

-- `cpu` names hart `i` exactly if it is inside.
abbrev pub Names : Option ℕ → ℕ → Phase → Type 0
Names c i p = (p ≡ Phase.inside) × (c ≡ some i) ⊎ (p ≢ Phase.inside) × (c ≢ some i)

-- What every schedule keeps: the number of holders, and the names.
pub record IsSafe (l : Lock) : Type 0 where
  pub count : holders l.phases ≡ (if l.locked then 1 else 0)
  pub named : (i : ℕ) (p : Phase) → get_elem? l.phases i ≡ some p → Names l.cpu i p

set_cases :
    (ps : List Phase) (i j : ℕ) (q p : Phase)
    → get_elem? (set ps i q) j ≡ some p
    → (i ≡ j) × (p ≡ q) ⊎ (i ≢ j) × (get_elem? ps j ≡ some p)
set_cases [] i j q p g = cc
set_cases (x ∷ ps) zero zero q p g = inl (refl, cc)
set_cases (x ∷ ps) zero (suc j) q p g = inr (omega arith, g)
set_cases (x ∷ ps) (suc i) zero q p g = inr (omega arith, g)
set_cases (x ∷ ps) (suc i) (suc j) q p g = elim (set_cases ps i j q p g) [
  | inl (e, f) ↦ inl (ap suc e, f)
  | inr (ne, f) ↦ inr (omega arith, f)
]

pub named_set :
    (ps : List Phase) (i : ℕ) (q : Phase) (c' : Option ℕ)
    → Names c' i q
    → ((j : ℕ) (p : Phase) → get_elem? ps j ≡ some p → i ≢ j → Names c' j p)
    → (j : ℕ) (p : Phase) → get_elem? (set ps i q) j ≡ some p
    → Names c' j p
named_set ps i q c' here others j p g = elim (set_cases ps i j q p g) [
  | inl (e, f) ↦ rw (← e, f) here
  | inr (ne, f) ↦ others j p f ne
]

pub is_cpu_ne : (c : Option ℕ) (i : ℕ) → c ≢ some i → is_cpu c i ≡ false
is_cpu_ne none i ne = refl
is_cpu_ne (some j) i ne = ==_ne j i (λ e. ne (ap some e))

-- While hart `i` holds the lock no other hart is inside.
pub alone :
    (l : Lock) (i j : ℕ) (p q : Phase)
    → IsSafe l
    → get_elem? l.phases i ≡ some p
    → weight p ≡ 1
    → get_elem? l.phases j ≡ some q
    → i ≢ j
    → q ≢ Phase.inside
alone l i j p q s g w h ne e =
    let two = weights_le l.phases i j p q g h ne in
    let one : weight q ≡ 1 = ap weight e in
    let most : (if l.locked then 1 else 0) ≤ 1 = ground arith in
    absurd (omega (arith, s.count, most))

pub locked_by :
    (l : Lock) (i : ℕ) (p : Phase)
    → IsSafe l
    → get_elem? l.phases i ≡ some p
    → weight p ≡ 1
    → l.locked ≡ true
locked_by l i p s g w = elim (Bool-cases l.locked) [
  | inl e ↦ e
  | inr e ↦
      let zero_held : holders l.phases ≡ 0 = s.count ∙ ap (λ (b : Bool). if b then 1 else 0) e in
      absurd (omega (arith, weight_le l.phases i p g))
]

pub unnamed : (c : Option ℕ) (i : ℕ) (p : Phase) → Names c i p → p ≢ Phase.inside → c ≢ some i
unnamed c i p (inl (e, _)) ne = absurd (ne e)
unnamed c i p (inr (_, n)) ne = n
