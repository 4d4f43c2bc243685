-- ===== src/Vm/Place.antt =====
-- One page mapped: the write to the slot that a walk finds.
use unix_c_shell.Common.{
  ℕ, zero, suc, ◌≡◌, ◌≢◌, ◌⊎◌, inl, inr, refl, ◌∙◌, false, some, List, arith, ==_ne, ==_refl,
  Bool-cases,
}
use unix_c_shell.Vm.{Vm, is_valid, px, vpn, walk_from, set_pte}
use unix_c_shell.Vm.Tree.{if_valid, view, Uses, IsTree, px-cong, vpn-step, child_of}

-- The entry of the slot that a walk finds is what the address translates to.
pub view-slot :
    (level p va q i : ℕ) (m : Vm)
    → walk_from level p va false m ≡ (some (q, i), m)
    → view level p va m ≡ if_valid (m.pte q i)
unfolding view walk_from
view-slot zero p va q i m h =
    let eq : p ≡ q = ground arith in let ei : px 0 va ≡ i = ground arith in rw (eq, ei) refl
view-slot (suc level) p va q i m h = elim (Bool-cases (is_valid (m.pte p (px (suc level) va)))) [
  | inl v ↦ rw v (view-slot level _ va q i m (rw v at h))
  | inr v ↦ absurd (ground arith)
]

pub dec_eq : (a b : ℕ) → (a ≡ b) ⊎ (a ≢ b)
dec_eq a b = ground arith

set_pte_ne : (m : Vm) (q i e p j : ℕ) → (p ≢ q) ⊎ (j ≢ i) → (set_pte m q i e).pte p j ≡ m.pte p j
unfolding set_pte
set_pte_ne m q i e p j h = ground arith

-- Pages with the same prefix and the same index are the same.
vpn_join : (va vb : ℕ) → vpn 1 vb ≡ vpn 1 va → px 0 vb ≡ px 0 va → vpn 0 vb ≡ vpn 0 va
vpn_join va vb h k = omega (arith, vpn-step 0 va, vpn-step 0 vb)

module _ {end_addr root : ℕ} {uses : Uses} {m : Vm} {free : List ℕ}
    (t : IsTree end_addr root uses m free) (va q i e : ℕ) (low : uses q ≡ some (0, vpn 1 va))
    (index : i ≡ px 0 va) where
  set_pte_upper :
      (level p pre j : ℕ) → uses p ≡ some (suc level, pre) → (set_pte m q i e).pte p j ≡ m.pte p j
  unfolding set_pte
  set_pte_upper level p pre j h =
      let ne : p ≢ q =
        λ eq. (let g : uses q ≡ some (suc level, pre) = rw eq at h in ground arith) in
      rw (==_ne p q ne) refl

  pub set_pte-IsTree : IsTree end_addr root uses (set_pte m q i e) free
  set_pte-IsTree = record {
    frees = unfold set_pte in t.frees;
    unused = t.unused;
    top = t.top;
    child = λ p level pre j h lt v.
        (let same = set_pte_upper level p pre j h in
          rw same (t.child p level pre j h lt (rw same at v)));
  }

  -- The address of the slot now translates to the new entry.
  pub set_pte-view_self :
      (level p vb : ℕ)
      → vpn 0 vb ≡ vpn 0 va
      → uses p ≡ some (level, vpn (suc level) va)
      → walk_from level p va false m ≡ (some (q, i), m)
      → view level p vb (set_pte m q i e) ≡ if_valid e
  unfolding view walk_from
  set_pte-view_self zero p vb same h w =
      let eq : p ≡ q = ground arith in
      rw (eq, px-cong 0 vb va same, index)
        (unfold set_pte in (rw (==_refl q, ==_refl (px 0 va)) refl))
  set_pte-view_self (suc level) p vb same h w =
      let ej = px-cong (suc level) vb va same in
      elim (Bool-cases (is_valid (m.pte p (px (suc level) va)))) [
        | inl v ↦
            (rw (set_pte_upper level p _ (px (suc level) vb) h, ej, v)
              (set_pte-view_self level _ vb same (child_of t level p va h v) (rw v at w)))
        | inr v ↦ absurd (ground arith)
      ]

  -- Every other address translates as before.
  pub set_pte-view_ne :
      (level p vb : ℕ)
      → vpn 0 vb ≢ vpn 0 va
      → uses p ≡ some (level, vpn (suc level) vb)
      → view level p vb (set_pte m q i e) ≡ view level p vb m
  unfolding view
  set_pte-view_ne zero p vb other h = rw (set_pte_ne m q i e p (px 0 vb) apart) refl
    where
      apart : (p ≢ q) ⊎ (px 0 vb ≢ i)
      apart = elim (dec_eq p q) [
        | inr ne ↦ inl ne
        | inl eq ↦
            (let g : uses q ≡ some (0, vpn 1 vb) = rw eq at h in
              let same : vpn 1 vb ≡ vpn 1 va = ground arith in
              inr (λ ej. other (vpn_join va vb same (ej ∙ index))))
      ]
  set_pte-view_ne (suc level) p vb other h =
      let j = px (suc level) vb in
      rw (set_pte_upper level p _ j h) (elim (Bool-cases (is_valid (m.pte p j))) [
        | inl v ↦ rw v (set_pte-view_ne level _ vb other (child_of t level p vb h v))
        | inr v ↦ rw v refl
      ])
