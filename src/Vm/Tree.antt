-- ===== src/Vm/Tree.antt =====
-- The address space that a page table stands for, and the invariant of its tables.
use unix_c_shell.Common.{
  ℕ, zero, suc, ◌+◌, ◌*◌, ◌%◌, ◌/◌, ◌<◌, ◌≡◌, inl, inr, refl, ◌∙◌, ap, true, false, Option, none,
  some, List, if◌then◌else◌, All, arith, Bool-cases,
}
use unix_c_shell.Kalloc.Pages.{Frees}
use unix_c_shell.Vm.{Vm, is_valid, pte2pa, px, vpn, walk_from}

-- The entry that a walk down from a table reads for a virtual address, if it is valid.
abbrev pub if_valid : ℕ → Option ℕ
if_valid e = if is_valid e then some e else none

unfoldable pub view : (level pagetable va : ℕ) → Vm → Option ℕ
unfolding px
view zero p va m = if_valid (m.pte p (px 0 va))
view (suc level) p va m =
    let e = m.pte p (px (suc level) va) in
    let down = view level (pte2pa e) va m in if is_valid e then down else none

-- The address space of a root table.
abbrev pub space : ℕ → Vm → ℕ → Option ℕ
space root m va = view 2 root va m

-- What each page is used as: a table of a level, for the addresses with a prefix.
abbrev pub Uses : Type 0
Uses = ℕ → Option (ℕ × ℕ)

-- The tables hang together as a tree: a valid entry of an upper table points to the table of the next
-- level for its prefix, and no free page is a table. So no table is shared.
pub record IsTree (end_addr root : ℕ) (uses : Uses) (m : Vm) (free : List ℕ) : Type 0 where
  pub frees : Frees end_addr m.kmem free
  pub unused : All (λ q. uses q ≡ none) free
  pub top : uses root ≡ some (2, 0)
  pub child :
      (p level pre i : ℕ)
      → uses p ≡ some (suc level, pre)
      → i < 512
      → is_valid (m.pte p i) ≡ true
      → uses (pte2pa (m.pte p i)) ≡ some (level, pre * 512 + i)

pub px-lt : (level va : ℕ) → px level va < 512
unfolding px
px-lt level va = omega arith

-- The prefix of a level, with the index, is the prefix of the next.
pub vpn-step : (level va : ℕ) → vpn (suc level) va * 512 + px level va ≡ vpn level va
unfolding px vpn
vpn-step level va = omega arith

pub vpn-cong : (level va vb : ℕ) → vpn 0 va ≡ vpn 0 vb → vpn level va ≡ vpn level vb
unfolding vpn
vpn-cong zero va vb h = h
vpn-cong (suc level) va vb h = ap (λ (n : ℕ). n / 512) (vpn-cong level va vb h)

pub px-cong : (level va vb : ℕ) → vpn 0 va ≡ vpn 0 vb → px level va ≡ px level vb
unfolding px
px-cong level va vb h = ap (λ (n : ℕ). n % 512) (vpn-cong level va vb h)

-- Addresses of one page translate alike.
pub view-cong :
    (level p va vb : ℕ) (m : Vm) → vpn 0 va ≡ vpn 0 vb → view level p va m ≡ view level p vb m
unfolding view
view-cong zero p va vb m h = rw (px-cong 0 va vb h) refl
view-cong (suc level) p va vb m h =
    rw
      (
        px-cong (suc level) va vb h,
        view-cong level (pte2pa (m.pte p (px (suc level) vb))) va vb m h,
      )
      refl

module _ {end_addr root : ℕ} {uses : Uses} {m : Vm} {free : List ℕ}
    (t : IsTree end_addr root uses m free) where
  -- The table below a valid entry is the one for the longer prefix of the address.
  pub child_of :
      (level p va : ℕ)
      → uses p ≡ some (suc level, vpn (suc (suc level)) va)
      → is_valid (m.pte p (px (suc level) va)) ≡ true
      → uses (pte2pa (m.pte p (px (suc level) va))) ≡ some (level, vpn (suc level) va)
  child_of level p va h v =
      t.child p level _ _ h (px-lt (suc level) va) v
      ∙ ap (λ (n : ℕ). some (level, n)) (vpn-step (suc level) va)

  -- A walk that allocates nothing ends at an entry of a lowest table, the one for the address.
  pub walk_from-uses :
      (level p va q i : ℕ)
      → uses p ≡ some (level, vpn (suc level) va)
      → walk_from level p va false m ≡ (some (q, i), m)
      → (uses q ≡ some (0, vpn 1 va)) × (i ≡ px 0 va)
  unfolding walk_from
  walk_from-uses zero p va q i h e = ground arith
  walk_from-uses (suc level) p va q i h e =
      elim (Bool-cases (is_valid (m.pte p (px (suc level) va)))) [
        | inl v ↦ walk_from-uses level _ va q i (child_of level p va h v) (rw v at e)
        | inr v ↦ absurd (ground arith)
      ]

-- The same translations at every table in use.
abbrev pub Keeps : Uses → Vm → Vm → Type 0
Keeps uses m m' =
    (level p pre va : ℕ) → uses p ≡ some (level, pre) → view level p va m' ≡ view level p va m

-- What a table is used as stays so.
abbrev pub Extends : Uses → Uses → Type 0
Extends uses uses' = (p : ℕ) (u : ℕ × ℕ) → uses p ≡ some u → uses' p ≡ some u

-- Valid entries of the tables in use are left as they are.
abbrev pub Grows : Uses → Vm → Vm → Type 0
Grows uses m m' =
    (p i : ℕ) (u : ℕ × ℕ) → uses p ≡ some u → is_valid (m.pte p i) ≡ true → m'.pte p i ≡ m.pte p i
