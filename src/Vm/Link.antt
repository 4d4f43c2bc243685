-- ===== src/Vm/Link.antt =====
-- A new page-table page, linked into the tree: no translation changes.
use unix_c_shell.Common.{
  ℕ, zero, suc, ◌+◌, ◌*◌, ◌%◌, ◌<◌, ◌≡◌, ◌≢◌, ◌⊎◌, inl, inr, refl, sym, true, false, none, some,
  List, [], ◌∷◌, ◌==◌, if◌then◌else◌, All, arith, ==_ne, ==_refl, Bool-cases,
}
use unix_c_shell.Kalloc.{Kmem, memset_page, pgsize}
use unix_c_shell.Kalloc.Pages.{Frees, Chain-update}
use unix_c_shell.Vm.{Vm, is_valid, pte2pa, pa2pte, px, set_pte, clear_page}
use unix_c_shell.Vm.Tree.{view, Uses, IsTree, px-lt, Keeps, Extends, Grows}

-- A cleared page translates nothing.
view_clear : (level p va : ℕ) (m : Vm) → ((j : ℕ) → m.pte p j ≡ 0) → view level p va m ≡ none
unfolding view
view_clear zero p va m h = rw (h (px 0 va)) refl
view_clear (suc level) p va m h = rw (h (px (suc level) va)) refl

-- The state in which a page `q` is a new table, under the entry `i` of `p`.
unfoldable pub linked : Vm → ℕ → ℕ → ℕ → Vm
linked m p i q = set_pte (clear_page m q) p i (pa2pte q + 1)

pub linked-pte_self : (m : Vm) (p i q : ℕ) → (linked m p i q).pte p i ≡ pa2pte q + 1
unfolding linked set_pte
linked-pte_self m p i q = rw (==_refl, ==_refl) refl

linked-pte_new : (m : Vm) (p i q j : ℕ) → p ≢ q → (linked m p i q).pte q j ≡ 0
unfolding linked set_pte
linked-pte_new m p i q j h = rw (==_ne q p (λ e. h (sym e)), ==_refl) refl

linked-pte_old :
    (m : Vm) (p i q r j : ℕ) → r ≢ q → (r ≢ p) ⊎ (j ≢ i) → (linked m p i q).pte r j ≡ m.pte r j
unfolding linked set_pte
linked-pte_old m p i q r j h k = ground arith

abbrev pub use_page : Uses → ℕ → ℕ × ℕ → Uses
use_page uses q u p = if p == q then some u else uses p

pub link_valid : (q : ℕ) → is_valid (pa2pte q + 1) ≡ true
link_valid q = ground arith

pub link_addr : (q : ℕ) → q % pgsize ≡ 0 → pte2pa (pa2pte q + 1) ≡ q
link_addr q h = omega arith

-- Clearing a page that is not on the free list.
pub memset_page-Frees :
    (end_addr q c : ℕ) (k : Kmem) (free : List ℕ)
    → Frees end_addr k free
    → All (λ r. q ≢ r) free
    → Frees end_addr (memset_page q c k) free
memset_page-Frees end_addr q c k free f fresh = record {
  linked = Chain-update k.word k.freelist q _ free fresh f.linked;
  apart = f.apart;
  pages = f.pages;
}

use_page-ne :
    (uses : Uses) (q : ℕ) (u : ℕ × ℕ) (free : List ℕ)
    → All (λ r. q ≢ r) free
    → All (λ r. uses r ≡ none) free
    → All (λ r. use_page uses q u r ≡ none) free
use_page-ne uses q u [] f h = tt
use_page-ne uses q u (r ∷ free) f h =
    (rw (==_ne r q (λ e. f.0 (sym e))) h.0, use_page-ne uses q u free f.1 h.1)

module _ {end_addr root : ℕ} {uses : Uses} {m : Vm} {free : List ℕ}
    (t : IsTree end_addr root uses m free) (level p pre i q : ℕ)
    (used : uses p ≡ some (suc level, pre)) (index : i < 512) (off : is_valid (m.pte p i) ≡ false)
    (unused : uses q ≡ none) (aligned : q % pgsize ≡ 0) where
  place_cases : (r j : ℕ) → ((r ≡ p) × (j ≡ i)) ⊎ ((r ≢ p) ⊎ (j ≢ i))
  place_cases r j = ground arith

  p_ne_q : p ≢ q
  p_ne_q e = let h : uses q ≡ some (suc level, pre) = rw e at used in cc

  pub linked-Keeps : Keeps uses m (linked m p i q)
  unfolding view
  linked-Keeps zero r pre' va h =
      let ne_q : r ≢ q = λ e. (let g : uses q ≡ some (zero, pre') = rw e at h in cc) in
      let ne_p : r ≢ p = λ e. (let g : uses p ≡ some (zero, pre') = rw e at h in ground arith) in
      rw (linked-pte_old m p i q r (px 0 va) ne_q (inl ne_p)) refl
  linked-Keeps (suc l) r pre' va h =
      let ne_q : r ≢ q = λ e. (let g : uses q ≡ some (suc l, pre') = rw e at h in cc) in
      let j = px (suc l) va in
      elim (place_cases r j) [
        | inl (er, ej) ↦
            (rw (er, ej, linked-pte_self m p i q, link_valid q, link_addr q aligned, off)
              (view_clear l q va (linked m p i q) (λ k. linked-pte_new m p i q k p_ne_q)))
        | inr other ↦
            rw (linked-pte_old m p i q r j ne_q other) (elim (Bool-cases (is_valid (m.pte r j))) [
              | inl v ↦ rw v (
                  linked-Keeps l (pte2pa (m.pte r j)) _ va
                    (t.child r l pre' j h (px-lt (suc l) va) v))
              | inr v ↦ rw v refl
            ])
      ]

  pub use_page-Extends : (u : ℕ × ℕ) → Extends uses (use_page uses q u)
  use_page-Extends u r v h =
      let ne_q : r ≢ q = λ e. (let g : uses q ≡ some v = rw e at h in cc) in rw (==_ne r q ne_q) h

  linked-child :
      (r l pre' j : ℕ)
      → use_page uses q (level, pre * 512 + i) r ≡ some (suc l, pre')
      → j < 512
      → is_valid ((linked m p i q).pte r j) ≡ true
      → use_page uses q (level, pre * 512 + i) (pte2pa ((linked m p i q).pte r j))
        ≡ some (l, pre' * 512 + j)
  linked-child r l pre' j h jlt v = elim (decide r) [
    | inl er ↦
        (let g : is_valid ((linked m p i q).pte q j) ≡ true = rw er at v in
          let z = linked-pte_new m p i q j p_ne_q in absurd (ground arith))
    | inr ne_q ↦ elim (place_cases r j) [
      | inl (er, ej) ↦
          (let g : uses r ≡ some (suc l, pre') = rw (==_ne r q ne_q) at h in
            let g' : uses p ≡ some (suc l, pre') = rw er at g in
            let el : level ≡ l = ground arith in
            let epre : pre ≡ pre' = ground arith in
            rw (er, ej, linked-pte_self m p i q, link_addr q aligned, ==_refl q)
              (rw (el, epre) refl))
      | inr other ↦
          (let g : uses r ≡ some (suc l, pre') = rw (==_ne r q ne_q) at h in
            let old = linked-pte_old m p i q r j ne_q other in
            rw old (
              use_page-Extends (level, pre * 512 + i) _ _ (t.child r l pre' j g jlt (rw old at v))))
    ]
  ]
    where
      decide : (r : ℕ) → (r ≡ q) ⊎ (r ≢ q)
      decide r = ground arith

  pub linked-IsTree :
      Frees end_addr m.kmem free
      → All (λ r. q ≢ r) free
      → IsTree end_addr root (use_page uses q (level, pre * 512 + i)) (linked m p i q) free
  unfolding linked set_pte
  linked-IsTree f fresh = record {
    frees = memset_page-Frees end_addr q 0 m.kmem free f fresh;
    unused = use_page-ne uses q _ free fresh t.unused;
    top = use_page-Extends (level, pre * 512 + i) root (2, 0) t.top;
    child = unfold linked in linked-child;
  }

  pub linked-Grows : Grows uses m (linked m p i q)
  linked-Grows r j u h v =
      let ne_q : r ≢ q = λ e. (let g : uses q ≡ some u = rw e at h in cc) in
      elim (place_cases r j) [
        | inl (er, ej) ↦ (let g : is_valid (m.pte p i) ≡ true = rw (er, ej) at v in absurd (cc))
        | inr other ↦ linked-pte_old m p i q r j ne_q other
      ]
