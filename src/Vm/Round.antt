-- ===== src/Vm/Round.antt =====
-- One page of `uvmunmap` with `do_free`: its entry is cleared and its page is free.
use mathlib.Core.Option.{Option}
use unix_c_shell.Common.{
  ℕ, zero, suc, ◌+◌, ◌*◌, ◌<◌, ◌≤◌, ◌≡◌, ◌≢◌, ◌⊎◌, inl, inr, refl, sym, ◌∙◌, ap, true, false, none,
  some, List, [], ◌∷◌, ◌==◌, if◌then◌else◌, ◌&&◌, leb, ltb, All, arith, ==_ne, Bool-cases,
  Option-cases,
}
use unix_c_shell.Kalloc
use unix_c_shell.Kalloc.{Kmem, pgsize, pgroundup}
use unix_c_shell.Kalloc.Pages.{IsPage, kfree-Frees}
use unix_c_shell.Vm.{
  Vm, is_valid, px, pte2pa, maxva, vpn, walk_from, entry, set_pte, unmap_loop, free_page,
}
use unix_c_shell.Vm.Tree.{if_valid, space, view-cong, Uses, IsTree, walk_from-uses}
use unix_c_shell.Vm.Walk.{alloc-IsTree, view-kmem}
use unix_c_shell.Vm.Place.{dec_eq, set_pte-IsTree, set_pte-view_self, set_pte-view_ne}
use unix_c_shell.Vm.Placing.{vacant_of, root_uses, page_eq}
use unix_c_shell.Vm.Fault.{walk_look, view-entry}

abbrev pub Holds : ℕ → List ℕ → Type 0
Holds q [] = ⊥
Holds q (f ∷ free) = (q ≡ f) ⊎ Holds q free

-- The addresses of `n` pages from `page` on
abbrev pub InRange : (n page va : ℕ) → Type 0
InRange n page va = (va < maxva) × (page ≤ vpn 0 va) × (vpn 0 va < page + n)

-- Every page that the range maps is a page of memory, no table and not free, and none is mapped twice.
pub record IsBacked (end_addr root : ℕ) (uses : Uses) (m : Vm) (free : List ℕ) (n page : ℕ)
    : Type 0 where
  pub owned :
      (va e : ℕ)
      → InRange n page va
      → space root m va ≡ some e
      → IsPage end_addr (pte2pa e) × (uses (pte2pa e) ≡ none) × All (λ f. pte2pa e ≢ f) free
  pub apart :
      (va vb e e' : ℕ)
      → InRange n page va
      → InRange n page vb
      → vpn 0 va ≢ vpn 0 vb
      → space root m va ≡ some e
      → space root m vb ≡ some e'
      → pte2pa e ≢ pte2pa e'

abbrev pub without_range : (n page : ℕ) → (ℕ → Option ℕ) → ℕ → Option ℕ
without_range n page f va = if leb page (vpn 0 va) && ltb (vpn 0 va) (page + n) then none else f va

pub record Unmapped (end_addr root : ℕ) (uses : Uses) (m : Vm) (free : List ℕ) (n page : ℕ)
    (result : Option Vm) : Type 0 where
  pub state : Vm
  pub free' : List ℕ
  pub returns : result ≡ some state
  pub tree : IsTree end_addr root uses state free'
  pub unmaps : (va : ℕ) → va < maxva → space root state va ≡ without_range n page (space root m) va
  pub keeps : (q : ℕ) → Holds q free → Holds q free'
  pub frees : (va e : ℕ) → InRange n page va → space root m va ≡ some e → Holds (pte2pa e) free'

-- One page of the range is done: the state is that in which it is not mapped, its page free.
pub record Round (end_addr root : ℕ) (uses : Uses) (m : Vm) (free : List ℕ) (n page : ℕ)
    : Type 0 where
  pub after : Vm
  pub free1 : List ℕ
  pub goes_on :
      unmap_loop end_addr (suc n) root (page * pgsize) true m
      ≡ unmap_loop end_addr n root (page * pgsize + pgsize) true after
  pub tree : IsTree end_addr root uses after free1
  pub round :
      (va : ℕ)
      → va < maxva
      → space root after va ≡ (if vpn 0 va == page then none else space root m va)
  pub backed : IsBacked end_addr root uses after free1 n (page + 1)
  pub kept : (q : ℕ) → Holds q free → Holds q free1
  pub freed :
      (va e : ℕ) → va < maxva → vpn 0 va ≡ page → space root m va ≡ some e → Holds (pte2pa e) free1

-- A page that is not mapped is passed over.
skip_lem :
    (end_addr n root a : ℕ) (m : Vm)
    → a < maxva
    → space root m a ≡ none
    → unmap_loop end_addr (suc n) root a true m ≡ unmap_loop end_addr n root (a + pgsize) true m
unfolding unmap_loop
skip_lem end_addr n root a m lt h = elim (Option-cases (walk_from 2 root a false m).0) [
  | inl e ↦ rw (walk_look root a m lt, e, unmap_loop) refl
  | inr (s, e) ↦
      (let off =
          vacant_of (m.pte s.0 s.1) (
            sym (ap (λ (o : Option (ℕ × ℕ)). if_valid (entry m o)) e)
            ∙ view-entry 2 root a m
            ∙ h) in
        rw (walk_look root a m lt, e, unmap_loop) (rw off refl))
]

-- A page that is mapped is freed, and its entry cleared.
clear_lem :
    (end_addr n root a : ℕ) (m : Vm) (k : Kmem) (s : ℕ × ℕ)
    → a < maxva
    → walk_from 2 root a false m ≡ (some s, m)
    → is_valid (m.pte s.0 s.1) ≡ true
    → Kalloc.kfree end_addr (pte2pa (m.pte s.0 s.1)) m.kmem ≡ some k
    → unmap_loop end_addr (suc n) root a true m
      ≡ unmap_loop end_addr n root (a + pgsize) true (record (set_pte m s.0 s.1 0) { kmem = k })
unfolding unmap_loop set_pte free_page
clear_lem end_addr n root a m k s lt e v f =
    rw (walk_look root a m lt, e, unmap_loop) (rw (v, f) refl)

-- A walk that allocates nothing leaves the state.
walk_from-look : (level p va : ℕ) (m : Vm) → (walk_from level p va false m).1 ≡ m
unfolding walk_from
walk_from-look zero p va m = refl
walk_from-look (suc level) p va m = elim (Bool-cases (is_valid (m.pte p (px (suc level) va)))) [
  | inl v ↦ rw v (walk_from-look level _ va m)
  | inr v ↦ rw v refl
]

-- An address that translates has a slot.
slot_of :
    (root va x : ℕ) (m : Vm)
    → space root m va ≡ some x
    → (s : ℕ × ℕ) × (walk_from 2 root va false m ≡ (some s, m))
      × (m.pte s.0 s.1 ≡ x)
      × (is_valid (m.pte s.0 s.1) ≡ true)
slot_of root va x m h = elim (Option-cases (walk_from 2 root va false m).0) [
  | inl e ↦ absurd (
      not_some
        (sym (ap (λ (o : Option (ℕ × ℕ)). if_valid (entry m o)) e) ∙ view-entry 2 root va m ∙ h))
  | inr (s, e) ↦
      (let v =
          sym (ap (λ (o : Option (ℕ × ℕ)). if_valid (entry m o)) e) ∙ view-entry 2 root va m ∙ h in
        (s, pair e (walk_from-look 2 root va m), (valid_some _ x v).0, (valid_some _ x v).1))
]
  where
    not_some : if_valid 0 ≡ some x → ⊥
    not_some e = ground arith

    pair : {r : Option (ℕ × ℕ) × Vm} {o : Option (ℕ × ℕ)} → r.0 ≡ o → r.1 ≡ m → r ≡ (o, m)
    pair e f = λ i. (e i, f i)

    valid_some : (e x : ℕ) → if_valid e ≡ some x → (e ≡ x) × (is_valid e ≡ true)
    valid_some e x h = ground arith

==_iff_true : {a b : ℕ} → a ≡ b → (a == b) ≡ true
==_iff_true h = ground arith

some_inj : {x y : ℕ} → ◌≡◌ {A = Option ℕ} (some x) (some y) → x ≡ y
some_inj h = cc

clash : {x : ℕ} → ◌≡◌ {A = Option ℕ} (some x) none → ⊥
clash h = cc

module _ {end_addr root : ℕ} {uses : Uses} {m : Vm} {free : List ℕ} (pos : 0 < end_addr)
    (t : IsTree end_addr root uses m free) (n page : ℕ) (fits : (page + suc n) * pgsize ≤ maxva)
    (b : IsBacked end_addr root uses m free (suc n) page) where
  -- All addresses of the page translate as its first one does.
  like_first : (va : ℕ) → vpn 0 va ≡ page → space root m va ≡ space root m (page * pgsize)
  like_first va h = view-cong 2 root va (page * pgsize) m (h ∙ sym (page_eq page))

  in_first : InRange (suc n) page (page * pgsize)
  in_first = (omega arith, omega (arith, page_eq page), omega (arith, page_eq page))

  pub skip-Round : space root m (page * pgsize) ≡ none → Round end_addr root uses m free n page
  skip-Round h = record {
    after = m;
    free1 = free;
    goes_on = skip_lem end_addr n root (page * pgsize) m (omega arith) h;
    tree = t;
    round = λ va lt. elim (dec_eq (vpn 0 va) page) [
      | inl same ↦ rw (==_iff_true same) (like_first va same ∙ h)
      | inr other ↦ rw (==_ne _ _ other) refl
    ];
    backed = record {
      owned = λ va e r g. b.owned va e (r.0, omega arith, omega arith) g;
      apart = λ va vb e e' r r' d g g'.
          b.apart va vb e e' (r.0, omega arith, omega arith) (r'.0, omega arith, omega arith) d g
            g';
    };
    kept = λ q g. g;
    freed = λ va e lt same g. absurd (clash (sym g ∙ like_first va same ∙ h));
  }

  -- Once the entry of the page is cleared, and its page is free.
  clear_view :
      (s : ℕ × ℕ) (k : Kmem)
      → walk_from 2 root (page * pgsize) false m ≡ (some s, m)
      → (va : ℕ) → va < maxva
      → space root (record (set_pte m s.0 s.1 0) { kmem = k }) va
        ≡ (if vpn 0 va == page then none else space root m va)
  clear_view s k found va lt =
      let (low, index) =
        walk_from-uses t 2 root (page * pgsize) s.0 s.1 (root_uses t (page * pgsize) (omega arith))
          found in
      view-kmem 2 root va (set_pte m s.0 s.1 0) k ∙ elim (dec_eq (vpn 0 va) page) [
        | inl same ↦ rw (==_iff_true same) (
            set_pte-view_self t (page * pgsize) s.0 s.1 0 low index 2 root va
              (same ∙ sym (page_eq page)) (root_uses t (page * pgsize) (omega arith)) found)
        | inr other ↦ rw (==_ne _ _ other) (
            set_pte-view_ne t (page * pgsize) s.0 s.1 0 low index 2 root va
              (λ e. other (e ∙ page_eq page)) (root_uses t va lt))
      ]

  pub clear-Round :
      (x : ℕ) → space root m (page * pgsize) ≡ some x → Round end_addr root uses m free n page
  clear-Round x h =
      let (s, found, at, v) = slot_of root (page * pgsize) x m h in
      let (is_page, unused, fresh) = b.owned (page * pgsize) x in_first h in
      let (k, freed, f, _) =
        kfree-Frees end_addr (pte2pa x) m.kmem free pos t.frees is_page fresh in
      let low =
        walk_from-uses t 2 root (page * pgsize) s.0 s.1 (root_uses t (page * pgsize) (omega arith))
          found in
      let t1 = set_pte-IsTree t (page * pgsize) s.0 s.1 0 low.0 low.1 in
      let old : (va e : ℕ)
          → InRange n (page + 1) va
          → space root (record (set_pte m s.0 s.1 0) { kmem = k }) va ≡ some e
          → space root m va ≡ some e =
        λ va e r g. rw (clear_view s k found va r.0, ==_ne (vpn 0 va) page (omega arith)) at g in
      let wider : (va : ℕ) → InRange n (page + 1) va → InRange (suc n) page va =
        λ va r. (r.0, omega arith, omega arith) in
      record {
        after = record (set_pte m s.0 s.1 0) { kmem = k };
        free1 = pte2pa x ∷ free;
        goes_on =
            clear_lem end_addr n root (page * pgsize) m k s (omega arith) found v (rw at freed);
        tree = alloc-IsTree free (pte2pa x ∷ free) k t1 f (unused, t.unused);
        round = clear_view s k found;
        backed = record {
          owned = λ va e r g.
              (let o = b.owned va e (wider va r) (old va e r g) in
                (
                  o.0,
                  o.1,
                  (
                    b.apart va (page * pgsize) e x (wider va r) in_first
                        (λ d. absurd (omega (arith, d, page_eq page))) (old va e r g) h,
                    o.2,
                  ),
                ));
          apart = λ va vb e e' r r' d g g'.
              b.apart va vb e e' (wider va r) (wider vb r') d (old va e r g) (old vb e' r' g');
        };
        kept = λ q g. inr g;
        freed = λ va e lt same g. inl (ap pte2pa (some_inj (sym g ∙ like_first va same ∙ h)));
      }
