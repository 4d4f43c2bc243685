-- ===== src/Vm/Walk.antt =====
-- `walk` with `alloc`: the tables that it makes change no translation.
use mathlib.Core.Path.{subst}
use unix_c_shell.Common.{
  ℕ, zero, suc, ◌+◌, ◌*◌, ◌≡◌, ◌≢◌, inl, inr, refl, sym, ◌∙◌, ap, true, false, Bool, Option, none,
  some, List, [], ◌∷◌, All, ==_ne, ==_refl, Bool-cases,
}
use unix_c_shell.Kalloc
use unix_c_shell.Kalloc.{Kmem, memset_page, pgsize}
use unix_c_shell.Kalloc.Pages.{Frees, kalloc-Frees, kalloc_empty}
use unix_c_shell.Vm.{Vm, is_valid, pte2pa, pa2pte, px, vpn, walk_from}
use unix_c_shell.Vm.Tree.{view, Uses, IsTree, px-lt, vpn-step, Keeps, Extends, Grows, child_of}
use unix_c_shell.Vm.Link.{
  linked, linked-pte_self, use_page, link_valid, link_addr, linked-Keeps, use_page-Extends,
  linked-IsTree, linked-Grows,
}

-- What a walk that may allocate leaves: the slot that it found, if any, and the state.
pub record Walked (end_addr root : ℕ) (uses : Uses) (m : Vm) (free : List ℕ) (level p va : ℕ)
    (r : Option (ℕ × ℕ) × Vm) : Type 0 where
  pub uses' : Uses
  pub free' : List ℕ
  pub tree : IsTree end_addr root uses' r.1 free'
  pub keeps : Keeps uses m r.1
  pub extends : Extends uses uses'
  pub grows : Grows uses m r.1
  pub found : (s : ℕ × ℕ) → r.0 ≡ some s → walk_from level p va false r.1 ≡ (some s, r.1)
  pub failed : r.0 ≡ none → free' ≡ []
  pub others : (q : ℕ) → All (λ f. q ≢ f) free → (uses' q ≡ uses q) × All (λ f. q ≢ f) free'

walk-down :
    (level p va : ℕ) (alloc : Bool) (m : Vm)
    → is_valid (m.pte p (px (suc level) va)) ≡ true
    → walk_from (suc level) p va alloc m
      ≡ walk_from level (pte2pa (m.pte p (px (suc level) va))) va alloc m
unfolding walk_from
walk-down level p va alloc m v = rw v refl

walk-full :
    (level p va : ℕ) (m : Vm) (k : Kmem)
    → is_valid (m.pte p (px (suc level) va)) ≡ false
    → Kalloc.kalloc m.kmem ≡ (0, k)
    → walk_from (suc level) p va true m ≡ (none, record m { kmem = k })
unfolding walk_from
walk-full level p va m k v e = rw (v, e) refl

walk-make :
    (level p va q : ℕ) (m : Vm) (k : Kmem)
    → is_valid (m.pte p (px (suc level) va)) ≡ false
    → Kalloc.kalloc m.kmem ≡ (q, k)
    → q ≢ 0
    → walk_from (suc level) p va true m
      ≡ walk_from level q va true (linked (record m { kmem = k }) p (px (suc level) va) q)
unfolding walk_from linked
walk-make level p va q m k v e h = rw (v, e, ==_ne q 0 h) refl

module _ {end_addr root : ℕ} {uses : Uses} {m : Vm} {free : List ℕ} where
  -- A walk from the table below a valid entry is one from the table that holds the entry.
  raise :
      (level p va pre : ℕ) (r : Option (ℕ × ℕ) × Vm)
      → uses p ≡ some (suc level, pre)
      → is_valid (m.pte p (px (suc level) va)) ≡ true
      → Walked end_addr root uses m free level (pte2pa (m.pte p (px (suc level) va))) va r
      → Walked end_addr root uses m free (suc level) p va r
  raise level p va pre r h v w =
      let e = w.grows p (px (suc level) va) _ h v in
      record {
        uses' = w.uses';
        free' = w.free';
        tree = w.tree;
        keeps = w.keeps;
        extends = w.extends;
        grows = w.grows;
        found = λ s g. walk-down level p va false r.1 (rw e v) ∙ rw e (w.found s g);
        failed = w.failed;
        others = w.others;
      }

  -- A walk after a step that keeps all that is in use.
  after :
      (uses1 : Uses) (m1 : Vm) (free1 : List ℕ) (level p va : ℕ) (r : Option (ℕ × ℕ) × Vm)
      → Keeps uses m m1
      → Extends uses uses1
      → Grows uses m m1
      → ((q : ℕ) → All (λ f. q ≢ f) free → (uses1 q ≡ uses q) × All (λ f. q ≢ f) free1)
      → Walked end_addr root uses1 m1 free1 level p va r
      → Walked end_addr root uses m free level p va r
  after uses1 m1 free1 level p va r keeps extends grows others w = record {
    uses' = w.uses';
    free' = w.free';
    tree = w.tree;
    keeps = λ l q pre vb h. w.keeps l q pre vb (extends q _ h) ∙ keeps l q pre vb h;
    extends = λ q u h. w.extends q u (extends q u h);
    grows = λ q i u h v. (let e = grows q i u h v in w.grows q i u (extends q u h) (rw e v) ∙ e);
    found = w.found;
    failed = w.failed;
    others = λ q h. (let (e, h1) = others q h in let (e2, h2) = w.others q h1 in (e2 ∙ e, h2));
  }

pub view-kmem :
    (level p va : ℕ) (m : Vm) (k : Kmem)
    → view level p va (record m { kmem = k }) ≡ view level p va m
unfolding view
view-kmem zero p va m k = refl
view-kmem (suc level) p va m k =
    rw (view-kmem level (pte2pa (m.pte p (px (suc level) va))) va m k) refl

-- The state after a `kalloc`.
pub alloc-IsTree :
    {end_addr root : ℕ} {uses : Uses} {m : Vm} (free free' : List ℕ) (k : Kmem)
    → IsTree end_addr root uses m free
    → Frees end_addr k free'
    → All (λ q. uses q ≡ none) free'
    → IsTree end_addr root uses (record m { kmem = k }) free'
alloc-IsTree free free' k t f u = record { frees = f; unused = u; top = t.top; child = t.child }

head_pos : (end_addr : ℕ) (k : Kmem) (q : ℕ) (free : List ℕ) → Frees end_addr k (q ∷ free) → q ≢ 0
head_pos end_addr k q free f = f.linked.1

-- The walk below a new table.
abbrev Below : (end_addr root level va : ℕ) → Type 0
Below end_addr root level va =
    (uses : Uses) (m : Vm) (free : List ℕ) (p : ℕ)
    → IsTree end_addr root uses m free
    → uses p ≡ some (level, vpn (suc level) va)
    → Walked end_addr root uses m free level p va (walk_from level p va true m)

-- Without a valid entry: there is no free page, or the first one becomes a table.
make_walk :
    (end_addr root : ℕ) (uses : Uses) (m : Vm) (free : List ℕ) (level p va : ℕ)
    → IsTree end_addr root uses m free
    → uses p ≡ some (suc level, vpn (suc (suc level)) va)
    → is_valid (m.pte p (px (suc level) va)) ≡ false
    → Below end_addr root level va
    → Walked end_addr root uses m free (suc level) p va (walk_from (suc level) p va true m)
make_walk end_addr root uses m [] level p va t h off below =
    rw (walk-full level p va m m.kmem off (kalloc_empty end_addr m.kmem t.frees)) record {
      uses' = uses;
      free' = [];
      tree = t;
      keeps = λ _ _ _ _ _. refl;
      extends = λ _ _ e. e;
      grows = λ _ _ _ _ _. refl;
      found = λ s e. absurd (cc);
      failed = λ _. refl;
      others = λ q h. (refl, h);
    }
make_walk end_addr root uses m (q ∷ free) level p va t h off below =
    let k = (Kalloc.kalloc m.kmem).1 in
    let (first, f, filled, fresh) = kalloc-Frees end_addr m.kmem q free t.frees in
    let e : Kalloc.kalloc m.kmem ≡ (q, k) = ap (λ (n : ℕ). (n, k)) first in
    let i = px (suc level) va in
    let got : Vm = record m { kmem = k } in
    let t1 = alloc-IsTree (q ∷ free) free k t f t.unused.1 in
    let lt = px-lt (suc level) va in
    let al = t.frees.pages.0.aligned in
    let t2 = linked-IsTree t1 level p _ i q h lt off t.unused.0 al f fresh in
    let label : some (level, vpn (suc (suc level)) va * 512 + i)
        ≡ some (level, vpn (suc level) va) =
      ap (λ (n : ℕ). some (level, n)) (vpn-step (suc level) va) in
    let w = below _ (linked got p i q) free q t2 (rw (==_refl q) label) in
    let m1 = linked got p i q in
    let uses1 = use_page uses q (level, vpn (suc (suc level)) va * 512 + i) in
    let at : m1.pte p i ≡ pa2pte q + 1 = linked-pte_self got p i q in
    let extends =
      use_page-Extends t1 level p _ i q h lt off t.unused.0 al
        (level, vpn (suc (suc level)) va * 512 + i) in
    let to : q ≡ pte2pa (m1.pte p i) = rw at (sym (link_addr q al)) in
    let r = walk_from level q va true m1 in
    let w' =
      raise level p va _ r (extends p _ h) (rw at (link_valid q))
        (subst (λ (n : ℕ). Walked end_addr root uses1 m1 free level n va r) to w) in
    rw (walk-make level p va q m k off e t.frees.linked.1) (
      after uses1 m1 free (suc level) p va r
        (λ l s pre vb hs.
          linked-Keeps t1 level p _ i q h lt off t.unused.0 al l s pre vb hs ∙ view-kmem l s vb m k)
        extends (linked-Grows t1 level p _ i q h lt off t.unused.0 al)
        (λ r hr. (rw (==_ne r q hr.0) refl, hr.1)) w')

-- A walk that may allocate keeps the tree and every translation; where it finds a slot, it is the one
-- that a walk finds afterwards, and where it finds none, the last free page is taken.
pub walk_from-Walked :
    (end_addr root : ℕ) (uses : Uses) (m : Vm) (free : List ℕ) (level p va : ℕ)
    → IsTree end_addr root uses m free
    → uses p ≡ some (level, vpn (suc level) va)
    → Walked end_addr root uses m free level p va (walk_from level p va true m)
walk_from-Walked end_addr root uses m free zero p va t h = record {
  uses' = uses;
  free' = free;
  tree = unfold walk_from in t;
  keeps = unfold walk_from in (λ _ _ _ _ _. refl);
  extends = λ _ _ e. e;
  grows = unfold walk_from in (λ _ _ _ _ _. refl);
  found = unfold walk_from in (λ s e. ap (λ (x : Option (ℕ × ℕ)). (x, m)) e);
  failed = unfold walk_from in (λ e. absurd (cc));
  others = λ q h. (refl, h);
}
walk_from-Walked end_addr root uses m free (suc level) p va t h =
    elim (Bool-cases (is_valid (m.pte p (px (suc level) va)))) [
      | inl v ↦
          (let w =
              walk_from-Walked end_addr root uses m free level _ va t (child_of t level p va h v) in
            rw (walk-down level p va true m v) (raise level p va _ _ h v w))
      | inr off ↦
          make_walk end_addr root uses m free level p va t h off
            λ uses1 m1 free1 q t1. walk_from-Walked end_addr root uses1 m1 free1 level q va t1
    ]
