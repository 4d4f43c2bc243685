-- ===== src/Vm/Placing.antt =====
-- A round of `mappages`: the page at an address is placed, or memory has run out.
use unix_c_shell.Common.{
  ℕ, suc, ◌+◌, ◌-◌, ◌*◌, ◌<◌, ◌≤◌, ◌≡◌, ◌≢◌, ◌⊎◌, inl, inr, refl, sym, ◌∙◌, ap, true, false, Bool,
  Option, none, some, List, [], ◌==◌, if◌then◌else◌, ◌&&◌, leb, ltb, All, arith, ==_ne, ==_refl,
  Option-cases,
}
use unix_c_shell.Kalloc.{pgsize}
use unix_c_shell.Vm.{Vm, is_valid, leaf, maxva, vpn, walk_from, walk, set_pte, map_loop}
use unix_c_shell.Vm.Tree.{if_valid, view, space, Uses, IsTree, walk_from-uses}
use unix_c_shell.Vm.Walk.{walk_from-Walked}
use unix_c_shell.Vm.Place.{view-slot, dec_eq, set_pte-IsTree, set_pte-view_self, set_pte-view_ne}

-- `n` pages from `page` on map to the physical pages from `pa` on, and the others as before.
abbrev pub with_range : (n page pa perm : ℕ) → (ℕ → Option ℕ) → ℕ → Option ℕ
with_range n page pa perm space va =
    if leb page (vpn 0 va) && ltb (vpn 0 va) (page + n)
    then some (leaf (pa + (vpn 0 va - page) * pgsize) perm)
    else space va

-- What `mappages` leaves: `count` pages are mapped, all of them if it succeeds; else memory ran out.
pub record Mapped (end_addr root : ℕ) (uses0 : Uses) (m : Vm) (free0 : List ℕ) (n page pa perm : ℕ)
    (result : Option (Bool × Vm)) : Type 0 where
  pub ok : Bool
  pub state : Vm
  pub count : ℕ
  pub uses : Uses
  pub free : List ℕ
  pub returns : result ≡ some (ok, state)
  pub tree : IsTree end_addr root uses state free
  pub maps :
      (va : ℕ) → va < maxva → view 2 root va state ≡ with_range count page pa perm (space root m) va
  pub complete : ok ≡ true → count ≡ n
  pub short : ok ≡ false → (count < n) × (free ≡ [])
  pub others : (q : ℕ) → All (λ f. q ≢ f) free0 → (uses q ≡ uses0 q) × All (λ f. q ≢ f) free

pub root_uses :
    {end_addr root : ℕ} {uses : Uses} {m : Vm} {free : List ℕ}
    → IsTree end_addr root uses m free
    → (va : ℕ) → va < maxva
    → uses root ≡ some (2, vpn 3 va)
unfolding vpn
root_uses t va h = let z : 0 ≡ vpn 3 va = omega arith in t.top ∙ ap (λ (n : ℕ). some (2, n)) z

walk_lem :
    (root a : ℕ) (m : Vm) (r : Option (ℕ × ℕ)) (m' : Vm)
    → a < maxva
    → walk_from 2 root a true m ≡ (r, m')
    → walk root a true m ≡ some (r, m')
unfolding walk
walk_lem root a m r m' h e = let f : leb maxva a ≡ false = ground arith in rw (f, e) refl

pub vacant_of : (e : ℕ) → if_valid e ≡ none → is_valid e ≡ false
vacant_of e h = ground arith

-- One round of the loop, at an address that is not mapped.
pub record Placed (end_addr root a e : ℕ) (uses0 : Uses) (m : Vm) (free0 : List ℕ) : Type 0 where
  pub slot : ℕ × ℕ
  pub before : Vm
  pub uses : Uses
  pub free : List ℕ
  pub walked : walk root a true m ≡ some (some slot, before)
  pub vacant : is_valid (before.pte slot.0 slot.1) ≡ false
  pub tree : IsTree end_addr root uses (set_pte before slot.0 slot.1 e) free
  pub places :
      (va : ℕ)
      → va < maxva
      → view 2 root va (set_pte before slot.0 slot.1 e)
        ≡ (if vpn 0 va == vpn 0 a then if_valid e else view 2 root va m)
  pub others : (q : ℕ) → All (λ f. q ≢ f) free0 → (uses q ≡ uses0 q) × All (λ f. q ≢ f) free

pub record Starved (end_addr root a : ℕ) (uses0 : Uses) (m : Vm) (free0 : List ℕ) : Type 0 where
  pub before : Vm
  pub uses : Uses
  pub walked : walk root a true m ≡ some (none, before)
  pub tree : IsTree end_addr root uses before []
  pub same : (va : ℕ) → va < maxva → view 2 root va before ≡ view 2 root va m
  pub others : (q : ℕ) → All (λ f. q ≢ f) free0 → (uses q ≡ uses0 q)

pub place :
    (end_addr root a e : ℕ) {uses : Uses} {m : Vm} {free : List ℕ}
    → IsTree end_addr root uses m free
    → a < maxva
    → view 2 root a m ≡ none
    → Placed end_addr root a e uses m free ⊎ Starved end_addr root a uses m free
place end_addr root a e {uses} {m} {free} t lt un =
    let r = walk_from 2 root a true m in
    let w = walk_from-Walked end_addr root uses m free 2 root a t (root_uses t a lt) in
    elim (Option-cases r.0) [
      | inl none_left ↦ inr record {
        before = r.1;
        uses = w.uses';
        walked = walk_lem root a m none r.1 lt (ap (λ (x : Option (ℕ × ℕ)). (x, r.1)) none_left);
        tree = rw (w.failed none_left) at w.tree;
        same = λ va h. w.keeps 2 root _ va t.top;
        others = λ q h. (w.others q h).0;
      }
      | inr (s, e1) ↦ inl (
          let found = w.found s e1 in
          let at = walk_from-uses w.tree 2 root a s.0 s.1 (root_uses w.tree a lt) found in
          record {
            slot = s;
            before = r.1;
            uses = w.uses';
            free = w.free';
            walked = walk_lem root a m (some s) r.1 lt (ap (λ (x : Option (ℕ × ℕ)). (x, r.1)) e1);
            vacant =
                vacant_of _
                  (sym (view-slot 2 root a s.0 s.1 r.1 found) ∙ w.keeps 2 root _ a t.top ∙ un);
            tree = set_pte-IsTree w.tree a s.0 s.1 e at.0 at.1;
            places = λ va h. elim (dec_eq (vpn 0 va) (vpn 0 a)) [
              | inl same ↦
                  rw (same, ==_refl (vpn 0 a))
                    (set_pte-view_self w.tree a s.0 s.1 e at.0 at.1 2 root va same
                      (root_uses w.tree a lt) found)
              | inr other ↦ rw (==_ne _ _ other) (
                  set_pte-view_ne w.tree a s.0 s.1 e at.0 at.1 2 root va other
                    (root_uses w.tree va h)
                  ∙ w.keeps 2 root _ va t.top)
            ];
            others = w.others;
          })
    ]

pub step_full :
    (k root a last pa perm : ℕ) (m before : Vm)
    → walk root a true m ≡ some (none, before)
    → map_loop (suc k) root a last pa perm m ≡ some (false, before)
unfolding map_loop
step_full k root a last pa perm m before h = rw (h, map_loop) refl

pub step_last :
    (k root a pa perm : ℕ) (m before : Vm) (s : ℕ × ℕ)
    → walk root a true m ≡ some (some s, before)
    → is_valid (before.pte s.0 s.1) ≡ false
    → map_loop (suc k) root a a pa perm m ≡ some (true, set_pte before s.0 s.1 (leaf pa perm))
unfolding map_loop
step_last k root a pa perm m before s h v = rw (h, map_loop) (rw (v, ==_refl a) refl)

pub step_more :
    (k root a last pa perm : ℕ) (m before : Vm) (s : ℕ × ℕ)
    → walk root a true m ≡ some (some s, before)
    → is_valid (before.pte s.0 s.1) ≡ false
    → a ≢ last
    → map_loop (suc k) root a last pa perm m
      ≡ map_loop k root (a + pgsize) last (pa + pgsize) perm (set_pte before s.0 s.1 (leaf pa perm))
unfolding map_loop
step_more k root a last pa perm m before s h v ne = rw (h, map_loop) (rw (v, ==_ne a last ne) refl)

pub leaf_valid : (pa perm : ℕ) → is_valid (leaf pa perm) ≡ true
unfolding leaf
leaf_valid pa perm = ground arith

pub page_of : (page : ℕ) → page ≤ vpn 0 (page * pgsize)
unfolding vpn
page_of page = omega arith

pub page_lt : (page k : ℕ) → vpn 0 (page * pgsize) < page + suc k
unfolding vpn
page_lt page k = omega arith

pub page_eq : (page : ℕ) → vpn 0 (page * pgsize) ≡ page
unfolding vpn
page_eq page = omega arith
