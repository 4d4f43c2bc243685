-- ===== src/Vm/Fault.antt =====
-- `vmfault`: a page of a process is made when it is first used.
use unix_c_shell.Common.{
  ℕ, zero, suc, ◌+◌, ◌-◌, ◌*◌, ◌/◌, ◌<◌, ◌≤◌, ◌≡◌, ◌≢◌, ◌⊎◌, inl, inr, refl, ◌∙◌, ap, true, false,
  Bool, Option, none, some, List, [], ◌∷◌, ◌==◌, if◌then◌else◌, ◌&&◌, leb, ltb, All, arith, ==_ne,
  Bool-cases, length,
}
use unix_c_shell.Kalloc
use unix_c_shell.Kalloc.{Kmem, pgsize, memset_page}
use unix_c_shell.Kalloc.Pages.{IsPage, kalloc-Frees, kalloc_empty, kfree-Frees}
use unix_c_shell.Vm.{
  Vm, is_valid, leaf, px, maxva, vpn, walk_from, walk, entry, mappages, ismapped, vmfault,
  fault_end, free_page,
}
use unix_c_shell.Vm.Tree.{if_valid, view, space, view-cong, Uses, IsTree}
use unix_c_shell.Vm.Link.{memset_page-Frees}
use unix_c_shell.Vm.Walk.{alloc-IsTree, view-kmem}
use unix_c_shell.Vm.Placing.{Mapped, with_range}
use unix_c_shell.Vm.Map.{mappages-Mapped, with_range_zero}

-- The entry of a walk's slot, if valid, is what the address translates to.
pub view-entry :
    (level p va : ℕ) (m : Vm)
    → if_valid (entry m (walk_from level p va false m).0) ≡ view level p va m
unfolding view walk_from
view-entry zero p va m = refl
view-entry (suc level) p va m = elim (Bool-cases (is_valid (m.pte p (px (suc level) va)))) [
  | inl v ↦ rw v (view-entry level _ va m)
  | inr v ↦ rw v refl
]

abbrev is_some : {A : Type 0} → Option A → Bool
is_some none = false
is_some (some _) = true

is_valid-some : (e : ℕ) → is_valid e ≡ is_some (if_valid e)
is_valid-some e = elim (Bool-cases (is_valid e)) [ inl v ↦ rw v refl | inr v ↦ rw v refl ]

pub walk_look :
    (root va : ℕ) (m : Vm) → va < maxva → walk root va false m ≡ some (walk_from 2 root va false m)
unfolding walk
walk_look root va m h = let e : leb maxva va ≡ false = ground arith in rw e refl

-- `ismapped` says whether the address translates.
ismapped_lem :
    (root va : ℕ) (m : Vm) → va < maxva → ismapped root va m ≡ some (is_some (space root m va))
unfolding ismapped
ismapped_lem root va m h =
    rw (walk_look root va m h, ismapped)
      (ap some (is_valid-some _ ∙ ap is_some (view-entry 2 root va m)))

-- Where the address is beyond the size of the process or already mapped, `vmfault` changes nothing.
pub vmfault_refused :
    (end_addr root psz va : ℕ) (m : Vm)
    → psz ≤ maxva
    → (psz ≤ va) ⊎ ((e : ℕ) × (space root m (va / pgsize * pgsize) ≡ some e))
    → vmfault end_addr root psz va m ≡ some (0, m)
unfolding vmfault
vmfault_refused end_addr root psz va m lt (inl h) =
    let e : leb psz va ≡ true = ground arith in rw e refl
vmfault_refused end_addr root psz va m lt (inr (x, h)) = elim (Bool-cases (leb psz va)) [
  | inl e ↦ rw e refl
  | inr e ↦
      (let g = ismapped_lem root (va / pgsize * pgsize) m (ground arith) in
        let k : ismapped root (va / pgsize * pgsize) m ≡ some true = rw (h) at g in rw (e, k) refl)
]

-- What a page fault on an address that is not mapped leaves.
pub record Faulted (end_addr root va : ℕ) (m : Vm) (result : Option (ℕ × Vm)) : Type 0 where
  pub page : ℕ
  pub state : Vm
  pub uses : Uses
  pub free : List ℕ
  pub returns : result ≡ some (page, state)
  pub tree : IsTree end_addr root uses state free
  pub outcome :
      ((page ≡ 0)
        × (length free ≤ 1)
        × ((vb : ℕ) → vb < maxva → space root state vb ≡ space root m vb))
      ⊎ (IsPage end_addr page
          × (uses page ≡ none)
          × All (λ f. page ≢ f) free
          × ((vb : ℕ)
              → vb < maxva
              → space root state vb
                ≡ (if vpn 0 vb == vpn 0 va then some (leaf page 22) else space root m vb)))

same_page :
    (va vb : ℕ)
    → va / pgsize ≤ vpn 0 vb
    → vpn 0 vb < va / pgsize + 1
    → vpn 0 vb ≡ vpn 0 (va / pgsize * pgsize)
unfolding vpn
same_page va vb h k = omega arith

-- A range of one page.
with_page :
    (va q : ℕ) (f : ℕ → Option ℕ) (vb : ℕ)
    → with_range 1 (va / pgsize) q 22 f vb
      ≡ (if vpn 0 vb == vpn 0 va then some (leaf q 22) else f vb)
unfolding vpn
with_page va q f vb = elim (Bool-cases (vpn 0 vb == vpn 0 va)) [
  | inl same ↦
      (let e : vpn 0 vb - va / pgsize ≡ 0 = ground arith in
        let from : leb (va / pgsize) (vpn 0 vb) ≡ true = ground arith in
        let to : ltb (vpn 0 vb) (va / pgsize + 1) ≡ true = ground arith in
        let at : q + 0 * pgsize ≡ q = omega arith in rw (same, from, to, e, at) refl)
  | inr other ↦
      (let out : (leb (va / pgsize) (vpn 0 vb) && ltb (vpn 0 vb) (va / pgsize + 1)) ≡ false =
          ground arith in
        rw (other, out) refl)
]

-- The end of a fault: the page is mapped, or given back.
fault_ends :
    (end_addr root va : ℕ) (m : Vm) (q : ℕ) (k : Kmem) {uses : Uses} (free : List ℕ)
    → 0 < end_addr
    → uses q ≡ none
    → IsPage end_addr q
    → All (λ f. q ≢ f) free
    → Mapped end_addr root uses
        (record m { kmem = k })
        free
        1
        (va / pgsize)
        q
        22
        (mappages root (va / pgsize * pgsize) pgsize q 22 (record m { kmem = k }))
    → Faulted end_addr root va m (
        fault_end end_addr q
          (mappages root (va / pgsize * pgsize) pgsize q 22 (record m { kmem = k })))
unfolding fault_end free_page
fault_ends end_addr root va m q k free pos unused page fresh w = elim (Bool-cases w.ok) [
  | inl done ↦ record {
    page = q;
    state = w.state;
    uses = w.uses;
    free = w.free;
    returns = rw (w.returns, done) refl;
    tree = w.tree;
    outcome = inr (
      page,
      (w.others q fresh).0 ∙ unused,
      (w.others q fresh).1,
      λ vb h.
          w.maps vb h
          ∙ rw (w.complete done) (
              with_page va q (space root (record m { kmem = k })) vb
              ∙ ap (λ (o : Option ℕ). if vpn 0 vb == vpn 0 va then some (leaf q 22) else o)
                  (view-kmem 2 root vb m k)),
    );
  }
  | inr failed ↦
      (let (less, none_left) = w.short failed in
        let none_count : w.count ≡ 0 = omega arith in
        let (k', freed, f, _) =
          kfree-Frees end_addr q w.state.kmem w.free pos w.tree.frees page (w.others q fresh).1 in
        record {
          page = 0;
          state = record w.state { kmem = k' };
          uses = w.uses;
          free = q ∷ w.free;
          returns = rw (w.returns, failed, freed) refl;
          tree =
              alloc-IsTree w.free (q ∷ w.free) k' w.tree f
                ((w.others q fresh).0 ∙ unused, w.tree.unused);
          outcome = inl (
            refl,
            rw none_left (omega arith),
            λ vb h.
                view-kmem 2 root vb w.state k'
                ∙ w.maps vb h
                ∙ rw none_count
                    (with_range_zero (va / pgsize) q 22 (space root (record m { kmem = k })) vb)
                ∙ view-kmem 2 root vb m k,
          );
        })
]

-- A fault on an address of the process that is not mapped returns. Either it returns 0, translates no
-- address otherwise, and at most one page is free; or the page that it returns is a page of memory, no
-- table and no longer free, and the page of the address, and no other, is mapped to it, readable and
-- writable by the process.
pub vmfault-Faulted :
    (end_addr root psz va : ℕ) {uses : Uses} {m : Vm} {free : List ℕ}
    → 0 < end_addr
    → IsTree end_addr root uses m free
    → psz ≤ maxva
    → va < psz
    → space root m (va / pgsize * pgsize) ≡ none
    → Faulted end_addr root va m (vmfault end_addr root psz va m)
unfolding vmfault
vmfault-Faulted end_addr root psz va {m = m} {free = []} positive t lt in_size un =
    let e1 : leb psz va ≡ false = ground arith in
    let g = ismapped_lem root (va / pgsize * pgsize) m (omega arith) in
    let e2 : ismapped root (va / pgsize * pgsize) m ≡ some false = rw (un) at g in
    rw (e1, e2, kalloc_empty end_addr m.kmem t.frees)
      record {
        page = 0;
        state = m;
        uses = _;
        free = [];
        returns = refl;
        tree = t;
        outcome = inl (refl, omega arith, λ _ _. refl);
      }
vmfault-Faulted end_addr root psz va {m = m} {free = q ∷ free} positive t lt in_size un =
    let e1 : leb psz va ≡ false = ground arith in
    let g = ismapped_lem root (va / pgsize * pgsize) m (omega arith) in
    let e2 : ismapped root (va / pgsize * pgsize) m ≡ some false = rw (un) at g in
    let k = (Kalloc.kalloc m.kmem).1 in
    let (first, f, filled, fresh) = kalloc-Frees end_addr m.kmem q free t.frees in
    let e3 : Kalloc.kalloc m.kmem ≡ (q, k) = ap (λ (n : ℕ). (n, k)) first in
    let pos : (q == 0) ≡ false = ==_ne q 0 t.frees.linked.1 in
    let zeroed : Kmem = memset_page q 0 k in
    let f1 = memset_page-Frees end_addr q 0 k free f fresh in
    let t1 = alloc-IsTree (q ∷ free) free zeroed t f1 t.unused.1 in
    let made = mappages-Mapped end_addr root (va / pgsize) 0 q 22 t1 (omega arith) (λ vb h from to.
      view-kmem 2 root vb m zeroed
      ∙ view-cong 2 root vb (va / pgsize * pgsize) m (same_page va vb from to)
      ∙ un) in
    rw (e1, e2, e3, pos)
      (fault_ends end_addr root va m q zeroed free positive t.unused.0 t.frees.pages.0 fresh made)
