-- ===== src/Vm/Unmap.antt =====
-- `uvmunmap` with `do_free`, and `uvmdealloc`: the pages of a range go back to the allocator.
use mathlib.Core.Option
use mathlib.Core.Option.{Option}
use unix_c_shell.Common.{
  ℕ, zero, suc, ◌+◌, ◌-◌, ◌*◌, ◌%◌, ◌/◌, ◌<◌, ◌≤◌, ◌≡◌, inl, inr, refl, ◌∙◌, ap, true, false, none,
  some, List, ◌==◌, if◌then◌else◌, not, leb, ltb, lt→ltb, arith, ==_ne, Option-cases,
}
use unix_c_shell.Kalloc.{pgsize, pgroundup}
use unix_c_shell.Vm.{Vm, pte2pa, maxva, vpn, unmap_loop, uvmunmap, uvmdealloc}
use unix_c_shell.Vm.Tree.{space, Uses, IsTree}
use unix_c_shell.Vm.Place.{dec_eq}
use unix_c_shell.Vm.Round.{
  Holds, InRange, IsBacked, without_range, Unmapped, Round, skip-Round, clear-Round,
}

-- Some page of the range, then the pages behind it.
without_range-suc :
    (n page : ℕ) (f g : ℕ → Option ℕ) (va : ℕ)
    → g va ≡ (if vpn 0 va == page then none else f va)
    → without_range n (page + 1) g va ≡ without_range (suc n) page f va
without_range-suc n page f g va h = ground arith

-- The rest of the range, after a round.
unmap_rest :
    (end_addr root : ℕ) (uses : Uses) (m : Vm) (free : List ℕ) (n page : ℕ)
    (r : Round end_addr root uses m free n page)
    → Unmapped end_addr root uses r.after r.free1 n
        (page + 1)
        (unmap_loop end_addr n root ((page + 1) * pgsize) true r.after)
    → Unmapped end_addr root uses m free
        (suc n)
        page
        (unmap_loop end_addr (suc n) root (page * pgsize) true m)
unmap_rest end_addr root uses m free n page r u =
    let next : page * pgsize + pgsize ≡ (page + 1) * pgsize = omega arith in
    record {
      state = u.state;
      free' = u.free';
      returns = r.goes_on ∙ rw next u.returns;
      tree = u.tree;
      unmaps = λ va h.
          u.unmaps va h
          ∙ without_range-suc n page (space root m) (space root r.after) va (r.round va h);
      keeps = λ q h. u.keeps q (r.kept q h);
      frees = λ va e i h. elim (dec_eq (vpn 0 va) page) [
        | inl same ↦ u.keeps _ (r.freed va e i.0 same h)
        | inr other ↦
            u.frees va e (i.0, omega arith, omega arith) (r.round va i.0 ∙ rw (==_ne _ _ other) h)
      ];
    }

-- Freeing a range in which every mapped page is backed by a page of its own always succeeds: no
-- address of the range is mapped afterwards, the others translate as before, the tables remain a tree,
-- and the pages that the range was mapped to are free.
pub unmap_loop-Unmapped :
    (end_addr root : ℕ) (uses : Uses) (m : Vm) (free : List ℕ) (n page : ℕ)
    → 0 < end_addr
    → IsTree end_addr root uses m free
    → (page + n) * pgsize ≤ maxva
    → IsBacked end_addr root uses m free n page
    → Unmapped end_addr root uses m free n page (unmap_loop end_addr n root (page * pgsize) true m)
unmap_loop-Unmapped end_addr root uses m free zero page pos t fits b = record {
  state = m;
  free' = free;
  returns = unfold unmap_loop in refl;
  tree = t;
  unmaps = λ va h. ground arith;
  keeps = λ q h. h;
  frees = λ va e i h. absurd (omega arith);
}
unmap_loop-Unmapped end_addr root uses m free (suc n) page pos t fits b =
    let r : Round end_addr root uses m free n page =
      elim (Option-cases (space root m (page * pgsize))) [
        | inl h ↦ skip-Round pos t n page fits b h
        | inr (x, h) ↦ clear-Round pos t n page fits b x h
      ] in
    unmap_rest end_addr root uses m free n page r (
      unmap_loop-Unmapped end_addr root uses r.after r.free1 n (page + 1) pos r.tree (omega arith)
        r.backed)

-- The page count of `uvmdealloc`.
abbrev pub dealloc_pages : ℕ → ℕ → ℕ
dealloc_pages oldsz newsz = pgroundup oldsz / pgsize - pgroundup newsz / pgsize

dealloc_lem :
    (end_addr root oldsz newsz : ℕ) (m : Vm) (m' : Vm)
    → pgroundup newsz < pgroundup oldsz
    → unmap_loop end_addr
        (dealloc_pages oldsz newsz)
        root
        (pgroundup newsz / pgsize * pgsize)
        true
        m
      ≡ some m'
    → uvmdealloc end_addr root oldsz newsz m ≡ some (newsz, m')
unfolding uvmdealloc uvmunmap
dealloc_lem end_addr root oldsz newsz m m' h e =
    let e1 : leb oldsz newsz ≡ false = ground arith in
    let e2 : ltb (pgroundup newsz) (pgroundup oldsz) ≡ true = lt→ltb _ _ h in
    let e3 : not (pgroundup newsz % pgsize == 0) ≡ false = ground arith in
    let e4 : (pgroundup oldsz - pgroundup newsz) / pgsize ≡ dealloc_pages oldsz newsz =
      omega arith in
    let e5 : pgroundup newsz / pgsize * pgsize ≡ pgroundup newsz = omega arith in
    rw (e1, e2, e3, e4) (ap (Option.map (λ (x : Vm). (newsz, x))) (rw e5 at e))

-- What `uvmdealloc` leaves: the pages from the new size on, rounded up, are neither mapped nor in use.
pub record Shrunk (end_addr root : ℕ) (uses : Uses) (m : Vm) (free : List ℕ) (oldsz newsz : ℕ)
    : Type 0 where
  pub state : Vm
  pub free' : List ℕ
  pub returns : uvmdealloc end_addr root oldsz newsz m ≡ some (newsz, state)
  pub tree : IsTree end_addr root uses state free'
  pub unmaps :
      (va : ℕ)
      → va < maxva
      → space root state va
        ≡ without_range (dealloc_pages oldsz newsz) (pgroundup newsz / pgsize) (space root m) va
  pub frees :
      (va e : ℕ)
      → InRange (dealloc_pages oldsz newsz) (pgroundup newsz / pgsize) va
      → space root m va ≡ some e
      → Holds (pte2pa e) free'

-- Shrinking a process by at least a page, where its pages from the new size on are backed by pages of
-- their own: it returns the new size, no address between the sizes, rounded up, is mapped any more,
-- every other address translates as before, the tables remain a tree, and the pages are free.
pub uvmdealloc-Shrunk :
    (end_addr root oldsz newsz : ℕ) {uses : Uses} {m : Vm} {free : List ℕ}
    → 0 < end_addr
    → IsTree end_addr root uses m free
    → oldsz ≤ maxva
    → pgroundup newsz < pgroundup oldsz
    → IsBacked end_addr root uses m free (dealloc_pages oldsz newsz) (pgroundup newsz / pgsize)
    → Shrunk end_addr root uses m free oldsz newsz
uvmdealloc-Shrunk end_addr root oldsz newsz {uses} {m} {free} pos t lt h b =
    let u =
      unmap_loop-Unmapped end_addr root uses m free (dealloc_pages oldsz newsz)
        (pgroundup newsz / pgsize) pos t (omega arith) b in
    record {
      state = u.state;
      free' = u.free';
      returns = dealloc_lem end_addr root oldsz newsz m u.state h u.returns;
      tree = u.tree;
      unmaps = u.unmaps;
      frees = u.frees;
    }
