-- ===== src/Vm/Map.antt =====
-- `mappages` as a change of the address space.
use unix_c_shell.Common.{
  ℕ, zero, suc, ◌+◌, ◌-◌, ◌*◌, ◌%◌, ◌/◌, ◌<◌, ◌≤◌, ◌≡◌, inl, inr, refl, sym, ◌∙◌, ap, true, false,
  Option, none, List, [], ◌==◌, if◌then◌else◌, not, ◌&&◌, ◌||◌, leb, ltb, arith, ==_ne, Bool-cases,
}
use unix_c_shell.Kalloc.{pgsize}
use unix_c_shell.Vm.{Vm, leaf, maxva, vpn, set_pte, map_loop, mappages}
use unix_c_shell.Vm.Tree.{if_valid, view, space, Uses, IsTree}
use unix_c_shell.Vm.Place.{dec_eq}
use unix_c_shell.Vm.Placing.{
  with_range, Mapped, Placed, Starved, place, step_full, step_last, step_more, leaf_valid, page_of,
  page_lt, page_eq,
}

pub with_range_zero :
    (page pa perm : ℕ) (f : ℕ → Option ℕ) (va : ℕ) → with_range 0 page pa perm f va ≡ f va
with_range_zero page pa perm f va =
    let e : (leb page (vpn 0 va) && ltb (vpn 0 va) (page + 0)) ≡ false = ground arith in rw e refl

-- One page, then the pages behind it.
with_range-suc :
    (n page pa perm : ℕ) (f g : ℕ → Option ℕ) (va : ℕ)
    → g va ≡ (if vpn 0 va == page then if_valid (leaf pa perm) else f va)
    → with_range n (page + 1) (pa + pgsize) perm g va ≡ with_range (suc n) page pa perm f va
with_range-suc n page pa perm f g va h = elim (dec_eq (vpn 0 va) page) [
  | inl eq ↦
      (let first : pa + (vpn 0 va - page) * pgsize ≡ pa = omega arith in
        let below : leb (page + 1) (vpn 0 va) ≡ false = ground arith in
        let from : leb page (vpn 0 va) ≡ true = ground arith in
        let to : ltb (vpn 0 va) (page + suc n) ≡ true = ground arith in
        let here : (vpn 0 va == page) ≡ true = ground arith in
        rw (below, from, to, first) (h ∙ rw (here, leaf_valid pa perm) refl))
  | inr other ↦ elim (Bool-cases (leb (page + 1) (vpn 0 va) && ltb (vpn 0 va) (page + 1 + n))) [
    | inl inside ↦
        (let later : pa + pgsize + (vpn 0 va - (page + 1)) * pgsize
              ≡ pa + (vpn 0 va - page) * pgsize =
            ground arith in
          let from : leb page (vpn 0 va) ≡ true = ground arith in
          let to : ltb (vpn 0 va) (page + suc n) ≡ true = ground arith in
          rw (inside, from, to, later) refl)
    | inr outside ↦
        (let beyond : (leb page (vpn 0 va) && ltb (vpn 0 va) (page + suc n)) ≡ false =
            ground arith in
          rw (outside, beyond) (h ∙ rw (==_ne _ _ other) refl))
  ]
]

starved :
    (end_addr root k page pa perm : ℕ) {uses : Uses} {m : Vm} {free : List ℕ}
    → Starved end_addr root (page * pgsize) uses m free
    → Mapped end_addr root uses m free
        (suc k)
        page
        pa
        perm
        (map_loop (suc k) root (page * pgsize) ((page + k) * pgsize) pa perm m)
starved end_addr root k page pa perm {m = m} s = record {
  ok = false;
  state = s.before;
  count = 0;
  uses = s.uses;
  free = [];
  returns = step_full k root _ _ pa perm m s.before s.walked;
  tree = s.tree;
  maps = λ va h. s.same va h ∙ sym (with_range_zero page pa perm (space root m) va);
  complete = λ e. absurd (cc);
  short = λ _. (omega arith, refl);
  others = λ q h. (s.others q h, tt);
}

-- The last page is placed.
Placed-last :
    (end_addr root page pa perm : ℕ) {uses : Uses} {m : Vm} {free : List ℕ}
    → Placed end_addr root (page * pgsize) (leaf pa perm) uses m free
    → Mapped end_addr root uses m free 1 page pa perm
        (map_loop 1 root (page * pgsize) ((page + 0) * pgsize) pa perm m)
Placed-last end_addr root page pa perm {m = m} p =
    let e : (page + 0) * pgsize ≡ page * pgsize = omega arith in
    record {
      ok = true;
      state = set_pte p.before p.slot.0 p.slot.1 (leaf pa perm);
      count = 1;
      uses = p.uses;
      free = p.free;
      returns = rw e (step_last 0 root _ pa perm m p.before p.slot p.walked p.vacant);
      tree = p.tree;
      maps = λ va h.
          sym (
            with_range_zero (page + 1) (pa + pgsize) perm
              (space root (set_pte p.before p.slot.0 p.slot.1 (leaf pa perm))) va)
          ∙ with_range-suc 0 page pa perm (space root m)
              (space root (set_pte p.before p.slot.0 p.slot.1 (leaf pa perm))) va
              (rw (page_eq page) at (p.places va h));
      complete = λ _. refl;
      short = λ e. absurd (cc);
      others = p.others;
    }

-- A page is placed, and then those behind it.
Placed-more :
    (end_addr root k page pa perm : ℕ) {uses : Uses} {m : Vm} {free : List ℕ}
    (p : Placed end_addr root (page * pgsize) (leaf pa perm) uses m free)
    → Mapped end_addr root p.uses
        (set_pte p.before p.slot.0 p.slot.1 (leaf pa perm))
        p.free
        (suc k)
        (page + 1)
        (pa + pgsize)
        perm
        (map_loop
          (suc k)
          root
          ((page + 1) * pgsize)
          ((page + 1 + k) * pgsize)
          (pa + pgsize)
          perm
          (set_pte p.before p.slot.0 p.slot.1 (leaf pa perm)))
    → Mapped end_addr root uses m free
        (suc (suc k))
        page
        pa
        perm
        (map_loop (suc (suc k)) root (page * pgsize) ((page + suc k) * pgsize) pa perm m)
Placed-more end_addr root k page pa perm {m = m} p r =
    let next : page * pgsize + pgsize ≡ (page + 1) * pgsize = omega arith in
    let last : (page + suc k) * pgsize ≡ (page + 1 + k) * pgsize = omega arith in
    record {
      ok = r.ok;
      state = r.state;
      count = suc r.count;
      uses = r.uses;
      free = r.free;
      returns =
          step_more (suc k) root _ _ pa perm m p.before p.slot p.walked p.vacant (omega arith)
          ∙ rw (next, last) r.returns;
      tree = r.tree;
      maps = λ va h.
          r.maps va h
          ∙ with_range-suc r.count page pa perm (space root m)
              (space root (set_pte p.before p.slot.0 p.slot.1 (leaf pa perm))) va
              (rw (page_eq page) at (p.places va h));
      complete = λ e. ap suc (r.complete e);
      short = λ e. (let f = r.short e in (omega arith, f.1));
      others = λ q h. (let (e, h1) = p.others q h in let (e2, h2) = r.others q h1 in (e2 ∙ e, h2));
    }

pub map_loop-Mapped :
    (end_addr root k page pa perm : ℕ) {uses : Uses} {m : Vm} {free : List ℕ}
    → IsTree end_addr root uses m free
    → (page + suc k) * pgsize ≤ maxva
    → ((va : ℕ) → va < maxva → page ≤ vpn 0 va → vpn 0 va < page + suc k → view 2 root va m ≡ none)
    → Mapped end_addr root uses m free
        (suc k)
        page
        pa
        perm
        (map_loop (suc k) root (page * pgsize) ((page + k) * pgsize) pa perm m)
map_loop-Mapped end_addr root zero page pa perm {m = m} t lt un =
    elim (place end_addr root (page * pgsize) (leaf pa perm) t (omega arith)
      (un _ (omega arith) (page_of page) (page_lt page 0))) [
        | inr s ↦ starved end_addr root 0 page pa perm s
        | inl p ↦ Placed-last end_addr root page pa perm p
      ]
map_loop-Mapped end_addr root (suc k) page pa perm {m = m} t lt un =
    elim (place end_addr root (page * pgsize) (leaf pa perm) t (omega arith)
      (un _ (omega arith) (page_of page) (page_lt page (suc k)))) [
        | inr s ↦ starved end_addr root (suc k) page pa perm s
        | inl p ↦
            (Placed-more end_addr root k page pa perm p (
              map_loop-Mapped end_addr root k (page + 1) (pa + pgsize) perm p.tree (omega arith)
                λ va h from to.
                  p.places va h
                  ∙ rw (page_eq page, ==_ne (vpn 0 va) page (omega arith))
                      (un va h (omega arith) (omega arith))))
      ]

mappages_lem :
    (root page k pa perm : ℕ) (m : Vm)
    → mappages root (page * pgsize) (suc k * pgsize) pa perm m
      ≡ map_loop (suc k) root (page * pgsize) ((page + k) * pgsize) pa perm m
unfolding mappages
mappages_lem root page k pa perm m =
    let e1 : (not (page * pgsize % pgsize == 0)
          || not (suc k * pgsize % pgsize == 0)
          || suc k * pgsize == 0)
        ≡ false =
      ground arith in
    let e2 : suc k * pgsize / pgsize ≡ suc k = omega arith in
    let e3 : page * pgsize + suc k * pgsize - pgsize ≡ (page + k) * pgsize = omega arith in
    rw (e1, e2, e3) refl

-- Where no page of the range is mapped, `mappages` returns, and maps a first part of the range, page by
-- page, to the pages from `pa` on with the flags: the whole range if it returns 0, and less with no
-- free page left if it returns -1. Every other address translates as before, and the tables remain a
-- tree.
pub mappages-Mapped :
    (end_addr root page k pa perm : ℕ) {uses : Uses} {m : Vm} {free : List ℕ}
    → IsTree end_addr root uses m free
    → (page + suc k) * pgsize ≤ maxva
    → ((va : ℕ) → va < maxva → page ≤ vpn 0 va → vpn 0 va < page + suc k → space root m va ≡ none)
    → Mapped end_addr root uses m free
        (suc k)
        page
        pa
        perm
        (mappages root (page * pgsize) (suc k * pgsize) pa perm m)
mappages-Mapped end_addr root page k pa perm {m = m} t lt un =
    rw (mappages_lem root page k pa perm m) (map_loop-Mapped end_addr root k page pa perm t lt un)
