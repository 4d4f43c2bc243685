-- ===== src/Vm.antt =====
-- xv6/kernel/vm.c: the three-level page tables of Sv39, over the page allocator.
pub mod Tree
pub mod Link
pub mod Walk
pub mod Place
pub mod Placing
pub mod Map
pub mod Fault
pub mod Round
pub mod Unmap
mod Tests
use unix_c_shell.Common.{
  ℕ, zero, suc, ◌+◌, ◌-◌, ◌*◌, ◌/◌, ◌%◌, Bool, true, false, not, ◌||◌, ◌&&◌, none, some, ltb, leb,
  ◌==◌, if◌then◌else◌,
}
use mathlib.Core.Option
use mathlib.Core.Option.{Option}
use unix_c_shell.Kalloc
use unix_c_shell.Kalloc.{Kmem, pgsize, memset_page, pgroundup}

-- `MAXVA`, 2 ^ 38
abbrev pub maxva : ℕ
maxva = 0x4000000000

-- Physical memory: the allocator's view of the pages, and of each page its 512 page table entries.
pub record Vm : Type 0 where
  pub kmem : Kmem
  pub pte : ℕ → ℕ → ℕ

-- `PTE_V` and `PTE_U` of an entry
abbrev pub is_valid : ℕ → Bool
is_valid e = e % 2 == 1

abbrev pub is_user : ℕ → Bool
is_user e = e / 16 % 2 == 1

abbrev pub pa2pte : ℕ → ℕ
pa2pte pa = pa / 4096 * 1024

abbrev pub pte2pa : ℕ → ℕ
pte2pa e = e / 1024 * 4096

-- `PA2PTE(pa) | perm | PTE_V`, for flags below 1024: the sum, since the bits are apart.
unfoldable pub leaf : ℕ → ℕ → ℕ
leaf pa perm = pa2pte pa + (if perm % 2 == 1 then perm else perm + 1)

-- `va >> PXSHIFT(level)`
pub vpn : ℕ → ℕ → ℕ
vpn zero va = va / 4096
vpn (suc level) va = vpn level va / 512

unfoldable pub px : ℕ → ℕ → ℕ
unfolding vpn
px level va = vpn level va % 512

-- `pagetable[i] = e`
unfoldable pub set_pte : Vm → ℕ → ℕ → ℕ → Vm
set_pte m p i e = record m {
  pte = λ q j. if q == p then (if j == i then e else m.pte q j) else m.pte q j;
}

-- `memset(p, 0, PGSIZE)`
abbrev pub clear_page : Vm → ℕ → Vm
clear_page m p = record {
  kmem = memset_page p 0 m.kmem;
  pte = λ q j. if q == p then 0 else m.pte q j;
}

-- The levels of `walk` from one of its tables down: the entry that it points to, if any.
unfoldable pub walk_from : (level pagetable va : ℕ) (alloc : Bool) → Vm → Option (ℕ × ℕ) × Vm
unfolding px
walk_from zero pagetable va alloc m = (some (pagetable, px 0 va), m)
walk_from (suc level) pagetable va alloc m =
    let i = px (suc level) va in
    let e = m.pte pagetable i in
    let down = walk_from level (pte2pa e) va alloc m in
    let q = (Kalloc.kalloc m.kmem).0 in
    let got = record m { kmem = (Kalloc.kalloc m.kmem).1 } in
    let made = walk_from level q va alloc (set_pte (clear_page got q) pagetable i (pa2pte q + 1)) in
    if is_valid e
    then down
    else if not alloc
    then (none, m)
    else if q == 0
    then (none, got)
    else made

-- `walk`; the outer `none` is the panic.
unfoldable pub walk : (pagetable va : ℕ) (alloc : Bool) → Vm → Option (Option (ℕ × ℕ) × Vm)
unfolding walk_from
walk pagetable va alloc m = if leb maxva va then none else some (walk_from 2 pagetable va alloc m)

-- The entry that a slot holds, 0 without a slot.
abbrev pub entry : Vm → Option (ℕ × ℕ) → ℕ
entry m none = 0
entry m (some (p, i)) = m.pte p i

unfoldable pub walkaddr : (pagetable va : ℕ) → Vm → ℕ
unfolding walk_from
walkaddr pagetable va m =
    let e = entry m (walk_from 2 pagetable va false m).0 in
    if leb maxva va then 0 else if is_valid e && is_user e then pte2pa e else 0

-- The loop of `mappages`, with `fuel` rounds at most: `true` for the result 0, `false` for -1.
unfoldable pub map_loop : (fuel pagetable a last pa perm : ℕ) → Vm → Option (Bool × Vm)
map_loop zero pagetable a last pa perm m = some (false, m)
map_loop (suc fuel) pagetable a last pa perm m = elim (walk pagetable a true m) [
  | none ↦ none
  | some (none, m1) ↦ some (false, m1)
  | some (some (p, i), m1) ↦
      (let m2 = set_pte m1 p i (leaf pa perm) in
        let next = map_loop fuel pagetable (a + pgsize) last (pa + pgsize) perm m2 in
        if is_valid (m1.pte p i) then none else if a == last then some (true, m2) else next)
]

-- One round for each page is enough fuel.
unfoldable pub mappages : (pagetable va size pa perm : ℕ) → Vm → Option (Bool × Vm)
unfolding map_loop walk
mappages pagetable va size pa perm m =
    if not (va % pgsize == 0) || not (size % pgsize == 0) || size == 0
    then none
    else map_loop (size / pgsize) pagetable va (va + size - pgsize) pa perm m

unfoldable pub ismapped : (pagetable va : ℕ) → Vm → Option Bool
ismapped pagetable va m = elim (walk pagetable va false m) [
  | none ↦ none
  | some (s, _) ↦ some (is_valid (entry m s))
]

module _ (end_addr : ℕ) where
  -- `kfree` of a page, over the same memory
  unfoldable pub free_page : ℕ → Vm → Option Vm
  free_page pa m = Option.map (λ k. record m { kmem = k }) (Kalloc.kfree end_addr pa m.kmem)

  -- The end of `vmfault`, once `mappages` has answered.
  unfoldable pub fault_end : ℕ → Option (Bool × Vm) → Option (ℕ × Vm)
  fault_end mem none = none
  fault_end mem (some (true, m)) = some (mem, m)
  fault_end mem (some (false, m)) = Option.map (λ m'. (0, m')) (free_page mem m)

  -- `vmfault`, with the flags `PTE_W | PTE_U | PTE_R` for the new page; 0 if there is none.
  unfoldable pub vmfault : (pagetable psz va : ℕ) → Vm → Option (ℕ × Vm)
  vmfault pagetable psz va m =
      let page = va / pgsize * pgsize in
      let mem = (Kalloc.kalloc m.kmem).0 in
      let got = record m { kmem = (Kalloc.kalloc m.kmem).1 } in
      let zeroed = record got { kmem = memset_page mem 0 got.kmem } in
      let made = fault_end mem (mappages pagetable page pgsize mem 22 zeroed) in
      if leb psz va then some (0, m) else (elim (ismapped pagetable page m) [
        | none ↦ none
        | some true ↦ some (0, m)
        | some false ↦ if mem == 0 then some (0, got) else made
      ])

  -- The loop of `uvmunmap`, one round for each page.
  unfoldable pub unmap_loop : (npages pagetable a : ℕ) (do_free : Bool) → Vm → Option Vm
  unfolding free_page
  unmap_loop zero pagetable a do_free m = some m
  unmap_loop (suc npages) pagetable a do_free m = elim (walk pagetable a false m) [
    | none ↦ none
    | some (none, _) ↦ unmap_loop npages pagetable (a + pgsize) do_free m
    | some (some (p, i), _) ↦
        (let e = m.pte p i in
          let skip = unmap_loop npages pagetable (a + pgsize) do_free m in
          let freed = if do_free then free_page (pte2pa e) m else some m in
          if not (is_valid e) then skip else (elim freed [
            | none ↦ none
            | some m1 ↦ unmap_loop npages pagetable (a + pgsize) do_free (set_pte m1 p i 0)
          ]))
  ]

  unfoldable pub uvmunmap : (pagetable va npages : ℕ) (do_free : Bool) → Vm → Option Vm
  unfolding unmap_loop
  uvmunmap pagetable va npages do_free m =
      if not (va % pgsize == 0) then none else unmap_loop npages pagetable va do_free m

  -- `uvmdealloc`: the new size of the process.
  unfoldable pub uvmdealloc : (pagetable oldsz newsz : ℕ) → Vm → Option (ℕ × Vm)
  uvmdealloc pagetable oldsz newsz m =
      let npages = (pgroundup oldsz - pgroundup newsz) / pgsize in
      if leb oldsz newsz
      then some (oldsz, m)
      else if ltb (pgroundup newsz) (pgroundup oldsz)
      then Option.map (λ m'. (newsz, m')) (uvmunmap pagetable (pgroundup newsz) npages true m)
      else some (newsz, m)
