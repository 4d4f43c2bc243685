-- ===== src/Kalloc.antt =====
-- xv6/kernel/kalloc.c: the free list of pages, threaded through the free pages themselves.
pub mod Pages
pub mod Range
mod Tests
use unix_c_shell.Common.{
  ℕ, zero, suc, ◌+◌, ◌-◌, ◌*◌, ◌/◌, ◌%◌, Bool, true, false, not, ◌||◌, Option, none, some, ltb, leb,
  ◌==◌, if◌then◌else◌,
}

abbrev pub pgsize : ℕ
pgsize = 4096

abbrev pub phystop : ℕ
phystop = 0x88000000

-- The memory and `kmem.freelist`. Of each page `word` is the first word, which is `next` of a
-- `struct run`, and `fill` is the byte that the last `memset` put in the rest. 0 is null.
pub record Kmem : Type 0 where
  pub freelist : ℕ
  pub word : ℕ → ℕ
  pub fill : ℕ → ℕ

abbrev pub update : (ℕ → ℕ) → ℕ → ℕ → ℕ → ℕ
update f a v b = if b == a then v else f b

-- `memset(pa, c, PGSIZE)`
abbrev pub memset_page : ℕ → ℕ → Kmem → Kmem
memset_page pa c k = record k {
  word = update k.word pa (c * 0x0101010101010101);
  fill = update k.fill pa c;
}

abbrev pub pgroundup : ℕ → ℕ
pgroundup sz = (sz + pgsize - 1) / pgsize * pgsize

module _ (end_addr : ℕ) where
  -- `kfree`; `none` is the panic.
  unfoldable pub kfree : ℕ → Kmem → Option Kmem
  kfree pa k =
      let k1 = memset_page pa 1 k in
      if not (pa % pgsize == 0) || ltb pa end_addr || leb phystop pa
      then none
      else some (record k1 { word = update k1.word pa k1.freelist; freelist = pa })

  -- The loop of `freerange`, with `fuel` rounds at most, from page `p` on.
  unfoldable pub freerange_loop : (fuel p pa_end : ℕ) → Kmem → Option Kmem
  freerange_loop zero p pa_end k = some k
  freerange_loop (suc fuel) p pa_end k =
      if leb (p + pgsize) pa_end
      then (elim (kfree p k) [ none ↦ none | some k' ↦ freerange_loop fuel (p + pgsize) pa_end k' ])
      else some k

  -- One round for each page that fits in the range is enough fuel.
  unfoldable pub freerange : (pa_start pa_end : ℕ) → Kmem → Option Kmem
  unfolding freerange_loop
  freerange pa_start pa_end k =
      freerange_loop ((pa_end - pgroundup pa_start) / pgsize + 1) (pgroundup pa_start) pa_end k

  unfoldable pub kinit : Kmem → Option Kmem
  unfolding freerange
  kinit k = freerange end_addr phystop k

-- `kalloc`: the page, 0 if there is none.
unfoldable pub kalloc : Kmem → ℕ × Kmem
kalloc k =
    let r = k.freelist in
    if r == 0 then (0, k) else (r, memset_page r 5 (record k { freelist = k.word r }))
