-- ===== src/Kalloc/Range.antt =====
-- The allocator at boot: `freerange` frees every page of the range, once.
use unix_c_shell.Common.{
  ℕ, zero, suc, ◌+◌, ◌-◌, ◌*◌, ◌/◌, ◌%◌, ◌≤◌, ◌<◌, ◌≡◌, ◌≢◌, true, some, List, [], ◌∷◌, leb, arith,
  All, All-imp, length,
}
use unix_c_shell.Kalloc.{Kmem, pgsize, phystop, pgroundup, freerange_loop, freerange, kinit}
use unix_c_shell.Kalloc.Pages.{Frees, IsPage, kfree-Frees}

-- The pages of a range from `p` on, the last one first, in front of `ps`: the order of the free list.
abbrev pub pages_from : (n p : ℕ) → List ℕ → List ℕ
pages_from zero p ps = ps
pages_from (suc n) p ps = pages_from n (p + pgsize) (p ∷ ps)

freerange_loop-Frees :
    (end_addr fuel n p pa_end : ℕ) (k : Kmem) (ps : List ℕ)
    → 0 < end_addr
    → n < fuel
    → p + n * pgsize ≤ pa_end
    → pa_end < p + suc n * pgsize
    → pa_end ≤ phystop
    → end_addr ≤ p
    → p % pgsize ≡ 0
    → All (λ q. q < p) ps
    → Frees end_addr k ps
    → (k' : Kmem) × (freerange_loop end_addr fuel p pa_end k ≡ some k')
      × Frees end_addr k' (pages_from n p ps)
unfolding freerange_loop
freerange_loop-Frees end_addr zero n p pa_end k ps pos h lo hi top low al old f =
    absurd (omega arith)
freerange_loop-Frees end_addr (suc fuel) zero p pa_end k ps pos h lo hi top low al old f =
    (k, ground arith, f)
freerange_loop-Frees end_addr (suc fuel) (suc n) p pa_end k ps pos h lo hi top low al old f =
    let page : IsPage end_addr p = record { aligned = al; above = low; below = omega arith } in
    let apart = All-imp (λ q. q < p) (λ q. p ≢ q) ps (λ q lt e. omega arith) old in
    let (k1, e, f1, _) = kfree-Frees end_addr p k ps pos f page apart in
    let older = All-imp (λ q. q < p) (λ q. q < p + pgsize) ps (λ q lt. omega arith) old in
    let (k', e', f') =
      freerange_loop-Frees end_addr fuel n (p + pgsize) pa_end k1 (p ∷ ps) pos (omega arith)
        (omega arith) (omega arith) top (omega arith) (omega arith) (omega arith, older) f1 in
    let more : leb (p + pgsize) pa_end ≡ true = ground arith in
    (k', rw (more, freerange_loop) (rw (e, freerange_loop) e'), f')

length-pages_from : (n p : ℕ) (ps : List ℕ) → length (pages_from n p ps) ≡ n + length ps
length-pages_from zero p ps = omega arith
length-pages_from (suc n) p ps = omega (arith, length-pages_from n (p + pgsize) (p ∷ ps))

-- The number of whole pages from `end` to the end of memory.
abbrev pub page_count : ℕ → ℕ
page_count end_addr = (phystop - pgroundup end_addr) / pgsize

-- At boot every whole page between the kernel and the end of memory becomes free, each once, and no
-- free panics. The kernel's end is not 0 and at least two pages below it.
pub kinit-Frees :
    (end_addr : ℕ) (k : Kmem)
    → 0 < end_addr
    → end_addr + 2 * pgsize ≤ phystop
    → k.freelist ≡ 0
    → (k' : Kmem) × (kinit end_addr k ≡ some k')
      × Frees end_addr k' (pages_from (page_count end_addr) (pgroundup end_addr) [])
      × (length (pages_from (page_count end_addr) (pgroundup end_addr) []) ≡ page_count end_addr)
unfolding kinit freerange
kinit-Frees end_addr k pos room empty =
    let n = page_count end_addr in
    let (k', e, f) =
      freerange_loop-Frees end_addr _ n (pgroundup end_addr) phystop k [] pos (omega arith)
        (omega arith) (omega arith) (omega arith) (omega arith) (omega arith) tt
        (record { linked = empty; apart = tt; pages = tt }) in
    (k', e, f, omega (arith, length-pages_from n (pgroundup end_addr) []))
