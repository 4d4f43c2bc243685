-- ===== src/Kalloc/Pages.antt =====
-- The free list spells a list of pages, and the two operations push and pop it.
use mathlib.Core.Path.{subst}
use unix_c_shell.Common.{
  ℕ, ◌%◌, ◌≤◌, ◌<◌, ◌≡◌, ◌≢◌, refl, sym, not, ◌||◌, none, some, List, [], ◌∷◌, ltb, leb, ◌==◌,
  arith, ◌⊎◌, inl, inr, ==_ne, ==_refl, All, Bool-cases,
}
use unix_c_shell.Kalloc.{Kmem, pgsize, phystop, update, memset_page, kfree, kalloc}

-- From `head` on, the links spell the pages `ps`, none of them null.
abbrev pub Chain : (word : ℕ → ℕ) (head : ℕ) → List ℕ → Type 0
Chain word head [] = head ≡ 0
Chain word head (p ∷ ps) = (head ≡ p) × (p ≢ 0) × Chain word (word p) ps

abbrev pub IsApart : List ℕ → Type 0
IsApart [] = Unit
IsApart (p ∷ ps) = All (λ q. p ≢ q) ps × IsApart ps

-- A page that `kfree` accepts.
pub record IsPage (end_addr p : ℕ) : Type 0 where
  pub aligned : p % pgsize ≡ 0
  pub above : end_addr ≤ p
  pub below : p < phystop

-- The free pages are `ps`: different pages of the range, linked in this order.
pub record Frees (end_addr : ℕ) (k : Kmem) (ps : List ℕ) : Type 0 where
  pub linked : Chain k.word k.freelist ps
  pub apart : IsApart ps
  pub pages : All (IsPage end_addr) ps

-- A write to a page that is not in the chain leaves the chain.
pub Chain-update :
    (word : ℕ → ℕ) (head p v : ℕ) (ps : List ℕ)
    → All (λ q. p ≢ q) ps
    → Chain word head ps
    → Chain (update word p v) head ps
Chain-update word head p v [] h c = c
Chain-update word head p v (q ∷ ps) h c =
    (c.0, c.1, rw (==_ne q p (λ e. h.0 (sym e))) (Chain-update word (word q) p v ps h.1 c.2))

-- The states that the operations leave.
abbrev freed : ℕ → Kmem → Kmem
freed p k = record (memset_page p 1 k) {
  word = update (memset_page p 1 k).word p k.freelist;
  freelist = p;
}

abbrev taken : Kmem → Kmem
taken k = memset_page k.freelist 5 (record k { freelist = k.word k.freelist })

kalloc_some : (k : Kmem) → k.freelist ≢ 0 → kalloc k ≡ (k.freelist, taken k)
unfolding kalloc
kalloc_some k h = rw (==_ne k.freelist 0 h)

-- Freeing a page of the range that is not free succeeds, and makes it the first free page; its other
-- bytes are junk.
pub kfree-Frees :
    (end_addr p : ℕ) (k : Kmem) (ps : List ℕ)
    → 0 < end_addr
    → Frees end_addr k ps
    → IsPage end_addr p
    → All (λ q. p ≢ q) ps
    → (k' : Kmem) × (kfree end_addr p k ≡ some k') × Frees end_addr k' (p ∷ ps) × (k'.fill p ≡ 1)
unfolding kfree
kfree-Frees end_addr p k ps pos f g fresh =
    let word1 = update k.word p 0x0101010101010101 in
    let word2 = update word1 p k.freelist in
    let back : word2 p ≡ k.freelist = rw ==_refl in
    let chain =
      Chain-update word1 k.freelist p k.freelist ps fresh
        (Chain-update k.word k.freelist p 0x0101010101010101 ps fresh f.linked) in
    let k' : Kmem = record { freelist = p; word = word2; fill = update k.fill p 1 } in
    (
      k',
      ground arith,
      record {
        linked = (refl, omega arith, rw back chain);
        apart = (fresh, f.apart);
        pages = (g, f.pages);
      },
      rw ==_refl,
    )

-- `kfree` panics exactly on an address that is no page of the range.
pub kfree-none :
    (end_addr p : ℕ) (k : Kmem)
    → (kfree end_addr p k ≡ none) × ((p % pgsize ≢ 0) ⊎ (p < end_addr) ⊎ (phystop ≤ p))
      ⊎ ((k' : Kmem) × (kfree end_addr p k ≡ some k')) × IsPage end_addr p
unfolding kfree
kfree-none end_addr p k =
    elim (Bool-cases (not (p % pgsize == 0) || ltb p end_addr || leb phystop p)) [
      | inl e ↦ inl (rw e, ground arith)
      | inr e ↦ inr (
        (freed p k, rw e),
        record { aligned = ground arith; above = ground arith; below = ground arith },
      )
    ]

-- With a free page an allocation takes the first one, fills it with junk and leaves the others, and the
-- page is on the list no more.
pub kalloc-Frees :
    (end_addr : ℕ) (k : Kmem) (p : ℕ) (ps : List ℕ)
    → Frees end_addr k (p ∷ ps)
    → ((kalloc k).0 ≡ p)
      × Frees end_addr (kalloc k).1 ps
      × ((kalloc k).1.fill p ≡ 5)
      × All (λ q. p ≢ q) ps
kalloc-Frees end_addr k p ps f =
    let (first, live, rest) = f.linked in
    let e = kalloc_some k (rw first live) in
    let links : Chain k.word (k.word k.freelist) ps = rw first rest in
    let fresh : All (λ q. k.freelist ≢ q) ps = rw first f.apart.0 in
    subst
      (λ (r : ℕ × Kmem). (r.0 ≡ p) × Frees end_addr r.1 ps × (r.1.fill p ≡ 5) × All (λ q. p ≢ q) ps)
      (sym e)
      (
        first,
        record {
          linked = Chain-update k.word (k.word k.freelist) k.freelist _ ps fresh links;
          apart = f.apart.1;
          pages = f.pages.1;
        },
        filled first,
        f.apart.0,
      )
  where
    filled : k.freelist ≡ p → update k.fill k.freelist 5 p ≡ 5
    filled first = rw (sym first) (rw ==_refl)

-- Without a free page an allocation returns null and changes nothing.
pub kalloc_empty : (end_addr : ℕ) (k : Kmem) → Frees end_addr k [] → kalloc k ≡ (0, k)
unfolding kalloc
kalloc_empty end_addr k f = rw f.linked
