-- ===== src/Kalloc/Tests.antt =====
-- The page allocator on concrete states.
use unix_c_shell.Common.{ℕ, ◌-◌, ◌*◌, ◌≡◌, refl, some, [], ◌∷◌, arith, length}
use unix_c_shell.Kalloc.{Kmem, pgsize, phystop, kinit, pgroundup}
use unix_c_shell.Kalloc.Pages.{Frees}
use unix_c_shell.Kalloc.Range.{pages_from, page_count, kinit-Frees}

-- Two pages before the end of memory, the first one free.
abbrev low_page : ℕ
low_page = phystop - 2 * pgsize

abbrev one_free : Kmem
one_free = record { freelist = low_page; word = λ _. 0; fill = λ _. 0 }

one_free-Frees : Frees 1 one_free (low_page ∷ [])
one_free-Frees = record {
  linked = (refl, omega arith, refl);
  apart = (tt, tt);
  pages = (record { aligned = refl; above = omega arith; below = omega arith }, tt);
}

abbrev high_page : ℕ
high_page = phystop - pgsize

-- A kernel that ends at the last two pages.
abbrev boot : Kmem
boot = record { freelist = 0; word = λ _. 0; fill = λ _. 0 }

kinit-Frees_example :
    (k' : Kmem) × (kinit low_page boot ≡ some k')
    × Frees low_page k' (pages_from (page_count low_page) (pgroundup low_page) [])
    × (length (pages_from (page_count low_page) (pgroundup low_page) []) ≡ page_count low_page)
kinit-Frees_example = kinit-Frees low_page boot (omega arith) (omega arith) refl
