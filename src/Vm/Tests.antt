-- ===== src/Vm/Tests.antt =====
-- A page table with one mapped page, and the theorems on it.
use mathlib.Core.Option
use unix_c_shell.Common.{
  ℕ, suc, ◌+◌, ◌*◌, ◌%◌, ◌/◌, ◌<◌, ◌≤◌, ◌≡◌, inl, inr, refl, true, none, some, List, [], ◌∷◌, ◌==◌,
  if◌then◌else◌, not, arith, Bool-cases,
}
use unix_c_shell.Kalloc.{pgsize}
use unix_c_shell.Vm.{
  Vm, is_valid, pte2pa, pa2pte, leaf, px, maxva, vpn, walk_from, mappages, vmfault,
}
use unix_c_shell.Vm.Tree.{view, space, Uses, IsTree}
use unix_c_shell.Vm.Placing.{Mapped}
use unix_c_shell.Vm.Map.{mappages-Mapped}
use unix_c_shell.Vm.Fault.{Faulted, vmfault-Faulted}
use unix_c_shell.Vm.Unmap.{Shrunk, uvmdealloc-Shrunk, dealloc_pages}
use unix_c_shell.Vm.Round.{IsBacked}

-- The root, the tables below it, the mapped page and two free pages.
abbrev root : ℕ
root = 0x87000000

abbrev upper : ℕ
upper = 0x87001000

abbrev lower : ℕ
lower = 0x87002000

abbrev user_page : ℕ
user_page = 0x87003000

abbrev free_pages : List ℕ
free_pages = 0x87004000 ∷ 0x87005000 ∷ []

abbrev one_page : Vm
one_page = record {
  kmem = record {
    freelist = 0x87004000;
    word = λ p. if p == 0x87004000 then 0x87005000 else 0;
    fill = λ _. 0;
  };
  pte = λ p i.
      if not (i == 0)
      then 0
      else if p == root
      then pa2pte upper + 1
      else if p == upper
      then pa2pte lower + 1
      else if p == lower
      then pa2pte user_page + 23
      else 0;
}

abbrev one_page_uses : Uses
one_page_uses p =
    if p == root
    then some (2, 0)
    else if p == upper
    then some (1, 0)
    else if p == lower
    then some (0, 0)
    else none

one_page-child :
    (p level pre i : ℕ)
    → one_page_uses p ≡ some (suc level, pre)
    → i < 512
    → is_valid (one_page.pte p i) ≡ true
    → one_page_uses (pte2pa (one_page.pte p i)) ≡ some (level, pre * 512 + i)
one_page-child p level pre i h lt v = ground arith

one_page-IsTree : IsTree 1 root one_page_uses one_page free_pages
one_page-IsTree = record {
  frees = record { linked = omega arith; apart = omega arith; pages = omega arith };
  unused = (refl, (refl, tt));
  top = refl;
  child = one_page-child;
}

one_page-space :
    (va : ℕ)
    → va < maxva
    → space root one_page va ≡ (if va / pgsize == 0 then some (pa2pte user_page + 23) else none)
unfolding view px vpn
one_page-space va h = elim (Bool-cases (va / pgsize == 0)) [
  | inl e ↦
      (let e0 : va / 4096 / 512 / 512 % 512 ≡ 0 = ground arith in
        let e1 : va / 4096 / 512 % 512 ≡ 0 = ground arith in
        let e2 : va / 4096 % 512 ≡ 0 = ground arith in rw (e, e0, e1, e2) refl)
  | inr e ↦ ground arith
]

one_page-vacant :
    (va : ℕ) → va < maxva → 1 ≤ vpn 0 va → vpn 0 va < 3 → space root one_page va ≡ none
unfolding vpn
one_page-vacant va lt from to = ground (arith, one_page-space va lt)

mappages-Mapped_example :
    Mapped 1 root one_page_uses one_page free_pages 2 1 0x80000000 6
      (mappages root (1 * pgsize) (2 * pgsize) 0x80000000 6 one_page)
mappages-Mapped_example =
    mappages-Mapped 1 root 1 1 0x80000000 6 one_page-IsTree (omega arith) one_page-vacant

vmfault-Faulted_example : Faulted 1 root 5000 one_page (vmfault 1 root 8192 5000 one_page)
vmfault-Faulted_example =
    vmfault-Faulted 1 root 8192 5000 (omega arith) one_page-IsTree (omega arith) (omega arith)
      (one_page-space (5000 / pgsize * pgsize) (omega arith))

one_page-IsBacked : IsBacked 1 root one_page_uses one_page free_pages (dealloc_pages 4096 0) 0
unfolding vpn
one_page-IsBacked = record {
  owned = λ va e r h.
      (let same : e ≡ pa2pte user_page + 23 = ground (arith, one_page-space va r.0) in
        rw same (omega arith, refl, omega arith));
  apart = λ va vb e e' r r' d h h' _. d (omega arith);
}

uvmdealloc-Shrunk_example : Shrunk 1 root one_page_uses one_page free_pages 4096 0
uvmdealloc-Shrunk_example =
    uvmdealloc-Shrunk 1 root 4096 0 (omega arith) one_page-IsTree (omega arith) (omega arith)
      one_page-IsBacked

-- A fault maps the first free page at the address, readable and writable by the process.
fault_test :
    Option.map (λ r. space root r.1 5000) (vmfault 1 root 8192 5000 one_page)
    ≡ some (some (leaf 0x87004000 22))
unfolding vmfault walk_from view leaf vpn px unix_c_shell.Vm.ismapped unix_c_shell.Vm.walk
    unix_c_shell.Kalloc.kalloc unix_c_shell.Vm.fault_end mappages unix_c_shell.Vm.set_pte
fault_test = refl
