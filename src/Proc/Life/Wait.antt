-- ===== src/Proc/Life/Wait.antt =====
-- Waiting for a child.
use native.Mathlib.Nat.{add-zero}
use unix_c_shell.Common.{
  ℕ, zero, suc, ◌+◌, ◌≡◌, ◌≢◌, refl, ap, ◌∙◌, Bool, true, false, ◌&&◌, none, some, List, [], ◌∷◌,
  All, take, set, get_elem?, ◌==◌, if◌then◌else◌, arith, ◌⊎◌, inl, inr, Bool-cases,
}
use unix_c_shell.Proc.{Proc, Kernel, unused, is_zombie}
use unix_c_shell.Proc.Sleep.{sleep_prepare, modify}
use unix_c_shell.Proc.Life.{Services, same_proc, freeproc, Scan, wait_scan, Waited, kwait}

abbrev pub is_child : ℕ → Proc → Bool
is_child i p = same_proc p.parent i

abbrev pub is_dead_child : ℕ → Proc → Bool
is_dead_child i p = is_child i p && is_zombie p.state

wait_scan-dead :
    (i j : ℕ) (ps : List Proc) (l : ℕ) (pp : Proc)
    → get_elem? ps l ≡ some pp
    → is_dead_child i pp ≡ true
    → All (λ q. is_dead_child i q ≡ false) (take l ps)
    → wait_scan i j ps ≡ Scan.dead (j + l) pp
unfolding wait_scan
wait_scan-dead i j [] l pp g d h = absurd (cc)
wait_scan-dead i j (q ∷ ps) zero pp g d h = let e : q ≡ pp = cc in rw (e, add-zero) (ground arith)
wait_scan-dead i j (q ∷ ps) (suc l) pp g d h =
    let s : j + 1 + l ≡ j + suc l = omega arith in
    ground (arith, wait_scan-dead i (j + 1) ps l pp g d h.1)

-- With no dead child the scan tells whether there is a child at all.
wait_scan-alive :
    (i j : ℕ) (ps : List Proc)
    → All (λ q. is_dead_child i q ≡ false) ps
    → (wait_scan i j ps ≡ Scan.childless) × All (λ q. is_child i q ≡ false) ps
      ⊎ (wait_scan i j ps ≡ Scan.alive)
        × ((l : ℕ) × (q : Proc) × (get_elem? ps l ≡ some q) × (is_child i q ≡ true))
unfolding wait_scan
wait_scan-alive i j [] h = inl (refl, tt)
wait_scan-alive i j (q ∷ ps) h = elim (Bool-cases (is_child i q)) [
  | inl c ↦ elim (wait_scan-alive i (j + 1) ps h.1) [
    | inl (e, _) ↦ inr (ground arith, (0, q, refl, c))
    | inr (e, _) ↦ inr (ground arith, (0, q, refl, c))
  ]
  | inr c ↦ elim (wait_scan-alive i (j + 1) ps h.1) [
    | inl (e, a) ↦ inl (ground arith, (c, a))
    | inr (e, (l, r, g, d)) ↦ inr (ground arith, (suc l, r, g, d))
  ]
]

module _ {M : Type 0} (s : Services M) where
  freeproc_lem :
      (p : Proc) (m : M)
      → ((freeproc s p m).0.state ≡ unused)
        × ((freeproc s p m).0.pid ≡ 0)
        × ((freeproc s p m).0.parent ≡ p.parent)
  unfolding freeproc
  freeproc_lem p m = (refl, refl, refl)

  -- The first dead child is reaped: its pid is returned and its slot is free, with no parent. The
  -- other processes are as before. It needs the status delivered, if an address is given.
  pub kwait_reaps :
      (i : ℕ) (p : Proc) (addr : ℕ) (k : Kernel) (m : M) (j : ℕ) (pp : Proc)
      → get_elem? k.procs j ≡ some pp
      → is_dead_child i pp ≡ true
      → All (λ q. is_dead_child i q ≡ false) (take j k.procs)
      → (addr ≡ 0) ⊎ ((s.copyout p.pagetable p.sz addr pp.xstate m).0 ≡ true)
      → ((kwait s i p addr k m).0 ≡ Waited.reaped pp.pid)
        × ((freed : Proc) × ((kwait s i p addr k m).1.procs ≡ set k.procs j freed)
            × (freed.state ≡ unused)
            × (freed.pid ≡ 0)
            × (freed.parent ≡ none))
  unfolding kwait
  kwait_reaps i p addr k m j pp g d h ok =
      let z : 0 + j ≡ j = omega arith in
      let e = wait_scan-dead i 0 k.procs j pp g d h ∙ ap (λ l. Scan.dead l pp) z in
      let m' = if addr == 0 then m else (s.copyout p.pagetable p.sz addr pp.xstate m).1 in
      let f = freeproc_lem (record pp { parent = none }) m' in
      (ground arith, ((freeproc s (record pp { parent = none }) m').0, ground arith, f.0, f.1, f.2))

  -- With no dead child, and an address of the process that is not null, a pass changes nothing and fails if there is no child or the process is
  -- killed; otherwise the process waits on its own address.
  pub kwait_waits :
      (i : ℕ) (p : Proc) (addr : ℕ) (k : Kernel) (m : M)
      → s.proc_addr i ≢ 0
      → All (λ q. is_dead_child i q ≡ false) k.procs
      → (kwait s i p addr k m ≡ (Waited.failed, k, m))
          × (All (λ q. is_child i q ≡ false) k.procs ⊎ (p.killed ≢ 0))
        ⊎ (p.killed ≡ 0)
          × ((l : ℕ) × (q : Proc) × (get_elem? k.procs l ≡ some q) × (is_child i q ≡ true))
          × ((k' : Kernel) × (sleep_prepare i (s.proc_addr i) k ≡ some k')
              × (kwait s i p addr k m ≡ (Waited.sleeps, k', m)))
  unfolding kwait sleep_prepare
  kwait_waits i p addr k m ne h = elim (wait_scan-alive i 0 k.procs h) [
    | inl (e, none_left) ↦ inl (ground arith, inl none_left)
    | inr (e, child) ↦ elim (Bool-cases (p.killed == 0)) [
      | inl alive ↦ inr (ground arith, child, (waiting, ground arith, ground arith))
      | inr dead ↦ inl (ground arith, inr (ground arith))
    ]
  ]
    where
      waiting : Kernel
      waiting = record k { procs = modify i (λ q. record q { chan = s.proc_addr i }) k.procs }
