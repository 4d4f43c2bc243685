-- ===== src/Proc/Life/Exit.antt =====
-- Exit: the dead process, and its children.
use native.Mathlib.Decide.{ℕ_discrete}
use unix_c_shell.Common.{
  ℕ, zero, suc, ◌+◌, ◌<◌, ◌≡◌, ◌≢◌, refl, sym, ap, ◌∙◌, false, none, some, All, set, get_elem?,
  get_elem?-set_self, get_elem?-lt, get_elem?-some, All-tabulate, ==_ne, if◌then◌else◌, arith, ◌⊎◌,
  inl, inr, Bool-cases, Option-cases, length, length-set,
}
use unix_c_shell.Proc.{Proc, Kernel, zombie, nproc}
use unix_c_shell.Proc.Sleep.{wakeup, wakeup_one}
use unix_c_shell.Proc.Inv.{length-sweep}
use unix_c_shell.Proc.Sleep.Wakeups.{wakeup-Woken_inv}
use unix_c_shell.Proc.Life.{
  Services, same_proc, reparent_one, reparent_from, close_files, closed, parent_addr, orphaned,
  kexit,
}
use unix_c_shell.Proc.Life.Alloc.{get_elem?-set_cases}

-- The process at index `l`, if there is one, is no child of `i`.
abbrev NotChild : ℕ → ℕ → Kernel → Type 0
NotChild i l k = (p : Proc) → get_elem? k.procs l ≡ some p → same_proc p.parent i ≡ false

wakeup-NotChild : (c i l : ℕ) (k : Kernel) → NotChild i l k → NotChild i l (wakeup c k)
wakeup-NotChild c i l k h p' g' =
    let (p, g, w) = wakeup-Woken_inv c k l p' g' in
    let e : p'.parent ≡ p.parent = ground arith in ap (λ o. same_proc o i) e ∙ h p g

length-wakeup : (c : ℕ) (k : Kernel) → length (wakeup c k).procs ≡ length k.procs
unfolding wakeup
length-wakeup c k = length-sweep (wakeup_one c) k.procs k.mlfq_seq_counter

wakeup-initproc : (c : ℕ) (k : Kernel) → (wakeup c k).initproc ≡ k.initproc
unfolding wakeup
wakeup-initproc c k = refl

set-NotChild :
    (i l j : ℕ) (k : Kernel) (v : Proc)
    → same_proc v.parent i ≡ false
    → NotChild i l k ⊎ (l ≡ j)
    → NotChild i l (record k { procs = set k.procs j v })
set-NotChild i l j k v h old p g = elim (get_elem?-set_cases k.procs j l v p g) [
  | inl (_, e) ↦ ap (λ (x : Proc). same_proc x.parent i) e ∙ h
  | inr (ne, g') ↦ elim old [ inl f ↦ f p g' | inr e ↦ absurd (ne e) ]
]

NotChild-of_none :
    (i l j : ℕ) (k : Kernel)
    → get_elem? k.procs j ≡ none
    → NotChild i l k ⊎ (l ≡ j)
    → NotChild i l k
NotChild-of_none i l j k e (inl h) p g = h p g
NotChild-of_none i l j k e (inr same) p g =
    let g' : get_elem? k.procs j ≡ some p = rw (← same) g in absurd (cc)

NotChild-of_some :
    (i l j : ℕ) (k : Kernel) (q : Proc)
    → get_elem? k.procs j ≡ some q
    → same_proc q.parent i ≡ false
    → NotChild i l k ⊎ (l ≡ j)
    → NotChild i l k
NotChild-of_some i l j k q e c (inl h) p g = h p g
NotChild-of_some i l j k q e c (inr same) p g =
    let g' : get_elem? k.procs j ≡ some p = rw (← same) g in let q' : q ≡ p = cc in rw q' at c

module _ {M : Type 0} (s : Services M) where
  reparent_one-NotChild :
      (l j i : ℕ) (k : Kernel)
      → k.initproc ≢ i
      → NotChild i l k ⊎ (l ≡ j)
      → NotChild i l (reparent_one s j i k)
  unfolding reparent_one
  reparent_one-NotChild l j i k ne h = elim (Option-cases (get_elem? k.procs j)) [
    | inl e ↦ rw (e, reparent_one) (NotChild-of_none i l j k e h)
    | inr (pp, e) ↦ elim (Bool-cases (same_proc pp.parent i)) [
      | inl c ↦
          rw (e, reparent_one)
            (rw (c, if◌then◌else◌)
              (wakeup-NotChild _ i l _ (set-NotChild i l j k _ (==_ne k.initproc i ne) h)))
      | inr c ↦ rw (e, reparent_one) (rw (c, if◌then◌else◌) (NotChild-of_some i l j k pp e c h))
    ]
  ]

  initproc-reparent_one : (j i : ℕ) (k : Kernel) → (reparent_one s j i k).initproc ≡ k.initproc
  unfolding reparent_one
  initproc-reparent_one j i k = elim (Option-cases (get_elem? k.procs j)) [
    | inl e ↦ rw (e, reparent_one)
    | inr (pp, e) ↦ elim (Bool-cases (same_proc pp.parent i)) [
      | inl c ↦ rw (e, reparent_one) (rw (c, if◌then◌else◌) (wakeup-initproc _ _))
      | inr c ↦ rw (e, reparent_one) (rw (c, if◌then◌else◌))
    ]
  ]

  -- No child of `i` is left in the part of the table that the loop went through.
  reparent_from-NotChild :
      (n j i : ℕ) (k : Kernel)
      → k.initproc ≢ i
      → ((l : ℕ) → l < j → NotChild i l k)
      → (l : ℕ) → l < j + n
      → NotChild i l (reparent_from s n j i k)
  unfolding reparent_from
  reparent_from-NotChild zero j i k ne h l lt = h l (omega arith)
  reparent_from-NotChild (suc n) j i k ne h l lt =
      reparent_from-NotChild n (j + 1) i (reparent_one s j i k)
        (λ e. ne (sym (initproc-reparent_one j i k) ∙ e))
        (λ l' lt'. elim (ℕ_discrete l' j) [
          | yes e ↦ reparent_one-NotChild l' j i k ne (inr e)
          | no e ↦ reparent_one-NotChild l' j i k ne (inl (h l' (omega arith)))
        ])
        l (omega arith)

  length-reparent_one :
      (j i : ℕ) (k : Kernel) → length (reparent_one s j i k).procs ≡ length k.procs
  unfolding reparent_one
  length-reparent_one j i k = elim (Option-cases (get_elem? k.procs j)) [
    | inl e ↦ rw (e, reparent_one)
    | inr (pp, e) ↦ elim (Bool-cases (same_proc pp.parent i)) [
      | inl c ↦
          rw (e, reparent_one)
            (rw (c, if◌then◌else◌)
              (length-wakeup _ _ ∙ length-set k.procs j (record pp { parent = some k.initproc })))
      | inr c ↦ rw (e, reparent_one) (rw (c, if◌then◌else◌))
    ]
  ]

  length-reparent_from :
      (n j i : ℕ) (k : Kernel) → length (reparent_from s n j i k).procs ≡ length k.procs
  unfolding reparent_from
  length-reparent_from zero j i k = refl
  length-reparent_from (suc n) j i k =
      length-reparent_from n (j + 1) i (reparent_one s j i k) ∙ length-reparent_one j i k

  length-orphaned :
      (i : ℕ) (p : Proc) (k : Kernel) → length (orphaned s i p k).procs ≡ length k.procs
  unfolding orphaned
  length-orphaned i p k =
      length-wakeup _ _ ∙ length-reparent_from nproc 0 i _ ∙ length-set k.procs i _

  orphaned-NotChild :
      (i : ℕ) (p : Proc) (k : Kernel)
      → length k.procs ≡ nproc
      → k.initproc ≢ i
      → (l : ℕ) → NotChild i l (orphaned s i p k)
  unfolding orphaned
  orphaned-NotChild i p k size ne l q g =
      let lt = get_elem?-lt (orphaned s i p k).procs l q g in
      let k1 = record k { procs = set k.procs i (closed p) } in
      let lt' : l < nproc = omega (arith, length-orphaned i p k) in
      wakeup-NotChild (parent_addr s p.parent) i l (reparent_from s nproc 0 i k1)
        (reparent_from-NotChild nproc 0 i k1 ne (λ l' none_yet. absurd (omega arith)) l
          (omega arith))
        q g

  -- In a full table a process other than init always exits: it is a zombie with its status, and no process of the
  -- table is its child any more.
  pub kexit_lem :
      (i : ℕ) (p : Proc) (status : ℕ) (k : Kernel) (m : M)
      → length k.procs ≡ nproc
      → i < nproc
      → i ≢ k.initproc
      → (k' : Kernel) × (m' : M) × (kexit s i p status k m ≡ some (k', m'))
        × ((q : Proc) × (get_elem? k'.procs i ≡ some q) × (q.state ≡ zombie) × (q.xstate ≡ status))
        × All (λ (q : Proc). same_proc q.parent i ≡ false) k'.procs
  unfolding kexit
  kexit_lem i p status k m size lt ne =
      let k1 = orphaned s i p k in
      let (q, g) = get_elem?-some k1.procs i (omega (arith, length-orphaned i p k)) in
      let q' = record q { xstate = status; state = zombie } in
      let old = orphaned-NotChild i p k size (λ e. ne (sym e)) in
      (
        record k1 { procs = set k1.procs i q' },
        s.iput p.cwd (close_files s p.ofile m),
        rw (==_ne i k.initproc ne, kexit) (rw (g, kexit)),
        (q', get_elem?-set_self k1.procs i q' (get_elem?-lt k1.procs i q g), refl, refl),
        All-tabulate _ (set k1.procs i q')
            (λ l. set-NotChild i l i k1 q' (old i q g) (inl (old l))),
      )
