-- ===== src/Proc/Life/Alloc.antt =====
-- Allocation of a process, fork, and the numbering of processes.
use mathlib.Core.Path.{subst}
use native.Mathlib.Nat.{add-zero}
use unix_c_shell.Common.{
  ℕ, zero, suc, ◌+◌, ◌^◌, ◌%◌, ◌≤◌, ◌<◌, ◌≡◌, ◌≢◌, refl, sym, ap, ◌∙◌, true, false, Option, none,
  some, List, [], ◌∷◌, All, take, set, get_elem?, if◌then◌else◌, arith, ◌⊎◌, inl, inr, Bool-cases,
  Option-cases,
}
use unix_c_shell.Proc.{Proc, Kernel, unused, used, is_unused}
use unix_c_shell.Proc.Life.{Services, find_unused, allocpid, init_proc, allocproc}

abbrev pub IsLive : Proc → Type 0
IsLive p = is_unused p.state ≡ false

find_unused-some :
    (n : ℕ) (ps : List Proc) (i : ℕ) (p : Proc)
    → find_unused n ps ≡ some (i, p)
    → (j : ℕ) × (i ≡ n + j)
      × (get_elem? ps j ≡ some p)
      × (is_unused p.state ≡ true)
      × All IsLive (take j ps)
unfolding find_unused
find_unused-some n [] i p h = cc
find_unused-some n (q ∷ ps) i p h = elim (Bool-cases (is_unused q.state)) [
  | inl e ↦ (0, ground arith, ground arith, ground arith, tt)
  | inr e ↦
      let (j, s, g, u, l) = find_unused-some (n + 1) ps i p (ground arith) in
      (suc j, omega arith, g, u, (e, l))
]

-- The converse: the first unused slot is the one that is found.
pub find_unused-first :
    (n : ℕ) (ps : List Proc) (j : ℕ) (p : Proc)
    → get_elem? ps j ≡ some p
    → is_unused p.state ≡ true
    → All IsLive (take j ps)
    → find_unused n ps ≡ some (n + j, p)
unfolding find_unused
find_unused-first n [] j p g u l = absurd (cc)
find_unused-first n (q ∷ ps) zero p g u l = let e : q ≡ p = cc in rw (e, u, add-zero)
find_unused-first n (q ∷ ps) (suc j) p g u l =
    let s : n + 1 + j ≡ n + suc j = omega arith in
    rw (l.0, ← s) (find_unused-first (n + 1) ps j p g u l.1)

-- Every live process has a pid below `nextpid`, and no two live processes have the same.
pub record IsNumbered (procs : List Proc) (nextpid : ℕ) : Type 0 where
  pub below : (i : ℕ) (p : Proc) → get_elem? procs i ≡ some p → IsLive p → p.pid < nextpid
  pub apart :
      (i j : ℕ) (p q : Proc)
      → get_elem? procs i ≡ some p
      → get_elem? procs j ≡ some q
      → IsLive p
      → IsLive q
      → p.pid ≡ q.pid
      → i ≡ j

-- What stands at an index after a write: the new value, or what stood there before.
pub get_elem?-set_cases :
    (procs : List Proc) (j i : ℕ) (v p : Proc)
    → get_elem? (set procs j v) i ≡ some p
    → (i ≡ j) × (p ≡ v) ⊎ (i ≢ j) × (get_elem? procs i ≡ some p)
get_elem?-set_cases [] j i v p g = absurd (cc)
get_elem?-set_cases (q ∷ ps) zero zero v p g = inl (refl, cc)
get_elem?-set_cases (q ∷ ps) zero (suc i) v p g = inr (omega arith, g)
get_elem?-set_cases (q ∷ ps) (suc j) zero v p g = inr (omega arith, g)
get_elem?-set_cases (q ∷ ps) (suc j) (suc i) v p g = elim (get_elem?-set_cases ps j i v p g) [
  | inl (e, f) ↦ inl (omega arith, f)
  | inr (e, f) ↦ inr (omega arith, f)
]

-- A write keeps the numbering if the new process is free, keeps the pid of a live one, or has a
-- fresh pid.
pub IsNumbered-set :
    (procs : List Proc) (next next' j : ℕ) (v : Proc)
    → IsNumbered procs next
    → next ≤ next'
    → (IsLive v
        → (next ≤ v.pid) × (v.pid < next')
          ⊎ ((p : Proc) × (get_elem? procs j ≡ some p) × IsLive p × (p.pid ≡ v.pid)))
    → IsNumbered (set procs j v) next'
IsNumbered-set procs next next' j v n le fresh = record {
  below = λ i p g live. elim (get_elem?-set_cases procs j i v p g) [
    | inl (_, e) ↦ elim (fresh (subst IsLive e live)) [
      | inl (_, h) ↦ let e' = ap (λ (x : Proc). x.pid) e in omega arith
      | inr (q, gq, lq, same) ↦
          let e' = ap (λ (x : Proc). x.pid) e in omega (arith, n.below j q gq lq)
    ]
    | inr (_, g') ↦ omega (arith, n.below i p g' live)
  ];
  apart = λ a b p q ga gb lp lq same. elim (get_elem?-set_cases procs j a v p ga) [
    | inl (ea, ep) ↦ elim (get_elem?-set_cases procs j b v q gb) [
      | inl (eb, _) ↦ ea ∙ sym eb
      | inr (nb, gb') ↦
          absurd
            (nb (old b q gb' lq (sym (ap (λ (x : Proc). x.pid) ep) ∙ same) (subst IsLive ep lp)))
    ]
    | inr (na, ga') ↦ elim (get_elem?-set_cases procs j b v q gb) [
      | inl (eb, eq) ↦
          absurd (
            na (old a p ga' lp (sym (ap (λ (x : Proc). x.pid) eq) ∙ sym same) (subst IsLive eq lq)))
      | inr (_, gb') ↦ n.apart a b p q ga' gb' lp lq same
    ]
  ];
}
  where
    old :
        (b : ℕ) (q : Proc)
        → get_elem? procs b ≡ some q
        → IsLive q
        → v.pid ≡ q.pid
        → IsLive v
        → b ≡ j
    old b q g lq same lv = elim (fresh lv) [
      | inl (lo, _) ↦ absurd (omega (arith, n.below b q g lq))
      | inr (r, gr, lr, e) ↦ sym (n.apart j b r q gr g lr lq (e ∙ same))
    ]

module _ {M : Type 0} (s : Services M) where
  -- What `init_proc` makes of an unused slot: a process with the pid and a place on queue 0, or a
  -- free slot.
  pub init_proc_lem :
      (pid : ℕ) (p : Proc) (m : M)
      → let (done, p', m') = init_proc s pid p m in
        (done ≡ true)
          × (p'.state ≡ used)
          × (p'.pid ≡ pid)
          × (p'.mlfq_priority ≡ 0)
          × (p'.mlfq_ticks_used ≡ 0)
          × (p'.killed ≡ p.killed)
        ⊎ (done ≡ false) × (p'.state ≡ unused) × (p'.pid ≡ 0)
  unfolding init_proc
  init_proc_lem pid p m = ground arith

  -- The slot, the process that `allocproc` leaves there, and the rest of the state.
  abbrev pub allocated : Kernel → M → ℕ → Proc → Option ℕ × Kernel × M
  allocated k m i p =
      let (done, p', m') = init_proc s (allocpid k.nextpid).0 p m in
      (
        if done then some i else none,
        record k { procs = set k.procs i p'; nextpid = (allocpid k.nextpid).1 },
        m',
      )

  pub allocproc_cases :
      (k : Kernel) (m : M)
      → (allocproc s k m ≡ (none, k, m))
        ⊎ ((i : ℕ) × (p : Proc) × (get_elem? k.procs i ≡ some p)
            × (is_unused p.state ≡ true)
            × All IsLive (take i k.procs)
            × (allocproc s k m ≡ allocated k m i p))
  unfolding allocproc
  allocproc_cases k m = elim (Option-cases (find_unused 0 k.procs)) [
    | inl e ↦ inl (rw (e, allocproc))
    | inr ((i, p), e) ↦
        let (j, same, g, u, l) = find_unused-some 0 k.procs i p e in
        let same' : j ≡ i = omega arith in
        inr (i, p, rw (← same') g, u, rw (← same') l, rw (e, allocproc))
  ]

  -- Allocation keeps the pids of live processes different and below `nextpid`, whether it succeeds or not,
  -- while `nextpid` does not wrap.
  pub allocproc-IsNumbered :
      (k : Kernel) (m : M)
      → IsNumbered k.procs k.nextpid
      → k.nextpid + 1 < 2 ^ 32
      → let (_, k', _) = allocproc s k m in IsNumbered k'.procs k'.nextpid
  unfolding allocpid
  allocproc-IsNumbered k m n h = elim (allocproc_cases k m) [
    | inl e ↦ subst numbered (sym e) n
    | inr (i, p, g, u, l, e) ↦
        let q = (init_proc s k.nextpid p m).1 in
        let q_lem = init_proc_lem k.nextpid p m in
        let fresh : IsLive q → (k.nextpid ≤ q.pid) × (q.pid < (k.nextpid + 1) % 2 ^ 32) =
          λ live. ground arith in
        subst numbered (sym e) (
          IsNumbered-set k.procs k.nextpid ((k.nextpid + 1) % 2 ^ 32) i q n (omega arith)
            (λ live. inl (fresh live)))
  ]
    where
      numbered : Option ℕ × Kernel × M → Type 0
      numbered r = IsNumbered r.1.procs r.1.nextpid
