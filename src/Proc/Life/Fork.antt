-- ===== src/Proc/Life/Fork.antt =====
-- What fork makes of the table.
use mathlib.Core.Path.{subst}
use unix_c_shell.Common.{
  ℕ, ◌<◌, ◌≡◌, ◌≢◌, sym, ap, ◌∙◌, true, Option, some, All, take, set, get_elem?, get_elem?-set_self,
  get_elem?-set_ne, get_elem?-lt, ◌==◌, arith, ◌⊎◌, inl, inr, Bool-cases, length, length-set,
  take-set,
}
use unix_c_shell.Proc.{Proc, Kernel, runnable, is_unused}
use unix_c_shell.Proc.Sleep.{kkill}
use unix_c_shell.Proc.Sleep.Killing.{Other, kkill_found}
use unix_c_shell.Proc.Life.{Services, allocpid, init_proc, make_child, fork_into, kfork}
use unix_c_shell.Proc.Life.Alloc.{IsLive, find_unused-first, init_proc_lem, allocproc_cases}

-- The child of the process `p` at index `i`, made from the allocated process `np`.
pub record IsChild (i : ℕ) (p np : Proc) (seq : ℕ) (child : Proc) : Type 0 where
  pub state : child.state ≡ runnable
  pub pid : child.pid ≡ np.pid
  pub parent : child.parent ≡ some i
  pub sz : child.sz ≡ p.sz
  pub cwd : child.cwd ≡ p.cwd
  pub queue : child.mlfq_priority ≡ np.mlfq_priority
  pub slice : child.mlfq_ticks_used ≡ 0
  pub arrived : child.mlfq_qtime ≡ seq
  pub killed : child.killed ≡ np.killed

module _ {M : Type 0} (s : Services M) where
  make_child-IsChild :
      (i : ℕ) (p np : Proc) (seq : ℕ) (m : M) → IsChild i p np seq (make_child s i p np seq m).0
  unfolding make_child
  make_child-IsChild i p np seq m = ground arith

  fork_into_lem :
      (i : ℕ) (p : Proc) (j : ℕ) (np : Proc) (k : Kernel) (m : M) (pid : ℕ)
      → (fork_into s i p j np k m).0 ≡ some pid
      → (pid ≡ np.pid)
        × ((child : Proc) × ((fork_into s i p j np k m).1.procs ≡ set k.procs j child)
            × IsChild i p np k.mlfq_seq_counter child)
  unfolding fork_into
  fork_into_lem i p j np k m pid h =
      let m1 = (s.uvmcopy p.pagetable np.pagetable p.sz m).1 in
      (
        ground arith,
        (
          (make_child s i p np k.mlfq_seq_counter m1).0,
          ground arith,
          make_child-IsChild i p np k.mlfq_seq_counter m1,
        ),
      )

  kfork_cases :
      (i : ℕ) (p : Proc) (k : Kernel) (m : M) (pid : ℕ)
      → (kfork s i p k m).0 ≡ some pid
      → (j : ℕ) × (old : Proc) × (get_elem? k.procs j ≡ some old)
        × (is_unused old.state ≡ true)
        × All IsLive (take j k.procs)
        × ((init_proc s k.nextpid old m).0 ≡ true)
        × (kfork s i p k m
            ≡ fork_into s i p j
                (init_proc s k.nextpid old m).1
                (record k {
                  procs = set k.procs j (init_proc s k.nextpid old m).1;
                  nextpid = (allocpid k.nextpid).1;
                })
                (init_proc s k.nextpid old m).2)
  unfolding kfork allocpid
  kfork_cases i p k m pid h = elim (allocproc_cases s k m) [
    | inl e ↦ absurd (ground arith)
    | inr (j, old, g, u, live, e) ↦
        let at_j =
          get_elem?-set_self k.procs j (init_proc s k.nextpid old m).1
            (get_elem?-lt k.procs j old g) in
        elim (Bool-cases (init_proc s k.nextpid old m).0) [
          | inl d ↦ (j, old, g, u, live, d, ground arith)
          | inr d ↦ absurd (ground arith)
        ]
  ]

  -- A fork that returns a pid filled the first unused slot with a runnable child of that fresh pid, which
  -- stands at the tail of queue 0 with a full slice, and changed no other process.
  pub kfork_lem :
      (i : ℕ) (p : Proc) (k : Kernel) (m : M) (pid : ℕ)
      → (kfork s i p k m).0 ≡ some pid
      → (j : ℕ) × (old child : Proc) × (get_elem? k.procs j ≡ some old)
        × (is_unused old.state ≡ true)
        × All IsLive (take j k.procs)
        × (get_elem? (kfork s i p k m).1.procs j ≡ some child)
        × (pid ≡ k.nextpid)
        × IsChild i p (record old { pid = pid; mlfq_priority = 0 }) k.mlfq_seq_counter child
        × ((l : ℕ) → (j ≡ l) ⊎ (get_elem? (kfork s i p k m).1.procs l ≡ get_elem? k.procs l))
  kfork_lem i p k m pid h =
      let (j, old, g, u, live, d, e) = kfork_cases i p k m pid h in
      let np = (init_proc s k.nextpid old m).1 in
      let next = record k { procs = set k.procs j np; nextpid = (allocpid k.nextpid).1 } in
      let m1 = (init_proc s k.nextpid old m).2 in
      let (same, (child, table, is_child)) =
        fork_into_lem i p j np next m1 pid (subst returns e h) in
      let n = init_proc_lem s k.nextpid old m in
      let procs' = ap (λ (r : Option ℕ × Kernel × M). r.1.procs) e ∙ table in
      let lt : j < length (set k.procs j np) =
        omega (arith, get_elem?-lt k.procs j old g, length-set k.procs j np) in
      (
        j,
        old,
        child,
        g,
        u,
        live,
        ap (λ ps. get_elem? ps j) procs' ∙ get_elem?-set_self (set k.procs j np) j child lt,
        ground arith,
        ground arith,
        λ l. elim (Bool-cases (j == l)) [
          | inl here ↦ inl (ground arith)
          | inr there ↦
              let ne : j ≢ l = ground arith in
              inr (
                ap (λ ps. get_elem? ps l) procs'
                ∙ get_elem?-set_ne (set k.procs j np) j l child ne
                ∙ get_elem?-set_ne k.procs j l np ne)
        ],
      )
    where
      returns : Option ℕ × Kernel × M → Type 0
      returns r = r.0 ≡ some pid

  -- Killing pid 0 succeeds if the first process of pid 0 is the first unused slot, and marks that slot: if
  -- the next fork returns a pid, its child is in that slot and killed before it first runs.
  pub kfork_born_killed :
      (i : ℕ) (p : Proc) (k : Kernel) (m : M) (pid j : ℕ) (free : Proc)
      → get_elem? k.procs j ≡ some free
      → is_unused free.state ≡ true
      → free.pid ≡ 0
      → All (Other 0) (take j k.procs)
      → All IsLive (take j k.procs)
      → (kfork s i p (kkill 0 k).0 m).0 ≡ some pid
      → ((kkill 0 k).1 ≡ true)
        × ((child : Proc) × (get_elem? (kfork s i p (kkill 0 k).0 m).1.procs j ≡ some child)
            × (child.killed ≡ 1))
  kfork_born_killed i p k m pid j free g u zero_pid others live h =
      let (marked, table, found, dead, _, awake) = kkill_found 0 k j free g zero_pid others in
      let marked_lem : marked ≡ record free { killed = 1 } = elim awake [
        | inl (_, same) ↦ same
        | inr (asleep, _) ↦ absurd (ground arith)
      ] in
      let lt = get_elem?-lt k.procs j free g in
      let at_j = ap (λ ps. get_elem? ps j) table ∙ get_elem?-set_self k.procs j marked lt in
      let before = ap (take j) table ∙ take-set k.procs j marked in
      let (j', old, child, g', u', live', at_j', _, is_child, _) =
        kfork_lem i p (kkill 0 k).0 m pid h in
      let here =
        find_unused-first 0 (kkill 0 k).0.procs j marked at_j (ground arith)
          (subst (All IsLive) (sym before) live) in
      let there = find_unused-first 0 (kkill 0 k).0.procs j' old g' u' live' in
      let same : j ≡ j' = ground arith in
      let same_old : marked ≡ old = ground arith in
      (
        found,
        (child, rw same at_j', is_child.killed ∙ ap (λ (x : Proc). x.killed) (sym same_old) ∙ dead),
      )
