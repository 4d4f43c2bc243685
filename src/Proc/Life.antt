-- ===== src/Proc/Life.antt =====
-- xv6/kernel/proc.c: the life cycle of a process. The functions of kalloc.c, vm.c, file.c and fs.c
-- that it calls come as a record of operations on a state `M`; the saved contexts are left out.
pub mod Alloc
pub mod Exit
pub mod Wait
pub mod Fork
use unix_c_shell.Common.{
  ℕ, zero, suc, ◌+◌, ◌%◌, ◌^◌, Bool, true, false, not, ◌&&◌, Option, none, some, List, [], ◌∷◌,
  ◌==◌, if◌then◌else◌, get_elem?, set, take, map,
}
use unix_c_shell.Proc.{Proc, nproc, unused, used, runnable, zombie, Kernel, is_unused, is_zombie}
use unix_c_shell.Proc.Mlfq.{mlfq_enqueue}
use unix_c_shell.Proc.Sleep.{wakeup, sleep_prepare}

-- What the life cycle asks of the rest of the kernel. An address 0 is null.
pub record Services (M : Type 0) : Type 0 where
  pub kalloc : M → ℕ × M
  pub kfree : ℕ → M → M
  pub proc_pagetable : Proc → M → ℕ × M
  pub proc_freepagetable : (pagetable sz : ℕ) → M → M
  pub uvmcopy : (old new sz : ℕ) → M → Bool × M
  pub copy_trapframe : (to from : ℕ) → M → M
  pub filedup : ℕ → M → M
  pub fileclose : ℕ → M → M
  pub idup : Option ℕ → M → M
  pub iput : Option ℕ → M → M
  pub copyout : (pagetable sz addr value : ℕ) → M → Bool × M
  pub proc_addr : ℕ → ℕ

-- The pid that `allocpid` returns, and the new `nextpid`, a 32-bit int.
unfoldable pub allocpid : ℕ → ℕ × ℕ
allocpid nextpid = (nextpid, (nextpid + 1) % 2 ^ 32)

-- The loop of `allocproc`: the first UNUSED process from index `i`.
unfoldable pub find_unused : ℕ → List Proc → Option (ℕ × Proc)
find_unused i [] = none
find_unused i (p ∷ ps) = if is_unused p.state then some (i, p) else find_unused (i + 1) ps

abbrev pub same_proc : Option ℕ → ℕ → Bool
same_proc none i = false
same_proc (some j) i = j == i

-- Some child not yet dead, or none, or a dead one with its index.
pub data Scan : Type 0 where
  childless : Scan
  alive : Scan
  dead : ℕ → Proc → Scan

-- The scan of `kwait` for children of `i`, from index `j` on: it stops at the first dead one.
unfoldable pub wait_scan : (i j : ℕ) → List Proc → Scan
wait_scan i j [] = Scan.childless
wait_scan i j (pp ∷ ps) =
    if same_proc pp.parent i
    then (if is_zombie pp.state then Scan.dead j pp else (elim (wait_scan i (j + 1) ps) [
      | childless ↦ Scan.alive
      | alive ↦ Scan.alive
      | dead l q ↦ Scan.dead l q
    ]))
    else wait_scan i (j + 1) ps

-- A pass through the loop of `kwait`: it returns -1, a pid, or goes to sleep and starts again.
pub data Waited : Type 0 where
  failed : Waited
  reaped : ℕ → Waited
  sleeps : Waited
  panics : Waited

-- A process with its files and its directory closed.
abbrev pub closed : Proc → Proc
closed p = record p { ofile = map (λ _. none) p.ofile; cwd = none }

module _ {M : Type 0} (s : Services M) where
  open s use {
    kalloc, kfree, proc_pagetable, proc_freepagetable, uvmcopy, copy_trapframe, filedup, fileclose,
    idup, iput, copyout, proc_addr,
  }

  unfoldable pub freeproc : Proc → M → Proc × M
  freeproc p m =
      let m1 = if p.trapframe == 0 then m else kfree p.trapframe m in
      let m2 = if p.pagetable == 0 then m1 else proc_freepagetable p.pagetable p.sz m1 in
      (
        record p {
          trapframe = 0;
          pagetable = 0;
          sz = 0;
          pid = 0;
          name = [];
          chan = 0;
          killed = 0;
          xstate = 0;
          state = unused;
        },
        m2,
      )

  -- `allocproc` after its label `found`: whether it succeeded, and the process.
  unfoldable pub init_proc : ℕ → Proc → M → Bool × Proc × M
  unfolding freeproc
  init_proc pid p m =
      let p1 = record p {
        pid = pid;
        state = used;
        mlfq_priority = 0;
        mlfq_ticks_used = 0;
        mlfq_qtime = 0;
      } in
      let (tf, m1) = kalloc m in
      let p2 = record p1 { trapframe = tf } in
      let (pt, m2) = proc_pagetable p2 m1 in
      let p3 = record p2 { pagetable = pt } in
      if tf == 0
      then (let (p', m') = freeproc p2 m1 in (false, p', m'))
      else if pt == 0
      then (let (p', m') = freeproc p3 m2 in (false, p', m'))
      else (true, p3, m2)

  -- The index of the process, or `none` for 0.
  unfoldable pub allocproc : Kernel → M → Option ℕ × Kernel × M
  unfolding allocpid find_unused init_proc
  allocproc k m = elim (find_unused 0 k.procs) [
    | none ↦ (none, k, m)
    | some (i, p) ↦
        let (pid, next) = allocpid k.nextpid in
        let (done, p', m') = init_proc pid p m in
        (if done then some i else none, record k { procs = set k.procs i p'; nextpid = next }, m')
  ]

  -- The loop of `kfork` on the open files: a null entry of the parent leaves the child's as it is.
  unfoldable pub dup_files : (parent child : List (Option ℕ)) → M → List (Option ℕ) × M
  dup_files [] cs m = (cs, m)
  dup_files (f ∷ fs) [] m = ([], m)
  dup_files (none ∷ fs) (c ∷ cs) m = let (cs', m') = dup_files fs cs m in (c ∷ cs', m')
  dup_files (some f ∷ fs) (c ∷ cs) m =
      let (cs', m') = dup_files fs cs (filedup f m) in (some f ∷ cs', m')

  -- `kfork` after the copy of the memory: the child of the process `p` at index `i`.
  unfoldable pub make_child : ℕ → Proc → Proc → ℕ → M → Proc × ℕ × M
  unfolding dup_files mlfq_enqueue
  make_child i p np seq m =
      let m1 = copy_trapframe np.trapframe p.trapframe m in
      let (files, m2) = dup_files p.ofile np.ofile m1 in
      let np1 = record np {
        sz = p.sz;
        ofile = files;
        cwd = p.cwd;
        name = take 15 p.name;
        parent = some i;
      } in
      let (np2, seq') = mlfq_enqueue np1 seq in
      (record np2 { state = runnable }, seq', idup p.cwd m2)

  -- `kfork` once `np` at index `j` is allocated.
  unfoldable pub fork_into :
      (i : ℕ) (p : Proc) (j : ℕ) (np : Proc) → Kernel → M → Option ℕ × Kernel × M
  unfolding freeproc make_child
  fork_into i p j np k m =
      let (copied, m1) = uvmcopy p.pagetable np.pagetable p.sz m in
      let (freed, m2) = freeproc np m1 in
      let (np', seq', m3) = make_child i p np k.mlfq_seq_counter m1 in
      if copied
      then (some np.pid, record k { procs = set k.procs j np'; mlfq_seq_counter = seq' }, m3)
      else (none, record k { procs = set k.procs j freed }, m2)

  -- `kfork` by the process `p` at index `i`: the pid of the child, or `none` for -1.
  unfoldable pub kfork : ℕ → Proc → Kernel → M → Option ℕ × Kernel × M
  unfolding allocproc fork_into
  kfork i p k m =
      let (slot, k1, m1) = allocproc k m in
      elim slot [
        | none ↦ (none, k1, m1)
        | some j ↦ elim (get_elem? k1.procs j) [
          | none ↦ (none, k1, m1)
          | some np ↦ fork_into i p j np k1 m1
        ]
      ]

  -- The body of the loop of `reparent`, at index `j`.
  unfoldable pub reparent_one : (j i : ℕ) → Kernel → Kernel
  reparent_one j i k = elim (get_elem? k.procs j) [
    | none ↦ k
    | some pp ↦
        if same_proc pp.parent i
        then wakeup (proc_addr k.initproc)
            (record k { procs = set k.procs j (record pp { parent = some k.initproc }) })
        else k
  ]

  -- The loop of `reparent` over `n` processes from index `j` on.
  unfoldable pub reparent_from : (n j i : ℕ) → Kernel → Kernel
  unfolding reparent_one
  reparent_from zero j i k = k
  reparent_from (suc n) j i k = reparent_from n (j + 1) i (reparent_one j i k)

  unfoldable pub close_files : List (Option ℕ) → M → M
  close_files [] m = m
  close_files (none ∷ fs) m = close_files fs m
  close_files (some f ∷ fs) m = close_files fs (fileclose f m)

  abbrev pub parent_addr : Option ℕ → ℕ
  parent_addr none = 0
  parent_addr (some j) = proc_addr j

  -- The table when `kexit` has closed the files, found new parents and woken its own parent.
  unfoldable pub orphaned : ℕ → Proc → Kernel → Kernel
  unfolding reparent_from
  orphaned i p k =
      wakeup (parent_addr p.parent)
        (reparent_from nproc 0 i (record k { procs = set k.procs i (closed p) }))

  -- `kexit` by the process `p` at index `i`, up to `sched()`; `none` is a panic.
  unfoldable pub kexit : ℕ → Proc → ℕ → Kernel → M → Option (Kernel × M)
  unfolding orphaned close_files
  kexit i p status k m =
      let k1 = orphaned i p k in
      let m1 = iput p.cwd (close_files p.ofile m) in
      elim (i == k.initproc) [
        | true ↦ none
        | false ↦ elim (get_elem? k1.procs i) [
          | none ↦ none
          | some q ↦ some (
            record k1 { procs = set k1.procs i (record q { xstate = status; state = zombie }) },
            m1,
          )
        ]
      ]

  -- One pass of `kwait` by the process `p` at index `i`.
  unfoldable pub kwait : ℕ → Proc → ℕ → Kernel → M → Waited × Kernel × M
  unfolding wait_scan freeproc
  kwait i p addr k m = elim (wait_scan i 0 k.procs) [
    | childless ↦ (Waited.failed, k, m)
    | alive ↦
        if not (p.killed == 0)
        then (Waited.failed, k, m)
        else (elim (sleep_prepare i (proc_addr i) k) [
          | none ↦ (Waited.panics, k, m)
          | some k' ↦ (Waited.sleeps, k', m)
        ])
    | dead j pp ↦
        let (ok, m1) = copyout p.pagetable p.sz addr pp.xstate m in
        let m2 = if addr == 0 then m else m1 in
        let (freed, m3) = freeproc (record pp { parent = none }) m2 in
        if not (addr == 0) && not ok
        then (Waited.failed, k, m1)
        else (Waited.reaped pp.pid, record k { procs = set k.procs j freed }, m3)
  ]
