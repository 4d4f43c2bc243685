-- ===== src/Proc.antt =====
-- xv6/kernel/proc.h and the globals of xv6/kernel/proc.c: the process table and the counters
-- beside it. A process is named by its index in `proc[]`; a null pointer to one is `none`.
pub mod Mlfq
pub mod Inv
pub mod Scheduler
pub mod Life
pub mod Sleep
pub mod Tests
use unix_c_shell.Common.{ℕ, ◌+◌, ◌%◌, ◌^◌, Bool, true, false, Option, List, [], ◌∷◌, get_or}

pub data ProcState : Type 0 where
  unused used sleeping runnable running zombie : ProcState

-- `struct proc` without the saved contexts. An `int` is its bit pattern; `chan`, `pagetable` and
-- `trapframe` are addresses, 0 for null.
pub record Proc : Type 0 where
  pub state : ProcState
  pub chan : ℕ
  pub killed : ℕ
  pub xstate : ℕ
  pub pid : ℕ
  pub parent : Option ℕ
  pub sz : ℕ
  pub pagetable : ℕ
  pub trapframe : ℕ
  pub ofile : List (Option ℕ)
  pub cwd : Option ℕ
  pub name : List ℕ
  pub mlfq_priority : ℕ
  pub mlfq_ticks_used : ℕ
  pub mlfq_qtime : ℕ

-- The globals: `proc[]`, `nextpid`, `mlfq_seq_counter`, `mlfq_last_boost`, `initproc`, `ticks`.
pub record Kernel : Type 0 where
  pub procs : List Proc
  pub nextpid : ℕ
  pub mlfq_seq_counter : ℕ
  pub mlfq_last_boost : ℕ
  pub initproc : ℕ
  pub ticks : ℕ

abbrev pub is_unused : ProcState → Bool
is_unused unused = true
is_unused _ = false

abbrev pub is_sleeping : ProcState → Bool
is_sleeping sleeping = true
is_sleeping _ = false

abbrev pub is_runnable : ProcState → Bool
is_runnable runnable = true
is_runnable _ = false

abbrev pub is_zombie : ProcState → Bool
is_zombie zombie = true
is_zombie _ = false

abbrev pub nproc : ℕ
nproc = 64

abbrev pub mlfq_levels : ℕ
mlfq_levels = 4

abbrev pub mlfq_boost_interval : ℕ
mlfq_boost_interval = 48

-- `mlfq_slice[]`
abbrev pub mlfq_slice : ℕ → ℕ
mlfq_slice prio = get_or (1 ∷ 4 ∷ 8 ∷ 16 ∷ []) prio 0

-- A loop over `proc[]` whose body may change the process at hand and the sequence counter.
unfoldable pub sweep : (Proc → ℕ → Proc × ℕ) → List Proc → ℕ → List Proc × ℕ
sweep body [] seq = ([], seq)
sweep body (p ∷ ps) seq =
    let (p', seq') = body p seq in let (ps', seq'') = sweep body ps seq' in (p' ∷ ps', seq'')
