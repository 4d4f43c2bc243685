-- ===== src/Proc/Tests.antt =====
-- Concrete processes and tables.
mod Scheduling
mod Waiting
mod Life
use unix_c_shell.Common.{
  ℕ, zero, suc, ◌+◌, ◌<◌, ◌≡◌, refl, Option, none, some, List, [], ◌∷◌, All, length, arith,
}
use unix_c_shell.Proc.{Proc, Kernel, unused, runnable, running, sleeping, nproc, is_unused}
use unix_c_shell.Proc.Inv.{Fits, IsValid}

-- A slot of the table as it is at boot.
abbrev pub blank : Proc
blank = record {
  state = unused;
  chan = 0;
  killed = 0;
  xstate = 0;
  pid = 0;
  parent = none;
  sz = 0;
  pagetable = 0;
  trapframe = 0;
  ofile = [];
  cwd = none;
  name = [];
  mlfq_priority = 0;
  mlfq_ticks_used = 0;
  mlfq_qtime = 0;
}

-- The init process, on queue 2 with one tick used, and a process of queue 1 that waits on channel 9.
abbrev pub init : Proc
init = record blank {
  state = runnable;
  pid = 1;
  mlfq_priority = 2;
  mlfq_ticks_used = 1;
  mlfq_qtime = 3;
}

abbrev pub sleeper : Proc
sleeper = record blank {
  state = sleeping;
  chan = 9;
  pid = 2;
  parent = some 0;
  mlfq_priority = 1;
  mlfq_qtime = 4;
}

abbrev pub blanks : ℕ → List Proc
blanks zero = []
blanks (suc n) = blank ∷ blanks n

abbrev pub table : List Proc
table = init ∷ sleeper ∷ blanks 62

abbrev pub kernel : Kernel
kernel = record {
  procs = table;
  nextpid = 3;
  mlfq_seq_counter = 5;
  mlfq_last_boost = 0;
  initproc = 0;
  ticks = 20;
}

All-blanks {ℓ} : (P : Proc → Type ℓ) → P blank → (n : ℕ) → All P (blanks n)
All-blanks P p zero = tt
All-blanks P p (suc n) = (p, All-blanks P p n)

length-blanks : (n : ℕ) → length (blanks n) ≡ n
length-blanks zero = refl
length-blanks (suc n) = omega (arith, length-blanks n)

pub kernel-size : length kernel.procs ≡ nproc
kernel-size = omega (arith, length-blanks 62)

pub kernel-IsValid : IsValid kernel
kernel-IsValid = record {
  size = kernel-size;
  started = omega arith;
  fits = (
    record { queue = omega arith; slice = omega arith; arrived = omega arith },
    (
      record { queue = omega arith; slice = omega arith; arrived = omega arith },
      All-blanks (Fits 5)
          (record { queue = omega arith; slice = omega arith; arrived = omega arith }) 62,
    ),
  );
}
