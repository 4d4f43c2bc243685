-- ===== src/Proc/Tests/Life.antt =====
-- Fork, exit and wait in a concrete table, with services that always succeed.
use unix_c_shell.Common.{
  sym, ap, ◌∙◌, zero, ℕ, suc, ◌+◌, ◌≡◌, refl, ◌⊎◌, inl, true, false, none, some, [], ◌∷◌, All,
  arith, take, set, get_elem?,
}
use unix_c_shell.Proc.{Proc, Kernel, is_unused, zombie, unused}
use unix_c_shell.Proc.Sleep.{kkill, kill_one}
use unix_c_shell.Proc.Life.{Services, Waited, kfork, kexit, kwait, same_proc}
use unix_c_shell.Proc.Life.Alloc.{IsLive, IsNumbered}
use unix_c_shell.Proc.Life.Fork.{IsChild, kfork_lem, kfork_born_killed}
use unix_c_shell.Proc.Life.Exit.{kexit_lem}
use unix_c_shell.Proc.Life.Wait.{kwait_reaps}
use unix_c_shell.Proc.Tests.{blank, init, sleeper, kernel, kernel-size}

-- The state counts the pages handed out.
abbrev plain : Services ℕ
plain = record {
  kalloc = λ m. (4096, m + 1);
  kfree = λ p m. m;
  proc_pagetable = λ p m. (8192, m + 1);
  proc_freepagetable = λ pt sz m. m;
  uvmcopy = λ old new sz m. (true, m);
  copy_trapframe = λ to from m. m;
  filedup = λ f m. m;
  fileclose = λ f m. m;
  idup = λ i m. m;
  iput = λ i m. m;
  copyout = λ pt sz addr v m. (true, m);
  proc_addr = λ i. i + 1;
}

-- Two processes and a free slot.
abbrev small : Kernel
small = record kernel { procs = init ∷ sleeper ∷ blank ∷ [] }

kfork_lem_example :
    (j : ℕ) × (old child : Proc) × (get_elem? small.procs j ≡ some old)
    × (is_unused old.state ≡ true)
    × All IsLive (take j small.procs)
    × (get_elem? (kfork plain 0 init small 0).1.procs j ≡ some child)
    × (3 ≡ small.nextpid)
    × IsChild 0 init (record old { pid = 3; mlfq_priority = 0 }) 5 child
    × ((l : ℕ)
        → (j ≡ l) ⊎ (get_elem? (kfork plain 0 init small 0).1.procs l ≡ get_elem? small.procs l))
unfolding kfork
kfork_lem_example = kfork_lem plain 0 init small 0 3 refl

kfork_born_killed_example :
    ((kkill 0 small).1 ≡ true)
    × ((child : Proc) × (get_elem? (kfork plain 0 init (kkill 0 small).0 0).1.procs 2 ≡ some child)
        × (child.killed ≡ 1))
unfolding kfork kkill kill_one
kfork_born_killed_example =
    kfork_born_killed plain 0 init small 0 3 2 blank refl refl refl (omega arith, (omega arith, tt))
      (refl, (refl, tt)) refl

-- The sleeper exits; the init process is its parent.
kexit_lem_example :
    (k' : Kernel) × (m' : ℕ) × (kexit plain 1 sleeper 7 kernel 0 ≡ some (k', m'))
    × ((q : Proc) × (get_elem? k'.procs 1 ≡ some q) × (q.state ≡ zombie) × (q.xstate ≡ 7))
    × All (λ (q : Proc). same_proc q.parent 1 ≡ false) k'.procs
kexit_lem_example = kexit_lem plain 1 sleeper 7 kernel 0 kernel-size (omega arith) (omega arith)

-- The child is dead.
abbrev corpse : Proc
corpse = record sleeper { state = zombie; chan = 0; xstate = 7 }

abbrev bereft : Kernel
bereft = record kernel { procs = init ∷ corpse ∷ [] }

kwait_reaps_example :
    ((kwait plain 0 init 0 bereft 0).0 ≡ Waited.reaped 2)
    × ((freed : Proc) × ((kwait plain 0 init 0 bereft 0).1.procs ≡ set bereft.procs 1 freed)
        × (freed.state ≡ unused)
        × (freed.pid ≡ 0)
        × (freed.parent ≡ none))
kwait_reaps_example = kwait_reaps plain 0 init 0 bereft 0 1 corpse refl refl (refl, tt) (inl refl)

-- The table as it was before the second process.
abbrev alone : Kernel
alone = record kernel { procs = init ∷ blank ∷ []; nextpid = 2 }

only_init : (i : ℕ) (p : Proc) → get_elem? alone.procs i ≡ some p → IsLive p → (i ≡ 0) × (p ≡ init)
only_init zero p g live = (refl, cc)
only_init (suc zero) p g live =
    let e : blank ≡ p = cc in let bad : IsLive blank = rw (← e) at live in cc
only_init (suc (suc i)) p g live = cc

alone-IsNumbered : IsNumbered alone.procs 2
alone-IsNumbered = record {
  below = λ i p g l. let e = (only_init i p g l).1 in omega (arith, ap (λ (x : Proc). x.pid) e);
  apart = λ i j p q g h l k same. (only_init i p g l).0 ∙ sym (only_init j q h k).0;
}
