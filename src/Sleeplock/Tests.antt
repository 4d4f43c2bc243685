-- ===== src/Sleeplock/Tests.antt =====
-- Two processes at one lock.
use unix_c_shell.Common.{ℕ, ◌≡◌, refl, true, false, some, [], ◌∷◌, get_elem?, arith}
use unix_c_shell.Proc.{Proc, Kernel, is_sleeping}
use unix_c_shell.Proc.Tests.{kernel, init, sleeper}
use unix_c_shell.Proc.Sleep.{sleep_prepare, sleep}
use unix_c_shell.Sleeplock.{Sleeplock, initsleeplock, acquiresleep, releasesleep, holdingsleep}
use unix_c_shell.Sleeplock.Waiters.{
  acquire, fall_asleep, Reach, here, next, NoneWaits, Awake, no_waiter_lost,
}

-- The processes of the table that are there.
abbrev two_procs : Kernel
two_procs = record kernel { procs = init ∷ sleeper ∷ [] }

-- The lock at 500 is taken by the first process.
abbrev held_by_init : Sleeplock
held_by_init = record { locked = true; pid = 1; kernel = two_procs }

abbrev waited_for : Sleeplock
waited_for = record {
  locked = true;
  pid = 1;
  kernel = record two_procs { procs = init ∷ record sleeper { chan = 500 } ∷ [] };
}

abbrev slept_on : Sleeplock
slept_on = record waited_for { kernel = sleep 1 waited_for.kernel }

take_step : acquiresleep 500 0 (initsleeplock two_procs) ≡ some (true, held_by_init)
unfolding acquiresleep initsleeplock
take_step = refl

wait_step : acquiresleep 500 1 held_by_init ≡ some (false, waited_for)
unfolding acquiresleep sleep_prepare
wait_step = refl

two_rounds : Reach 500 (initsleeplock two_procs) slept_on
two_rounds =
    next
      (next (next here (acquire _ held_by_init 0 true take_step))
        (acquire _ waited_for 1 false wait_step))
      (fall_asleep waited_for 1)

two_procs-NoneWaits : NoneWaits 500 two_procs
two_procs-NoneWaits = (λ e. omega arith, (λ e. omega arith, tt))

no_waiter_lost_example :
    ((j : ℕ) (p : Proc)
      → get_elem? slept_on.kernel.procs j ≡ some p
      → p.chan ≡ 500
      → slept_on.locked ≡ true)
    × ((j : ℕ) (p : Proc)
        → get_elem? slept_on.kernel.procs j ≡ some p
        → p.chan ≡ 500
        → is_sleeping p.state ≡ true
        → Awake (get_elem? (releasesleep 500 slept_on).kernel.procs j))
    × ((i : ℕ)
        → (l' : Sleeplock) × (acquiresleep 500 i (releasesleep 500 slept_on) ≡ some (true, l'))
          × (holdingsleep i l' ≡ true))
no_waiter_lost_example =
    no_waiter_lost 500 two_procs (λ e. omega arith) two_procs-NoneWaits two_rounds
