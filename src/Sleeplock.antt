-- ===== src/Sleeplock.antt =====
-- xv6/kernel/sleeplock.c: a lock that puts the processes that wait for it to sleep. What happens under the
-- lock's spin lock is one step.
pub mod Waiters
mod Tests
use unix_c_shell.Common.{
  ℕ, Bool, true, false, ◌&&◌, Option, none, some, ◌==◌, if◌then◌else◌, get_elem?,
}
use unix_c_shell.Proc.{Proc, Kernel}
use unix_c_shell.Proc.Sleep.{sleep_prepare, wakeup}

-- `struct sleeplock`, and the kernel beside it.
pub record Sleeplock : Type 0 where
  pub locked : Bool
  pub pid : ℕ
  pub kernel : Kernel

unfoldable pub initsleeplock : Kernel → Sleeplock
initsleeplock k = record { locked = false; pid = 0; kernel = k }

-- `myproc()->pid` of the process in place `i`.
abbrev pub pid_of : ℕ → Kernel → ℕ
pid_of i k = elim (get_elem? k.procs i) [ none ↦ 0 | some p ↦ p.pid ]

module _ (lk : ℕ) where
  -- A round of `acquiresleep` by the process in place `i`: it has the lock (`true`), or is ready to
  -- sleep on the address of the lock, and comes back for another round. `none` is the panic.
  unfoldable pub acquiresleep : ℕ → Sleeplock → Option (Bool × Sleeplock)
  acquiresleep i l =
      if l.locked
      then (elim (sleep_prepare i lk l.kernel) [
        | none ↦ none
        | some k ↦ some (false, record l { kernel = k })
      ])
      else some (true, record l { locked = true; pid = pid_of i l.kernel })

  unfoldable pub releasesleep : Sleeplock → Sleeplock
  releasesleep l = record { locked = false; pid = 0; kernel = wakeup lk l.kernel }

unfoldable pub holdingsleep : ℕ → Sleeplock → Bool
holdingsleep i l = l.locked && l.pid == pid_of i l.kernel
