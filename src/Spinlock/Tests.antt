-- ===== src/Spinlock/Tests.antt =====
-- The lock with two harts, and a nest of two calls.
use unix_c_shell.Common.{ℕ, ◌≡◌, refl, true, false, some, List, [], ◌∷◌, if◌then◌else◌}
use unix_c_shell.Spinlock.{Phase, Lock, Cpu, run, step}
use unix_c_shell.Spinlock.Holders.{holders}
use unix_c_shell.Spinlock.Exclusion.{fresh, run_exclusive}

-- Both harts try; the first one gets the lock, the second one spins, and gets it after the release.
abbrev schedule : List ℕ
schedule = 0 ∷ 1 ∷ 0 ∷ 1 ∷ 0 ∷ 1 ∷ 0 ∷ 0 ∷ 1 ∷ 1 ∷ []

run_exclusive_example :
    (l : Lock) × (run schedule (fresh 2) ≡ some l)
    × (holders l.phases ≡ (if l.locked then 1 else 0))
run_exclusive_example = run_exclusive 2 schedule

-- The second hart has the lock at the end.
schedule_end :
    run schedule (fresh 2)
    ≡ some (record { locked = true; cpu = some 1; phases = Phase.outside ∷ Phase.inside ∷ [] })
unfolding run step
schedule_end = refl

abbrev cpu : Cpu
cpu = record { noff = 0; intena = false; interrupts = true }
