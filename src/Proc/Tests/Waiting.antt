-- ===== src/Proc/Tests/Waiting.antt =====
-- Sleeping, waking and killing in a concrete table.
use unix_c_shell.Common.{◌≡◌, refl, false, some, [], ◌∷◌, ◌++◌, get_elem?}
use unix_c_shell.Proc.{Proc, Kernel, is_sleeping}
use unix_c_shell.Proc.Sleep.{sleep, sleep_prepare}
use unix_c_shell.Proc.Sleep.Lost.{Event, run_events, sleep_not_lost}
use unix_c_shell.Proc.Tests.{init, sleeper, kernel}

-- The init process prepares to wait on channel 7; a boost comes, then the wakeup, then a kill.
abbrev prepared : Kernel
prepared = record kernel { procs = record init { chan = 7 } ∷ sleeper ∷ [] }

abbrev woken : Kernel
woken = run_events ((Event.boost ∷ []) ++ Event.wake 7 ∷ (Event.kill 2 ∷ [])) prepared

sleep_not_lost_example :
    (sleep 0 woken ≡ woken)
    × ((q : Proc) × (get_elem? woken.procs 0 ≡ some q) × (is_sleeping q.state ≡ false))
unfolding sleep_prepare
sleep_not_lost_example =
    sleep_not_lost 0 7 (record kernel { procs = init ∷ sleeper ∷ [] }) prepared init
      (Event.boost ∷ []) (Event.kill 2 ∷ []) refl refl refl
