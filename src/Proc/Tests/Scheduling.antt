-- ===== src/Proc/Tests/Scheduling.antt =====
-- The scheduler and the timer tick on a concrete table.
use unix_c_shell.Common.{
  ◌≡◌, refl, ◌⊎◌, true, false, some, List, [], ◌∷◌, All, arith, set, get_elem?,
}
use unix_c_shell.Proc.{Proc, Kernel, is_runnable, running}
use unix_c_shell.Proc.Inv.{IsValid}
use unix_c_shell.Proc.Mlfq.{account, mlfq_tick, mlfq_maybe_boost, mlfq_higher_priority_exists}
use unix_c_shell.Proc.Mlfq.Tick.{mlfq_tick-IsValid, NoneAbove, mlfq_tick_strict}
use unix_c_shell.Proc.Scheduler.{pick, dispatch}
use unix_c_shell.Proc.Scheduler.Choice.{KeyLe, pick_least}
use unix_c_shell.Proc.Tests.{init, sleeper, kernel, kernel-IsValid}

-- Three runnable processes: the second one arrived first on the lowest used queue number.
abbrev three : List Proc
three =
    init
    ∷ record init { mlfq_priority = 1; mlfq_qtime = 2 }
    ∷ record init { mlfq_priority = 1; mlfq_qtime = 4 }
    ∷ []

pick_least_example :
    (p : Proc) × (get_elem? three 1 ≡ some p)
    × (is_runnable p.state ≡ true)
    × All
        (λ q.
          (is_runnable q.state ≡ false)
          ⊎ KeyLe p.mlfq_priority p.mlfq_qtime q.mlfq_priority q.mlfq_qtime)
        three
    × (dispatch (pick three) three ≡ (set three 1 (record p { state = running }), some 1))
unfolding pick
pick_least_example = pick_least three 1 refl

mlfq_tick-IsValid_example : IsValid (mlfq_tick 0 kernel).0
mlfq_tick-IsValid_example = mlfq_tick-IsValid 0 kernel kernel-IsValid (omega arith)

-- A tick of the process on queue 2, alone in a table of two.
abbrev small : Kernel
small = record kernel { procs = init ∷ sleeper ∷ [] }

mlfq_tick_strict_example : All (NoneAbove 2) (mlfq_tick 0 small).0.procs
unfolding mlfq_tick mlfq_maybe_boost account mlfq_higher_priority_exists
mlfq_tick_strict_example = mlfq_tick_strict 0 small (record init { mlfq_ticks_used = 2 }) refl refl
