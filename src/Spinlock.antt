-- ===== src/Spinlock.antt =====
-- xv6/kernel/spinlock.c: one lock and the harts that use it. A hart is its index; each atomic access to
-- the lock is a step of its own, and a schedule says which hart makes the next step.
pub mod Holders
pub mod Exclusion
pub mod Nesting
mod Tests
use unix_c_shell.Common.{
  ℕ, zero, suc, ◌+◌, ◌-◌, Bool, true, false, not, ◌&&◌, Option, none, some, List, [], ◌∷◌, ◌==◌,
  ltb, if◌then◌else◌, get_elem?, set,
}

-- Where a hart stands: outside; in the loop of `acquire`; after its atomic exchange; with the lock; and
-- in `release`, between its two stores.
pub data Phase : Type 0 where
  outside spinning swapped inside leaving : Phase

-- `struct spinlock`, and the harts; a null `cpu` is `none`.
pub record Lock : Type 0 where
  pub locked : Bool
  pub cpu : Option ℕ
  pub phases : List Phase

abbrev pub is_cpu : Option ℕ → ℕ → Bool
is_cpu none i = false
is_cpu (some j) i = j == i

-- `holding`, on hart `i`.
unfoldable pub holding : ℕ → Lock → Bool
holding i l = l.locked && is_cpu l.cpu i

-- The next step of hart `i`, which is at `p`; `none` is a panic.
unfoldable pub step_at : ℕ → Phase → Lock → Option Lock
unfolding holding
step_at i Phase.outside l =
    if holding i l then none else some (record l { phases = set l.phases i Phase.spinning })
step_at i Phase.spinning l =
    if l.locked
    then some l
    else some (record l { locked = true; phases = set l.phases i Phase.swapped })
step_at i Phase.swapped l = some (record l { cpu = some i; phases = set l.phases i Phase.inside })
step_at i Phase.inside l =
    if holding i l
    then some (record l { cpu = none; phases = set l.phases i Phase.leaving })
    else none
step_at i Phase.leaving l =
    some (record l { locked = false; phases = set l.phases i Phase.outside })

-- A hart that is not there makes no step.
unfoldable pub step : ℕ → Lock → Option Lock
unfolding step_at
step i l = elim (get_elem? l.phases i) [ none ↦ some l | some p ↦ step_at i p l ]

unfoldable pub run : List ℕ → Lock → Option Lock
run [] l = some l
run (i ∷ is) l = elim (step i l) [ none ↦ none | some k ↦ run is k ]

-- The fields of `struct cpu`, and whether interrupts are on.
pub record Cpu : Type 0 where
  pub noff : ℕ
  pub intena : Bool
  pub interrupts : Bool

unfoldable pub push_off : Cpu → Cpu
push_off c = record {
  noff = c.noff + 1;
  intena = if c.noff == 0 then c.interrupts else c.intena;
  interrupts = false;
}

-- `none` is a panic.
unfoldable pub pop_off : Cpu → Option Cpu
pop_off c =
    if c.interrupts
    then none
    else if ltb c.noff 1
    then none
    else some (record c { noff = c.noff - 1; interrupts = (c.noff - 1 == 0) && c.intena })
