-- ===== src/Spinlock/Nesting.antt =====
-- Matched `push_off` and `pop_off`.
use unix_c_shell.Common.{
  ℕ, zero, suc, ◌+◌, ◌-◌, ◌<◌, ◌≡◌, refl, ap, ◌∙◌, false, ◌&&◌, Option, none, some, ◌==◌, ltb,
  if◌then◌else◌, arith,
}
use unix_c_shell.Spinlock.{Cpu, push_off, pop_off}

abbrev pub push_times : ℕ → Cpu → Cpu
push_times zero c = c
push_times (suc n) c = push_times n (push_off c)

abbrev pub pop_times : ℕ → Cpu → Option Cpu
pop_times zero c = some c
pop_times (suc n) c = elim (pop_off c) [ none ↦ none | some d ↦ pop_times n d ]

push_times-noff : (n : ℕ) (c : Cpu) → (push_times n c).noff ≡ c.noff + n
unfolding push_off
push_times-noff zero c = omega arith
push_times-noff (suc n) c = omega (arith, push_times-noff n (push_off c))

-- A `pop_off` undoes the last `push_off`.
push_times_last : (n : ℕ) (c : Cpu) → push_times (suc n) c ≡ push_off (push_times n c)
push_times_last zero c = refl
push_times_last (suc n) c = push_times_last n (push_off c)

deeper : (n : ℕ) (c : Cpu) → (push_times (suc n) c).interrupts ≡ false
unfolding push_off
deeper n c = ap (λ (d : Cpu). d.interrupts) (push_times_last n c)

-- What is left of the state after a `push_off`, and undone by a `pop_off`.
pop_push : (c : Cpu) → c.interrupts ≡ false → 0 < c.noff → pop_off (push_off c) ≡ some c
unfolding push_off pop_off
pop_push c off deep = ground arith

pop_outer :
    (c : Cpu)
    → c.noff ≡ 0
    → (d : Cpu) × (pop_off (push_off c) ≡ some d) × (d.noff ≡ 0) × (d.interrupts ≡ c.interrupts)
unfolding push_off pop_off
pop_outer c z =
    let fits : ltb (c.noff + 1) 1 ≡ false = ground arith in
    (
      record {
        noff = c.noff + 1 - 1;
        intena = if c.noff == 0 then c.interrupts else c.intena;
        interrupts = (c.noff + 1 - 1 == 0) && (if c.noff == 0 then c.interrupts else c.intena);
      },
      rw fits,
      omega arith,
      ground arith,
    )

pop_last : (n : ℕ) (c : Cpu) → pop_off (push_times (suc (suc n)) c) ≡ some (push_times (suc n) c)
pop_last n c =
    ap pop_off (push_times_last (suc n) c)
    ∙ pop_push (push_times (suc n) c) (deeper n c) (omega (arith, push_times-noff (suc n) c))

-- On a hart outside of every `push_off`, one or more calls of `push_off` and as many of `pop_off` return
-- without a panic, and leave the interrupts on or off as they were.
pub push_off-pop_off :
    (n : ℕ) (c : Cpu)
    → c.noff ≡ 0
    → (d : Cpu) × (pop_times (suc n) (push_times (suc n) c) ≡ some d)
      × (d.noff ≡ 0)
      × (d.interrupts ≡ c.interrupts)
push_off-pop_off zero c z = let (d, e, a, b) = pop_outer c z in (d, rw (e, pop_times), a, b)
push_off-pop_off (suc n) c z =
    let (d, e, a, b) = push_off-pop_off n c z in
    (d, ap (λ o. elim o [ none ↦ none | some x ↦ pop_times (suc n) x ]) (pop_last n c) ∙ e, a, b)
