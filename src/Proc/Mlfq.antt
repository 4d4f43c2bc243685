-- ===== src/Proc/Mlfq.antt =====
-- xv6/kernel/proc.c, the MLFQ functions. Each runs under the locks that it takes; what other harts
-- do between two of its critical sections is not part of a call.
pub mod Boost
pub mod Tick
use unix_c_shell.Common.{
  ℕ, suc, ◌+◌, ◌-◌, ◌%◌, ◌^◌, Bool, true, false, not, ◌&&◌, ◌||◌, Option, none, some, List, [], ◌∷◌,
  ltb, leb, ◌==◌, if◌then◌else◌, get_elem?, set,
}
use unix_c_shell.Proc.{
  Proc, ProcState, runnable, Kernel, is_unused, is_runnable, mlfq_levels, mlfq_boost_interval,
  mlfq_slice, sweep,
}

-- `mlfq_seq_counter` is a uint64.
unfoldable pub mlfq_next_seq : ℕ → ℕ × ℕ
mlfq_next_seq seq = (seq, (seq + 1) % 2 ^ 64)

unfoldable pub mlfq_enqueue : Proc → ℕ → Proc × ℕ
unfolding mlfq_next_seq
mlfq_enqueue p seq =
    let (v, seq') = mlfq_next_seq seq in (record p { mlfq_ticks_used = 0; mlfq_qtime = v }, seq')

-- The body of the loop of `mlfq_boost_all`.
unfoldable pub boost_one : Proc → ℕ → Proc × ℕ
unfolding mlfq_enqueue
boost_one p seq =
    if is_unused p.state then (p, seq) else mlfq_enqueue (record p { mlfq_priority = 0 }) seq

unfoldable pub mlfq_boost_all : Kernel → Kernel
mlfq_boost_all k =
    let (procs', seq') = sweep boost_one k.procs k.mlfq_seq_counter in
    record k { procs = procs'; mlfq_seq_counter = seq' }

-- `now - mlfq_last_boost` in unsigned 32-bit arithmetic.
abbrev pub since_boost : Kernel → ℕ
since_boost k = (k.ticks + 2 ^ 32 - k.mlfq_last_boost) % 2 ^ 32

unfoldable pub mlfq_maybe_boost : Kernel → Kernel
mlfq_maybe_boost k =
    if leb mlfq_boost_interval (since_boost k)
    then mlfq_boost_all (record k { mlfq_last_boost = k.ticks })
    else k

unfoldable pub mlfq_higher_priority_exists : ℕ → List Proc → Bool
mlfq_higher_priority_exists prio [] = false
mlfq_higher_priority_exists prio (q ∷ qs) =
    if is_runnable q.state && ltb q.mlfq_priority prio
    then true
    else mlfq_higher_priority_exists prio qs

-- The critical section of `mlfq_tick` on `p->lock`: the process, the counter and `need_yield`.
unfoldable pub account : Proc → ℕ → Proc × ℕ × Bool
unfolding mlfq_enqueue
account p seq =
    let used = p.mlfq_ticks_used + 1 in
    let prio =
      if ltb p.mlfq_priority (mlfq_levels - 1) then p.mlfq_priority + 1 else p.mlfq_priority in
    if leb (mlfq_slice p.mlfq_priority) used
    then (let (p', seq') =
          mlfq_enqueue (record p { mlfq_ticks_used = used; mlfq_priority = prio }) seq in
        (p', seq', true))
    else (record p { mlfq_ticks_used = used }, seq, false)

-- `yield`, up to the switch to the scheduler.
unfoldable pub yield : ℕ → List Proc → List Proc
yield i procs = elim (get_elem? procs i) [
  | none ↦ procs
  | some p ↦ set procs i (record p { state = runnable })
]

-- `mlfq_tick` after `mlfq_maybe_boost`, for the process `p` at index `i`.
tick_proc : ℕ → Kernel → Proc → Kernel × Bool
tick_proc i k p =
    let (p', seq', exhausted) = account p k.mlfq_seq_counter in
    let procs' = set k.procs i p' in
    let need_yield = exhausted || mlfq_higher_priority_exists p'.mlfq_priority procs' in
    (
      record k { procs = if need_yield then yield i procs' else procs'; mlfq_seq_counter = seq' },
      need_yield,
    )

-- The new state, and whether the process gave up the hart. No caller passes an index out of range.
unfoldable pub mlfq_tick : ℕ → Kernel → Kernel × Bool
unfolding tick_proc
mlfq_tick i k =
    let k1 = mlfq_maybe_boost k in
    elim (get_elem? k1.procs i) [ none ↦ (k1, false) | some p ↦ tick_proc i k1 p ]
