-- ===== src/Proc/Sleep.antt =====
-- xv6/kernel/proc.c: waiting on a channel, and killing.
pub mod Wakeups
pub mod Killing
pub mod Lost
use unix_c_shell.Common.{
  ℕ, zero, ◌+◌, Bool, true, false, not, ◌&&◌, Option, none, some, List, [], ◌∷◌, ◌==◌,
  if◌then◌else◌, get_elem?, set,
}
use unix_c_shell.Proc.{Proc, sleeping, runnable, Kernel, is_unused, is_sleeping, sweep}
use unix_c_shell.Proc.Mlfq.{mlfq_enqueue}

-- A change of the process at an index.
abbrev pub modify : ℕ → (Proc → Proc) → List Proc → List Proc
modify i f [] = []
modify zero f (p ∷ ps) = f p ∷ ps
modify (ℕ.suc i) f (p ∷ ps) = p ∷ modify i f ps

-- `sleep_prepare` for the process at index `i`; `none` is the panic on a zero channel.
unfoldable pub sleep_prepare : ℕ → ℕ → Kernel → Option Kernel
sleep_prepare i chan k =
    if chan == 0
    then none
    else some (record k { procs = modify i (λ p. record p { chan = chan }) k.procs })

abbrev pub sleep_one : Proc → Proc
sleep_one p = if not (p.chan == 0) then record p { state = sleeping } else p

-- `sleep`, up to the switch to the scheduler.
unfoldable pub sleep : ℕ → Kernel → Kernel
sleep i k = record k { procs = modify i sleep_one k.procs }

-- The body of the loop of `wakeup`.
unfoldable pub wakeup_one : ℕ → Proc → ℕ → Proc × ℕ
unfolding mlfq_enqueue
wakeup_one chan p seq =
    if p.chan == chan
    then (let q = record p { chan = 0 } in
        if is_sleeping q.state
        then (let (q', seq') = mlfq_enqueue q seq in (record q' { state = runnable }, seq'))
        else (q, seq))
    else (p, seq)

unfoldable pub wakeup : ℕ → Kernel → Kernel
wakeup chan k =
    let (procs', seq') = sweep (wakeup_one chan) k.procs k.mlfq_seq_counter in
    record k { procs = procs'; mlfq_seq_counter = seq' }

-- What `kkill` does to the process that it finds.
unfoldable pub kill_one : Proc → ℕ → Proc × ℕ
unfolding mlfq_enqueue
kill_one p seq =
    let q = record p { killed = 1 } in
    if is_sleeping q.state
    then (let (q', seq') = mlfq_enqueue q seq in (record q' { state = runnable }, seq'))
    else (q, seq)

-- The loop of `kkill`: the table, the counter, and whether a process had the pid (0 or -1).
unfoldable pub kill_from : ℕ → List Proc → ℕ → List Proc × ℕ × Bool
kill_from pid [] seq = ([], seq, false)
kill_from pid (p ∷ ps) seq =
    let (ps', seq', found) = kill_from pid ps seq in
    if p.pid == pid
    then (let (p', seq'') = kill_one p seq in (p' ∷ ps, seq'', true))
    else (p ∷ ps', seq', found)

unfoldable pub kkill : ℕ → Kernel → Kernel × Bool
unfolding kill_from
kkill pid k =
    let (procs', seq', found) = kill_from pid k.procs k.mlfq_seq_counter in
    (record k { procs = procs'; mlfq_seq_counter = seq' }, found)

pub setkilled : ℕ → Kernel → Kernel
setkilled i k = record k { procs = modify i (λ p. record p { killed = 1 }) k.procs }

-- `killed`. No caller passes an index out of range.
pub killed : ℕ → Kernel → ℕ
killed i k = elim (get_elem? k.procs i) [ none ↦ 0 | some p ↦ p.killed ]

-- The loop of `mlfq_priority_of`, with the `result` so far; `none` is -1.
priority_from : ℕ → List Proc → Option ℕ → Option ℕ
priority_from pid [] result = result
priority_from pid (p ∷ ps) result =
    priority_from pid ps
      (if (p.pid == pid) && not (is_unused p.state) then some p.mlfq_priority else result)

pub mlfq_priority_of : ℕ → Kernel → Option ℕ
unfolding priority_from
mlfq_priority_of pid k = priority_from pid k.procs none
