-- ===== src/Proc/Sleep/Wakeups.antt =====
-- Waiting on a channel: who is woken, and that no wakeup is lost.
use mathlib.Core.Path.{subst}
use unix_c_shell.Common.{sym, ℕ, ◌+◌, ◌^◌, ◌<◌, ◌≡◌, ◌≢◌, true, false, some, get_elem?, arith, ◌⊎◌}
use unix_c_shell.Proc.{Proc, runnable, Kernel, is_sleeping, nproc}
use unix_c_shell.Proc.Inv.{IsValid, Keeps, get_elem?-sweep, get_elem?-sweep_inv, sweep-IsValid}
use unix_c_shell.Proc.Sleep.{wakeup_one, wakeup}

wakeup_one-Keeps : (chan : ℕ) → Keeps (wakeup_one chan)
unfolding wakeup_one
wakeup_one-Keeps chan = record {
  fits = λ p seq h f. ground arith;
  counts = λ p seq h. ground arith;
}

-- A wakeup keeps the scheduling invariant.
pub wakeup-IsValid :
    (chan : ℕ) (k : Kernel)
    → IsValid k
    → k.mlfq_seq_counter + nproc < 2 ^ 64
    → IsValid (wakeup chan k)
unfolding wakeup
wakeup-IsValid chan k v h = sweep-IsValid (wakeup_one chan) (wakeup_one-Keeps chan) k v h

-- What a wakeup does to a process: one that waits elsewhere is untouched; one that waits here waits
-- no longer, and runs again with a full slice on its queue if it slept.
abbrev pub Woken : ℕ → Proc → Proc → Type 0
Woken chan p p' =
    (p.chan ≢ chan) × (p' ≡ p)
    ⊎ (p.chan ≡ chan)
      × (is_sleeping p.state ≡ true)
      × (p' ≡ record p {
        chan = 0;
        state = runnable;
        mlfq_ticks_used = 0;
        mlfq_qtime = p'.mlfq_qtime;
      })
    ⊎ (p.chan ≡ chan) × (is_sleeping p.state ≡ false) × (p' ≡ record p { chan = 0 })

wakeup_one-Woken : (chan : ℕ) (p : Proc) (seq : ℕ) → Woken chan p (wakeup_one chan p seq).0
unfolding wakeup_one
wakeup_one-Woken chan p seq = ground arith

-- A wakeup leaves each process that waits on another channel as it was; one that waits on this channel
-- waits no longer, and if it slept it is runnable at the tail of its queue with a full slice.
pub wakeup-Woken :
    (chan : ℕ) (k : Kernel) (j : ℕ) (p : Proc)
    → get_elem? k.procs j ≡ some p
    → (p' : Proc) × (get_elem? (wakeup chan k).procs j ≡ some p') × Woken chan p p'
unfolding wakeup
wakeup-Woken chan k j p g =
    let (s, e) = get_elem?-sweep (wakeup_one chan) k.procs k.mlfq_seq_counter j p g in
    ((wakeup_one chan p s).0, e, wakeup_one-Woken chan p s)

pub wakeup-Woken_inv :
    (chan : ℕ) (k : Kernel) (j : ℕ) (p' : Proc)
    → get_elem? (wakeup chan k).procs j ≡ some p'
    → (p : Proc) × (get_elem? k.procs j ≡ some p) × Woken chan p p'
unfolding wakeup
wakeup-Woken_inv chan k j p' g =
    let (s, p, e, same) = get_elem?-sweep_inv (wakeup_one chan) k.procs k.mlfq_seq_counter j p' g in
    (p, e, subst (Woken chan p) (sym same) (wakeup_one-Woken chan p s))
