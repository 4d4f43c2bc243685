-- ===== src/Proc/Scheduler.antt =====
-- xv6/kernel/proc.c, `scheduler` built with SCHEDULER=MLFQ: the scan of the table, and the dispatch
-- of the process that it chose.
pub mod Choice
use unix_c_shell.Common.{
  ℕ, suc, ◌+◌, Bool, ◌&&◌, ◌||◌, Option, none, some, List, [], ◌∷◌, ltb, ◌==◌, if◌then◌else◌,
  get_elem?, set,
}
use unix_c_shell.Proc.{Proc, running, is_runnable, mlfq_levels}

-- The locals `best`, `best_prio` and `best_qtime`.
pub record Best : Type 0 where
  pub best : Option ℕ
  pub best_prio : ℕ
  pub best_qtime : ℕ

abbrev pub is_none {ℓ} : {A : Type ℓ} → Option A → Bool
is_none none = Bool.true
is_none (some x) = Bool.false

-- The body of the scan, for the process `p` at index `i`.
pub consider : ℕ → Proc → Best → Best
consider i p b =
    if is_runnable p.state
    then (if is_none b.best
          || ltb p.mlfq_priority b.best_prio
          || ((p.mlfq_priority == b.best_prio) && ltb p.mlfq_qtime b.best_qtime)
        then record { best = some i; best_prio = p.mlfq_priority; best_qtime = p.mlfq_qtime }
        else b)
    else b

pub scan : ℕ → List Proc → Best → Best
scan i [] b = b
scan i (p ∷ ps) b = scan (i + 1) ps (consider i p b)

unfoldable pub pick : List Proc → Option ℕ
unfolding scan consider
pick procs = (scan 0 procs (record { best = none; best_prio = mlfq_levels; best_qtime = 0 })).best

-- `best` is verified again under its own lock; the second part is the new `c->proc`.
unfoldable pub dispatch : Option ℕ → List Proc → List Proc × Option ℕ
dispatch none procs = (procs, none)
dispatch (some i) procs = elim (get_elem? procs i) [
  | none ↦ (procs, none)
  | some p ↦
      if is_runnable p.state
      then (set procs i (record p { state = running }), some i)
      else (procs, none)
]
