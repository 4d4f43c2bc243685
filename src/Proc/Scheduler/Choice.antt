-- ===== src/Proc/Scheduler/Choice.antt =====
-- What `scheduler` chooses from the table.
use native.Mathlib.Nat.{add-zero}
use unix_c_shell.Common.{
  Bool-cases, ap, Option-cases, ◌↔◌, ◌∙◌, ℕ, suc, ◌+◌, ◌≤◌, ◌<◌, ◌≡◌, ◌⊎◌, inl, inr, refl, true,
  false, none, some, List, [], ◌∷◌, All, get_elem?, All-imp, set, arith,
}
use unix_c_shell.Proc.{Proc, mlfq_levels, is_runnable, running}
use unix_c_shell.Proc.Scheduler.{Best, is_none, consider, scan, pick, dispatch}

-- The order of the queues: first the priority, then the arrival time.
abbrev pub KeyLe : (prio qtime prio' qtime' : ℕ) → Type 0
KeyLe prio qtime prio' qtime' = (prio < prio') ⊎ (prio ≡ prio') × (qtime ≤ qtime')

KeyLe-trans : (a b c d e f : ℕ) → KeyLe a b c d → KeyLe c d e f → KeyLe a b e f
KeyLe-trans a b c d e f h k = grind arith

abbrev NotAfter : Best → Proc → Type 0
NotAfter b q =
    is_runnable q.state ≡ true → KeyLe b.best_prio b.best_qtime q.mlfq_priority q.mlfq_qtime

-- `r` has a choice, and it is at least as good as that of `b`.
abbrev Improves : Best → Best → Type 0
Improves b r = (is_none r.best ≡ false) × KeyLe r.best_prio r.best_qtime b.best_prio b.best_qtime

Improves-trans : (a b c : Best) → Improves a b → Improves b c → Improves a c
Improves-trans a b c h k = (k.0, KeyLe-trans _ _ _ _ _ _ k.1 h.1)

consider-Improves :
    (i : ℕ) (p : Proc) (b : Best) → is_none b.best ≡ false → Improves b (consider i p b)
unfolding consider
consider-Improves i p b h = grind arith

consider-NotAfter :
    (i : ℕ) (p : Proc) (b : Best)
    → is_runnable p.state ≡ true
    → (is_none (consider i p b).best ≡ false)
      × KeyLe (consider i p b).best_prio (consider i p b).best_qtime p.mlfq_priority p.mlfq_qtime
unfolding consider
consider-NotAfter i p b h = grind arith

scan-Improves :
    (ps : List Proc) (i : ℕ) (b : Best) → is_none b.best ≡ false → Improves b (scan i ps b)
unfolding scan
scan-Improves [] i b h = grind arith
scan-Improves (p ∷ ps) i b h =
    let c = consider-Improves i p b h in
    Improves-trans b (consider i p b) _ c (scan-Improves ps (i + 1) (consider i p b) c.0)

scan-NotAfter : (ps : List Proc) (i : ℕ) (b : Best) → All (NotAfter (scan i ps b)) ps
unfolding scan
scan-NotAfter [] i b = tt
scan-NotAfter (p ∷ ps) i b = (
  λ h.
      let c = consider-NotAfter i p b h in
      KeyLe-trans _ _ _ _ _ _ (scan-Improves ps (i + 1) (consider i p b) c.0).1 c.1,
  scan-NotAfter ps (i + 1) (consider i p b),
)

-- Without a choice there was none before, and the scan met no runnable process.
scan_idle :
    (ps : List Proc) (i : ℕ) (b : Best)
    → (scan i ps b).best ≡ none
    → (b.best ≡ none) × All (λ q. is_runnable q.state ≡ false) ps
unfolding scan
scan_idle [] i b h = (h, tt)
scan_idle (p ∷ ps) i b h =
    let (c, rest) = scan_idle ps (i + 1) (consider i p b) h in (before p c, (at_head p c, rest))
  where
    at_head : (q : Proc) → (consider i q b).best ≡ none → is_runnable q.state ≡ false
    at_head q c = elim (Bool-cases (is_runnable q.state)) [
      | inl e ↦ cc ((consider-NotAfter i q b e).0)
      | inr e ↦ e
    ]

    before : (q : Proc) → (consider i q b).best ≡ none → b.best ≡ none
    before q c = elim (Option-cases b.best) [
      | inl e ↦ e
      | inr (j, e) ↦ cc ((consider-Improves i q b (cc)).0)
    ]

abbrev chosen : ℕ → Proc → Best
chosen i p = record { best = some i; best_prio = p.mlfq_priority; best_qtime = p.mlfq_qtime }

consider_source :
    (i : ℕ) (p : Proc) (b : Best)
    → (consider i p b ≡ b) ⊎ (consider i p b ≡ chosen i p) × (is_runnable p.state ≡ true)
unfolding consider
consider_source i p b = grind arith

-- The choice after the scan is the one before it, or a runnable process of the table.
abbrev Source : ℕ → List Proc → Best → Best → Type 0
Source i ps b r =
    (r ≡ b)
    ⊎ ((j : ℕ) × (p : Proc) × (r ≡ chosen (i + j) p)
        × (get_elem? ps j ≡ some p)
        × (is_runnable p.state ≡ true))

scan-Source : (ps : List Proc) (i : ℕ) (b : Best) → Source i ps b (scan i ps b)
unfolding scan
scan-Source [] i b = inl refl
scan-Source (p ∷ ps) i b = elim (scan-Source ps (i + 1) (consider i p b)) [
  | inl e ↦ elim (consider_source i p b) [
    | inl e' ↦ inl (e ∙ e')
    | inr (e', h) ↦ inr (0, p, rw add-zero (e ∙ e'), refl, h)
  ]
  | inr (j, q, e, g, h) ↦
      let s : i + 1 + j ≡ i + suc j = omega arith in inr (suc j, q, rw (← s) e, g, h)
]

scan_nothing :
    (ps : List Proc) (i : ℕ) (b : Best)
    → All (λ q. is_runnable q.state ≡ false) ps
    → scan i ps b ≡ b
unfolding scan consider
scan_nothing [] i b h = refl
scan_nothing (p ∷ ps) i b h = rw h.0 (scan_nothing ps (i + 1) b h.1)

abbrev start : Best
start = record { best = none; best_prio = mlfq_levels; best_qtime = 0 }

dispatch_lem :
    (i : ℕ) (p : Proc) (procs : List Proc)
    → get_elem? procs i ≡ some p
    → is_runnable p.state ≡ true
    → dispatch (some i) procs ≡ (set procs i (record p { state = running }), some i)
unfolding dispatch
dispatch_lem i p procs g e = rw (g, e, dispatch)

-- The process that the scheduler chooses is runnable, and no runnable process of the table stands
-- before it in the order of (priority, arrival time); the dispatch makes it the running process and
-- leaves the others.
pub pick_least :
    (procs : List Proc) (i : ℕ)
    → pick procs ≡ some i
    → (p : Proc) × (get_elem? procs i ≡ some p)
      × (is_runnable p.state ≡ true)
      × All
          (λ q.
            (is_runnable q.state ≡ false)
            ⊎ KeyLe p.mlfq_priority p.mlfq_qtime q.mlfq_priority q.mlfq_qtime)
          procs
      × (dispatch (pick procs) procs ≡ (set procs i (record p { state = running }), some i))
unfolding pick
pick_least procs i h = elim (scan-Source procs 0 start) [
  | inl e ↦ absurd (cc)
  | inr (j, p, e, g, live) ↦
      let same : j ≡ i = ground arith in
      let least : All (NotAfter (scan 0 procs start)) procs = scan-NotAfter procs 0 start in
      let here : get_elem? procs i ≡ some p = rw (← same) g in
      (
        p,
        here,
        live,
        All-imp _ _ procs
            (λ q le. elim (Bool-cases (is_runnable q.state)) [ inl r ↦ inr (le r) | inr r ↦ inl r ])
            (rw e at least),
        ap (λ c. dispatch c procs) h ∙ dispatch_lem i p procs here live,
      )
]

-- The scheduler idles exactly when no process is runnable.
pub pick-none :
    (procs : List Proc) → pick procs ≡ none ↔ All (λ q. is_runnable q.state ≡ false) procs
unfolding pick
pick-none procs =
    (λ h. (scan_idle procs 0 start h).1, λ h. ap (λ b. b.best) (scan_nothing procs 0 start h))
