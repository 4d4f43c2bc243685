-- ===== src/Proc/Sleep/Lost.antt =====
-- No wakeup is lost between `sleep_prepare` and `sleep`.
use unix_c_shell.Common.{
  ℕ, zero, suc, ◌≡◌, refl, ap, ◌∙◌, false, some, List, [], ◌∷◌, ◌++◌, get_elem?, arith, ◌⊎◌, inl,
  inr,
}
use unix_c_shell.Proc.{Proc, Kernel, is_sleeping}
use unix_c_shell.Proc.Inv.{get_elem?-sweep}
use unix_c_shell.Proc.Mlfq.{mlfq_boost_all, boost_one}
use unix_c_shell.Proc.Sleep.{modify, sleep_prepare, sleep, sleep_one, wakeup, kkill}
use unix_c_shell.Proc.Sleep.Wakeups.{wakeup-Woken}
use unix_c_shell.Proc.Sleep.Killing.{kill_from-get_elem?, kill_one_cases}

-- What other harts may do to the table between two steps of a process.
pub data Event : Type 0 where
  wake : (chan : ℕ) → Event
  kill : (pid : ℕ) → Event
  boost : Event

unfoldable pub happen : Event → Kernel → Kernel
happen (wake chan) k = wakeup chan k
happen (kill pid) k = (kkill pid k).0
happen boost k = mlfq_boost_all k

unfoldable pub run_events : List Event → Kernel → Kernel
unfolding happen
run_events [] k = k
run_events (e ∷ es) k = run_events es (happen e k)

-- Process `i` is awake, and waits on `chan` at most.
record Awake (i chan : ℕ) (k : Kernel) : Type 0 where
  proc : Proc
  at_i : get_elem? k.procs i ≡ some proc
  awake : is_sleeping proc.state ≡ false
  waits : (proc.chan ≡ chan) ⊎ (proc.chan ≡ 0)

kkill-Awake : (pid i chan : ℕ) (k : Kernel) → Awake i chan k → Awake i chan (kkill pid k).0
unfolding kkill
kkill-Awake pid i chan k a =
    elim (kill_from-get_elem? pid k.procs k.mlfq_seq_counter i a.proc a.at_i) [
      | inl e ↦ record { proc = a.proc; at_i = e; awake = a.awake; waits = a.waits }
      | inr (s, e) ↦ record {
        proc = record a.proc { killed = 1 };
        at_i = e ∙ ap some (kill_one_cases a.proc s a.awake);
        awake = a.awake;
        waits = a.waits;
      }
    ]

boost_one_keeps :
    (p : Proc) (s : ℕ) → ((boost_one p s).0.state ≡ p.state) × ((boost_one p s).0.chan ≡ p.chan)
unfolding boost_one
boost_one_keeps p s = ground arith

mlfq_boost_all-Awake : (i chan : ℕ) (k : Kernel) → Awake i chan k → Awake i chan (mlfq_boost_all k)
unfolding mlfq_boost_all
mlfq_boost_all-Awake i chan k a =
    let (s, e) = get_elem?-sweep boost_one k.procs k.mlfq_seq_counter i a.proc a.at_i in
    let b = boost_one_keeps a.proc s in
    record {
      proc = (boost_one a.proc s).0;
      at_i = e;
      awake = ap is_sleeping b.0 ∙ a.awake;
      waits = ground arith;
    }

wakeup-Awake : (c i chan : ℕ) (k : Kernel) → Awake i chan k → Awake i chan (wakeup c k)
wakeup-Awake c i chan k a =
    let (p', g, w) = wakeup-Woken c k i a.proc a.at_i in
    record { proc = p'; at_i = g; awake = ground arith; waits = ground arith }

-- The wakeup that the process waits for frees it.
wakeup-Awake_self : (i chan : ℕ) (k : Kernel) → Awake i chan k → Awake i 0 (wakeup chan k)
wakeup-Awake_self i chan k a =
    let (p', g, w) = wakeup-Woken chan k i a.proc a.at_i in
    record { proc = p'; at_i = g; awake = ground arith; waits = ground arith }

run_events-Awake :
    (es : List Event) (i chan : ℕ) (k : Kernel) → Awake i chan k → Awake i chan (run_events es k)
unfolding run_events
run_events-Awake [] i chan k a = a
run_events-Awake (wake c ∷ es) i chan k a = run_events-Awake es i chan _ (wakeup-Awake c i chan k a)
run_events-Awake (kill pid ∷ es) i chan k a =
    run_events-Awake es i chan _ (kkill-Awake pid i chan k a)
run_events-Awake (boost ∷ es) i chan k a =
    run_events-Awake es i chan _ (mlfq_boost_all-Awake i chan k a)

run_events-append :
    (es fs : List Event) (k : Kernel) → run_events (es ++ fs) k ≡ run_events fs (run_events es k)
unfolding run_events
run_events-append [] fs k = refl
run_events-append (e ∷ es) fs k = run_events-append es fs (happen e k)

modify-get_elem? :
    (i : ℕ) (f : Proc → Proc) (ps : List Proc) (p : Proc)
    → get_elem? ps i ≡ some p
    → get_elem? (modify i f ps) i ≡ some (f p)
modify-get_elem? i f [] p g = absurd (cc)
modify-get_elem? zero f (q ∷ ps) p g = let e : q ≡ p = cc in ap (λ x. some (f x)) e
modify-get_elem? (suc i) f (q ∷ ps) p g = modify-get_elem? i f ps p g

modify_nothing :
    (i : ℕ) (f : Proc → Proc) (ps : List Proc) (p : Proc)
    → get_elem? ps i ≡ some p
    → f p ≡ p
    → modify i f ps ≡ ps
modify_nothing i f [] p g e = refl
modify_nothing zero f (q ∷ ps) p g e = let s : q ≡ p = cc in rw (s, e)
modify_nothing (suc i) f (q ∷ ps) p g e = ap (λ r. q ∷ r) (modify_nothing i f ps p g e)

sleep-Awake : (i : ℕ) (k : Kernel) → Awake i 0 k → sleep i k ≡ k
unfolding sleep
sleep-Awake i k a =
    let e : sleep_one a.proc ≡ a.proc = ground arith in
    let m = modify_nothing i sleep_one k.procs a.proc a.at_i e in
    ap (λ ps. record k { procs = ps }) m

prepared-Awake :
    (i chan : ℕ) (k k' : Kernel) (p : Proc)
    → get_elem? k.procs i ≡ some p
    → is_sleeping p.state ≡ false
    → sleep_prepare i chan k ≡ some k'
    → Awake i chan k'
unfolding sleep_prepare
prepared-Awake i chan k k' p g s e =
    let waiting = λ (q : Proc). record q { chan = chan } in
    let same : k'.procs ≡ modify i waiting k.procs = ground arith in
    record {
      proc = waiting p;
      at_i = ap (λ ps. get_elem? ps i) same ∙ modify-get_elem? i waiting k.procs p g;
      awake = s;
      waits = inl refl;
    }

-- If the awaited channel is woken at any point between `sleep_prepare` and `sleep`, whatever other
-- wakeups, kills and boosts come before and after it, then `sleep` changes nothing: the process,
-- awake before, does not go to sleep.
pub sleep_not_lost :
    (i chan : ℕ) (k k' : Kernel) (p : Proc) (before after : List Event)
    → get_elem? k.procs i ≡ some p
    → is_sleeping p.state ≡ false
    → sleep_prepare i chan k ≡ some k'
    → let k'' = run_events (before ++ wake chan ∷ after) k' in
      (sleep i k'' ≡ k'')
      × ((q : Proc) × (get_elem? k''.procs i ≡ some q) × (is_sleeping q.state ≡ false))
unfolding run_events
sleep_not_lost i chan k k' p before after g s e =
    let a = run_events-Awake before i chan k' (prepared-Awake i chan k k' p g s e) in
    let b = run_events-Awake after i 0 _ (wakeup-Awake_self i chan (run_events before k') a) in
    let same = run_events-append before (wake chan ∷ after) k' in
    let c : Awake i 0 (run_events (before ++ wake chan ∷ after) k') = rw same b in
    (sleep-Awake i _ c, (c.proc, c.at_i, c.awake))
