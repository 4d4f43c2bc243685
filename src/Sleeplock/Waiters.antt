-- ===== src/Sleeplock/Waiters.antt =====
-- No process is left waiting for a free lock.
use mathlib.Core.Path.{subst}
use unix_c_shell.Common.{
  ℕ, zero, suc, ◌≡◌, ◌≢◌, refl, sym, ◌∙◌, ap, Bool, true, false, Option, none, some, List, [], ◌∷◌,
  ◌==◌, All, arith, get_elem?, Bool-cases, inl, inr, All-get_elem?, ◌⊎◌, ==_refl,
}
use unix_c_shell.Proc.{Proc, Kernel, runnable, is_sleeping, sweep}
use unix_c_shell.Proc.Mlfq.{mlfq_boost_all, boost_one}
use unix_c_shell.Proc.Sleep.{
  modify, sleep_prepare, sleep, sleep_one, wakeup, wakeup_one, kkill, kill_from, kill_one,
}
use unix_c_shell.Proc.Sleep.Lost.{Event, wake, kill, boost, happen}
use unix_c_shell.Proc.Sleep.Wakeups.{wakeup-Woken, Woken}
use unix_c_shell.Sleeplock.{
  Sleeplock, initsleeplock, acquiresleep, releasesleep, holdingsleep, pid_of,
}

module _ (lk : ℕ) where
  -- What the processes and the other harts do.
  pub data Step : Sleeplock → Sleeplock → Type 0 where
    -- a round of acquiresleep
    acquire :
        (l l' : Sleeplock) (i : ℕ) (got : Bool) → acquiresleep lk i l ≡ some (got, l') → Step l l'
    -- the second half of a wait
    fall_asleep : (l : Sleeplock) (i : ℕ) → Step l (record l { kernel = sleep i l.kernel })
    release : (l : Sleeplock) → l.locked ≡ true → Step l (releasesleep lk l)
    -- a wait on another channel
    wait_elsewhere :
        (l : Sleeplock) (i chan : ℕ) (k : Kernel)
        → chan ≢ lk
        → sleep_prepare i chan l.kernel ≡ some k
        → Step l (record l { kernel = k })
    -- wakeups, kills and boosts
    event : (l : Sleeplock) (e : Event) → Step l (record l { kernel = happen e l.kernel })

  pub data Reach (l : Sleeplock) : Sleeplock → Type 0 where
    here : Reach l l
    next : {m n : Sleeplock} → Reach l m → Step m n → Reach l n

  -- No process waits on the address of the lock.
  abbrev pub NoneWaits : Kernel → Type 0
  NoneWaits k = All (λ p. p.chan ≢ lk) k.procs

  -- If the lock is free, no process waits for it.
  pub record IsServed (l : Sleeplock) : Type 0 where
    pub served : l.locked ≡ false → NoneWaits l.kernel

-- A wakeup of `c` leaves a process waiting for nothing that it did not wait for.
wakeup_one-chan :
    (lk c : ℕ) (p : Proc) (s : ℕ)
    → lk ≢ 0
    → (p.chan ≢ lk) ⊎ (c ≡ lk)
    → (wakeup_one c p s).0.chan ≢ lk
unfolding wakeup_one
wakeup_one-chan lk c p s z h e = ground arith

kill_one-chan : (p : Proc) (s : ℕ) → (kill_one p s).0.chan ≡ p.chan
unfolding kill_one
kill_one-chan p s = ground arith

boost_one-chan : (p : Proc) (s : ℕ) → (boost_one p s).0.chan ≡ p.chan
unfolding boost_one
boost_one-chan p s = ground arith

sweep-All :
    (P : Proc → Type 0) (body : Proc → ℕ → Proc × ℕ) (ps : List Proc) (s : ℕ)
    → ((p : Proc) (s : ℕ) → P p → P (body p s).0)
    → All P ps
    → All P (sweep body ps s).0
unfolding sweep
sweep-All P body [] s f h = tt
sweep-All P body (p ∷ ps) s f h = (f p s h.0, sweep-All P body ps (body p s).1 f h.1)

-- The sweep of a wakeup leaves no waiter, whoever waited before.
sweep_clears :
    (lk : ℕ) (ps : List Proc) (s : ℕ)
    → lk ≢ 0
    → All (λ p. p.chan ≢ lk) (sweep (wakeup_one lk) ps s).0
unfolding sweep
sweep_clears lk [] s h = tt
sweep_clears lk (p ∷ ps) s h =
    (wakeup_one-chan lk lk p s h (inr refl), sweep_clears lk ps (wakeup_one lk p s).1 h)

modify-All :
    (P : Proc → Type 0) (i : ℕ) (f : Proc → Proc) (ps : List Proc)
    → ((p : Proc) → P p → P (f p))
    → All P ps
    → All P (modify i f ps)
modify-All P i f [] g h = tt
modify-All P zero f (p ∷ ps) g h = (g p h.0, h.1)
modify-All P (suc i) f (p ∷ ps) g h = (h.0, modify-All P i f ps g h.1)

kill_from-All :
    (P : Proc → Type 0) (pid : ℕ) (ps : List Proc) (s : ℕ)
    → ((p : Proc) (s : ℕ) → P p → P (kill_one p s).0)
    → All P ps
    → All P (kill_from pid ps s).0
unfolding kill_from
kill_from-All P pid [] s f h = tt
kill_from-All P pid (p ∷ ps) s f h = elim (Bool-cases (p.pid == pid)) [
  | inl e ↦ rw e (f p s h.0, h.1)
  | inr e ↦ rw e (h.0, kill_from-All P pid ps s f h.1)
]

-- Wakeups, kills and boosts give no process a channel.
happen-NoneWaits :
    (lk : ℕ) (e : Event) (k : Kernel) → lk ≢ 0 → NoneWaits lk k → NoneWaits lk (happen e k)
unfolding happen wakeup kkill mlfq_boost_all
happen-NoneWaits lk (wake c) k z h =
    sweep-All (λ p. p.chan ≢ lk) (wakeup_one c) k.procs _
      (λ p s g. wakeup_one-chan lk c p s z (inl g)) h
happen-NoneWaits lk (kill pid) k z h =
    kill_from-All (λ p. p.chan ≢ lk) pid k.procs _ (λ p s g e. g (sym (kill_one-chan p s) ∙ e)) h
happen-NoneWaits lk boost k z h =
    sweep-All (λ p. p.chan ≢ lk) boost_one k.procs _ (λ p s g e. g (sym (boost_one-chan p s) ∙ e)) h

sleep-NoneWaits : (lk i : ℕ) (k : Kernel) → NoneWaits lk k → NoneWaits lk (sleep i k)
unfolding sleep
sleep-NoneWaits lk i k h = modify-All (λ p. p.chan ≢ lk) i sleep_one k.procs (λ p g. ground arith) h

prepare-NoneWaits :
    (lk i chan : ℕ) (k k' : Kernel)
    → chan ≢ lk
    → sleep_prepare i chan k ≡ some k'
    → NoneWaits lk k
    → NoneWaits lk k'
unfolding sleep_prepare
prepare-NoneWaits lk i chan k k' ne e h = elim (Bool-cases (chan == 0)) [
  | inl z ↦ absurd (let g : ◌≡◌ {A = Option Kernel} none (some k') = rw z at e in cc)
  | inr z ↦
      (let waiting = λ (p : Proc). record p { chan = chan } in
        let g : ◌≡◌ {A = Option Kernel} (some (record k { procs = modify i waiting k.procs }))
            (some k') =
          rw z at e in
        let same : record k { procs = modify i waiting k.procs } ≡ k' = cc in
        subst (NoneWaits lk) same (modify-All (λ p. p.chan ≢ lk) i waiting k.procs (λ p g. ne) h))
]

-- After a round the lock is taken.
taken :
    (lk i : ℕ) (l l' : Sleeplock) (got : Bool)
    → acquiresleep lk i l ≡ some (got, l')
    → l'.locked ≡ true
unfolding acquiresleep
taken lk i l l' got e = ground arith

taken_false : true ≡ false → ⊥
taken_false h = cc

-- A round that does not get the lock leaves it taken, and one that does finds no waiter.
acquire-IsServed :
    (lk i : ℕ) (l l' : Sleeplock) (got : Bool)
    → acquiresleep lk i l ≡ some (got, l')
    → IsServed lk l'
acquire-IsServed lk i l l' got e = record {
  served = λ free. absurd (taken_false (sym (taken lk i l l' got e) ∙ free));
}

-- Every step keeps it.
pub Step-IsServed :
    (lk : ℕ) {l l' : Sleeplock} → lk ≢ 0 → Step lk l l' → IsServed lk l → IsServed lk l'
Step-IsServed lk z (acquire l l' i got e) h = acquire-IsServed lk i l l' got e
Step-IsServed lk z (fall_asleep l i) h = record {
  served = λ f. sleep-NoneWaits lk i l.kernel (h.served f);
}
Step-IsServed lk z (release l held) h = record {
  served =
      λ f. unfold releasesleep wakeup in sweep_clears lk l.kernel.procs l.kernel.mlfq_seq_counter z;
}
Step-IsServed lk z (wait_elsewhere l i chan k ne e) h = record {
  served = λ f. prepare-NoneWaits lk i chan l.kernel k ne e (h.served f);
}
Step-IsServed lk z (event l e) h = record {
  served = λ f. happen-NoneWaits lk e l.kernel z (h.served f);
}

pub Reach-IsServed :
    (lk : ℕ) {l l' : Sleeplock} → lk ≢ 0 → IsServed lk l → Reach lk l l' → IsServed lk l'
Reach-IsServed lk z h here = h
Reach-IsServed lk z h (next r s) = Step-IsServed lk z s (Reach-IsServed lk z h r)

initsleeplock-IsServed : (lk : ℕ) (k : Kernel) → NoneWaits lk k → IsServed lk (initsleeplock k)
unfolding initsleeplock
initsleeplock-IsServed lk k h = record { served = λ _. h }

-- What a release does to a process that sleeps on the lock.
abbrev pub Awake : Option Proc → Type 0
Awake p = (q : Proc) × (p ≡ some q) × (q.state ≡ runnable) × (q.chan ≡ 0)

released-Awake :
    (lk : ℕ) (l : Sleeplock) (j : ℕ) (p : Proc)
    → get_elem? l.kernel.procs j ≡ some p
    → p.chan ≡ lk
    → is_sleeping p.state ≡ true
    → Awake (get_elem? (releasesleep lk l).kernel.procs j)
unfolding releasesleep
released-Awake lk l j p at waits asleep = by_case (wakeup-Woken lk l.kernel j p at)
  where
    by_case :
        (p' : Proc) × (get_elem? (wakeup lk l.kernel).procs j ≡ some p') × Woken lk p p'
        → Awake (get_elem? (wakeup lk l.kernel).procs j)
    by_case (p', e, inl (other, _)) = absurd (other waits)
    by_case (p', e, inr (inl (_, _, same))) =
        (p', e, ap (λ (q : Proc). q.state) same, ap (λ (q : Proc). q.chan) same)
    by_case (p', e, inr (inr (_, up, _))) = absurd (taken_false (sym asleep ∙ up))

-- Take a lock, at an address other than 0, that is set up while no process waits for it. In every state
-- that rounds of acquiresleep, sleeps, releases, waits on other channels, wakeups, kills and boosts
-- lead to, a process that waits for the lock waits for one that is taken; when it is released,
-- each process that slept on it is runnable and waits no longer, and the next round of acquiresleep of
-- any process takes the lock with its pid.
pub no_waiter_lost :
    (lk : ℕ) (k : Kernel) {l : Sleeplock}
    → lk ≢ 0
    → NoneWaits lk k
    → Reach lk (initsleeplock k) l
    → ((j : ℕ) (p : Proc) → get_elem? l.kernel.procs j ≡ some p → p.chan ≡ lk → l.locked ≡ true)
      × ((j : ℕ) (p : Proc)
          → get_elem? l.kernel.procs j ≡ some p
          → p.chan ≡ lk
          → is_sleeping p.state ≡ true
          → Awake (get_elem? (releasesleep lk l).kernel.procs j))
      × ((i : ℕ)
          → (l' : Sleeplock) × (acquiresleep lk i (releasesleep lk l) ≡ some (true, l'))
            × (holdingsleep i l' ≡ true))
no_waiter_lost lk k {l} z none_waits r =
    let s = Reach-IsServed lk z (initsleeplock-IsServed lk k none_waits) r in
    (
      λ j p at waits. elim (Bool-cases l.locked) [
        | inl held ↦ held
        | inr free ↦
            absurd (All-get_elem? (λ q. q.chan ≢ lk) l.kernel.procs j p (s.served free) at waits)
      ],
      λ j p at waits asleep. released-Awake lk l j p at waits asleep,
      λ i. (
        record (releasesleep lk l) { locked = true; pid = pid_of i (releasesleep lk l).kernel },
        unfold acquiresleep releasesleep in refl,
        unfold holdingsleep in ==_refl (pid_of i (releasesleep lk l).kernel),
      ),
    )
