-- ===== src/Log/Reserve.antt =====
-- The reservation of log space: no file system call runs out of it.
use unix_c_shell.Common.{
  ℕ, suc, ◌+◌, ◌-◌, ◌*◌, ◌≤◌, ◌<◌, ◌≡◌, ◌≢◌, refl, sym, ap, ◌∙◌, Bool, true, false, Option, none,
  some, List, [], ◌∷◌, ◌++◌, arith, All, length, length-append, Bool-cases, ltb, if◌then◌else◌, inl,
  inr,
}
use unix_c_shell.Log.{
  Log, maxopblocks, logblocks, begin_op, end_op, end_commit, log_write, commit, write_head,
  install_trans, write_log_from, install_from, copy_block, bwrite, unpin,
}
use unix_c_shell.Log.Commit.{lh-write_head}

abbrev pub sum : List ℕ → ℕ
sum [] = 0
sum (x ∷ xs) = x + sum xs

sum_middle : (xs ys : List ℕ) (n : ℕ) → sum (xs ++ n ∷ ys) ≡ n + sum (xs ++ ys)
sum_middle [] ys n = refl
sum_middle (x ∷ xs) ys n = omega (arith, sum_middle xs ys n)

length_middle : (xs ys : List ℕ) (n : ℕ) → length (xs ++ n ∷ ys) ≡ suc (length (xs ++ ys))
length_middle [] ys n = refl
length_middle (x ∷ xs) ys n = ap suc (length_middle xs ys n)

-- No entry is above 10.
abbrev Small : List ℕ → Type 0
Small = All (λ n. n ≤ maxopblocks)

sum_bound : (xs : List ℕ) → Small xs → sum xs ≤ maxopblocks * length xs
sum_bound [] h = omega arith
sum_bound (x ∷ xs) h = omega (arith, h.0, sum_bound xs h.1)

Small-middle :
    (xs ys : List ℕ) (n m : ℕ) → m ≤ maxopblocks → Small (xs ++ n ∷ ys) → Small (xs ++ m ∷ ys)
Small-middle [] ys n m le h = (le, h.1)
Small-middle (x ∷ xs) ys n m le h = (h.0, Small-middle xs ys n m le h.1)

Small-drop : (xs ys : List ℕ) (n : ℕ) → Small (xs ++ n ∷ ys) → Small (xs ++ ys)
Small-drop [] ys n h = h.1
Small-drop (x ∷ xs) ys n h = (h.0, Small-drop xs ys n h.1)

at_middle : (xs ys : List ℕ) (n : ℕ) → Small (xs ++ n ∷ ys) → n ≤ maxopblocks
at_middle [] ys n h = h.0
at_middle (x ∷ xs) ys n h = at_middle xs ys n h.1

-- The log, for each running file system call the number of blocks that it may still log, and of the
-- calls that have left the first part of `end_op` with `do_commit` those that are still to commit and those
-- that have committed and are still to take the lock again.
pub record Calls : Type 0 where
  pub log : Log
  pub left : List ℕ
  pub to_commit : ℕ
  pub committed : ℕ

-- What the calls do, in any order: one begins, logs a block within its allowance of 10, or comes to its
-- end; the lock is free between the end, the commit and the end of the commit.
pub data Step : Calls → Calls → Type 0 where
  begin :
      (c : Calls) (s : Log)
      → begin_op c.log ≡ some s
      → Step c (record c { log = s; left = maxopblocks ∷ c.left })
  write :
      (xs ys : List ℕ) (n b : ℕ) (c : Calls) (s : Log)
      → c.left ≡ xs ++ suc n ∷ ys
      → log_write b c.log ≡ some s
      → Step c (record c { log = s; left = xs ++ n ∷ ys })
  finish :
      (xs ys : List ℕ) (n : ℕ) (do_commit : Bool) (c : Calls) (s : Log)
      → c.left ≡ xs ++ n ∷ ys
      → end_op c.log ≡ some (do_commit, s)
      → Step c (record c {
        log = s;
        left = xs ++ ys;
        to_commit = (if do_commit then 1 else 0) + c.to_commit;
      })
  commit_log :
      (c : Calls) (n : ℕ)
      → c.to_commit ≡ suc n
      → Step c (record c { log = commit c.log; to_commit = n; committed = suc c.committed })
  leave :
      (c : Calls) (n : ℕ)
      → c.committed ≡ suc n
      → Step c (record c { log = end_commit c.log; committed = n })

pub data Reach (c : Calls) : Calls → Type 0 where
  here : Reach c c
  next : {d e : Calls} → Reach c d → Step d e → Reach c e

-- The log has room for all that the running calls may still log; exactly while one call commits it is
-- marked so, and then no call runs.
pub record HasRoom (c : Calls) : Type 0 where
  pub one_commits : c.to_commit + c.committed ≡ (if c.log.committing then 1 else 0)
  pub alone : c.log.committing ≡ true → c.left ≡ []
  pub running : c.log.outstanding ≡ length c.left
  pub small : All (λ n. n ≤ maxopblocks) c.left
  pub room : length c.log.lh + sum c.left ≤ logblocks

length_zero {ℓ} : {A : Type ℓ} (xs : List A) → ltb 0 (length xs) ≡ false → xs ≡ []
length_zero [] h = refl
length_zero (x ∷ xs) h = absurd (ground arith)

-- The writes of a commit leave the count of the calls and the mark.
abbrev Same : Log → Log → Type 0
Same s t = (t.outstanding ≡ s.outstanding) × (t.committing ≡ s.committing)

Same-trans : (s t u : Log) → Same s t → Same t u → Same s u
Same-trans s t u h g = (g.0 ∙ h.0, g.1 ∙ h.1)

Same-install_from : (bs : List ℕ) (tail : ℕ) (s : Log) → Same s (install_from false tail bs s)
unfolding install_from unpin copy_block bwrite
Same-install_from [] tail s = (refl, refl)
Same-install_from (b ∷ bs) tail s = Same-install_from bs (tail + 1) _

Same-write_log_from : (bs : List ℕ) (tail : ℕ) (s : Log) → Same s (write_log_from tail bs s)
unfolding write_log_from copy_block bwrite
Same-write_log_from [] tail s = (refl, refl)
Same-write_log_from (b ∷ bs) tail s = Same-write_log_from bs (tail + 1) _

Same-write_head : (s : Log) → Same s (write_head s)
unfolding write_head bwrite
Same-write_head s = (refl, refl)

commit_lem : (s : Log) → ((commit s).lh ≡ []) × Same s (commit s)
unfolding commit install_trans
commit_lem s = elim (Bool-cases (ltb 0 (length s.lh))) [
  | inl e ↦
      rw (e, if◌then◌else◌)
        (let logged = write_log_from 0 s.lh s in
          let headed = write_head logged in
          let empty = record (install_trans false headed) { lh = [] } in
          (
            lh-write_head empty,
            Same-trans s headed (write_head empty)
                (Same-trans s logged headed (Same-write_log_from s.lh 0 s) (Same-write_head logged))
                (Same-trans headed empty (write_head empty) (Same-install_from headed.lh 0 headed)
                  (Same-write_head empty)),
          ))
  | inr e ↦ rw (e, if◌then◌else◌) (length_zero s.lh e, (refl, refl))
]

log_write_lem :
    (b : ℕ) (s s' : Log)
    → log_write b s ≡ some s'
    → (s'.outstanding ≡ s.outstanding)
      × (s'.committing ≡ s.committing)
      × (length s'.lh ≤ length s.lh + 1)
unfolding log_write
log_write_lem b s s' h = ground (arith, length-append s.lh (b ∷ []))

end_op_lem :
    (s s' : Log) (d : Bool)
    → end_op s ≡ some (d, s')
    → (s.committing ≡ false)
      × (s'.outstanding ≡ s.outstanding - 1)
      × (s'.committing ≡ d)
      × (s'.lh ≡ s.lh)
      × (d ≡ true → s'.outstanding ≡ 0)
unfolding end_op
end_op_lem s s' d h = ground arith

begin_op_lem :
    (s s' : Log)
    → begin_op s ≡ some s'
    → (s'.outstanding ≡ s.outstanding + 1)
      × (s'.committing ≡ false)
      × (s'.lh ≡ s.lh)
      × (length s.lh + (s.outstanding + 1) * maxopblocks ≤ logblocks)
      × (s.committing ≡ false)
unfolding begin_op
begin_op_lem s s' h = ground arith

-- A running call is not alone with a commit.
quiet_of :
    (c : Calls) (xs ys : List ℕ) (n : ℕ)
    → c.left ≡ xs ++ n ∷ ys
    → HasRoom c
    → c.log.committing ≡ false
quiet_of c xs ys n l h = elim (Bool-cases c.log.committing) [
  | inr e ↦ e
  | inl e ↦ absurd (omega (arith, ap length (h.alone e), ap length l, length_middle xs ys n))
]

-- The mark stands exactly while a call commits.
marked : (c : Calls) → HasRoom c → 0 < c.to_commit + c.committed → c.log.committing ≡ true
marked c h one = elim (Bool-cases c.log.committing) [
  | inl e ↦ e
  | inr e ↦ (let g : c.to_commit + c.committed ≡ 0 = rw e at h.one_commits in absurd (omega arith))
]

absurd_bool : {A : Type 0} → true ≡ false → A
absurd_bool h = absurd (cc)

none_left : (xs : List ℕ) → length xs ≡ 0 → xs ≡ []
none_left [] h = refl
none_left (x ∷ xs) h = absurd (omega arith)

begin-HasRoom :
    (c : Calls) (s : Log)
    → begin_op c.log ≡ some s
    → HasRoom c
    → HasRoom (record c { log = s; left = maxopblocks ∷ c.left })
begin-HasRoom c s e h =
    let w = begin_op_lem c.log s e in
    record {
      one_commits = rw w.1 (rw w.4 at h.one_commits);
      alone = λ m. absurd_bool (sym m ∙ w.1);
      running = omega (arith, w.0, h.running);
      small = (omega arith, h.small);
      room = omega (arith, w.3, ap length w.2, h.running, sum_bound c.left h.small);
    }

write-HasRoom :
    (xs ys : List ℕ) (n b : ℕ) (c : Calls) (s : Log)
    → c.left ≡ xs ++ suc n ∷ ys
    → log_write b c.log ≡ some s
    → HasRoom c
    → HasRoom (record c { log = s; left = xs ++ n ∷ ys })
write-HasRoom xs ys n b c s l e h =
    let w = log_write_lem b c.log s e in
    let small : Small (xs ++ suc n ∷ ys) = rw (← l) h.small in
    let at = at_middle xs ys (suc n) small in
    record {
      one_commits = rw w.1 h.one_commits;
      alone = λ m. absurd_bool (sym m ∙ w.1 ∙ quiet_of c xs ys (suc n) l h);
      running =
          w.0 ∙ h.running ∙ ap length l ∙ length_middle xs ys (suc n) ∙ sym (length_middle xs ys n);
      small = Small-middle xs ys (suc n) n (omega arith) small;
      room = omega (arith, w.2, h.room, ap sum l, sum_middle xs ys (suc n), sum_middle xs ys n);
    }

finish-HasRoom :
    (xs ys : List ℕ) (n : ℕ) (d : Bool) (c : Calls) (s : Log)
    → c.left ≡ xs ++ n ∷ ys
    → end_op c.log ≡ some (d, s)
    → HasRoom c
    → HasRoom
        (record c { log = s; left = xs ++ ys; to_commit = (if d then 1 else 0) + c.to_commit })
finish-HasRoom xs ys n d c s l e h =
    let w = end_op_lem c.log s d e in
    let small : Small (xs ++ n ∷ ys) = rw (← l) h.small in
    let none_commits : c.to_commit + c.committed ≡ 0 = rw w.0 at h.one_commits in
    let running : s.outstanding ≡ length (xs ++ ys) =
      omega (arith, w.1, h.running, ap length l, length_middle xs ys n) in
    record {
      one_commits = rw w.2 (omega (arith, none_commits));
      alone = λ m. none_left (xs ++ ys) (sym running ∙ w.4 (sym w.2 ∙ m));
      running = running;
      small = Small-drop xs ys n small;
      room = omega (arith, ap length w.3, h.room, ap sum l, sum_middle xs ys n);
    }

commit-HasRoom :
    (c : Calls) (n : ℕ)
    → c.to_commit ≡ suc n
    → HasRoom c
    → HasRoom (record c { log = commit c.log; to_commit = n; committed = suc c.committed })
commit-HasRoom c n e h =
    let w = commit_lem c.log in
    record {
      one_commits = rw w.1.1 (omega (arith, e, h.one_commits));
      alone = λ m. h.alone (sym w.1.1 ∙ m);
      running = w.1.0 ∙ h.running;
      small = h.small;
      room = omega (arith, ap length w.0, h.room);
    }

leave-HasRoom :
    (c : Calls) (n : ℕ)
    → c.committed ≡ suc n
    → HasRoom c
    → HasRoom (record c { log = end_commit c.log; committed = n })
unfolding end_commit
leave-HasRoom c n e h =
    let m = marked c h (omega (arith, e)) in
    let one : c.to_commit + c.committed ≡ 1 = rw m at h.one_commits in
    record {
      one_commits = omega (arith, e, one);
      alone = λ m. absurd_bool (sym m);
      running = h.running;
      small = h.small;
      room = h.room;
    }

Step-HasRoom : (c d : Calls) → Step c d → HasRoom c → HasRoom d
Step-HasRoom c d (begin _ s e) h = begin-HasRoom c s e h
Step-HasRoom c d (write xs ys n b _ s l e) h = write-HasRoom xs ys n b c s l e h
Step-HasRoom c d (finish xs ys n do_commit _ s l e) h = finish-HasRoom xs ys n do_commit c s l e h
Step-HasRoom c d (commit_log _ n e) h = commit-HasRoom c n e h
Step-HasRoom c d (leave _ n e) h = leave-HasRoom c n e h

-- From any state that has room, every state that the calls reach has room.
Reach-HasRoom : (c d : Calls) → Reach c d → HasRoom c → HasRoom d
Reach-HasRoom c _ here h = h
Reach-HasRoom c _ (next r st) h = Step-HasRoom _ _ st (Reach-HasRoom c _ r h)

-- Whether a result is there: whether the code did not panic.
abbrev pub Returns {ℓ} : {A : Type ℓ} → Option A → Type ℓ
Returns {A = A} o = (a : A) × (o ≡ some a)

Returns-of {ℓ} : {A : Type ℓ} (o : Option A) → o ≢ none → Returns o
Returns-of none h = absurd (h refl)
Returns-of (some a) h = (a, refl)

log_write_returns :
    (b : ℕ) (s : Log) → 0 < s.outstanding → length s.lh < logblocks → log_write b s ≢ none
unfolding log_write
log_write_returns b s one full e = ground arith

end_op_returns : (s : Log) → s.committing ≡ false → end_op s ≢ none
unfolding end_op
end_op_returns s quiet e = ground arith

-- When no call runs and the log is empty, whatever the calls do from there in any order, where the lock is
-- free between the parts of end_op and during a commit: a call that has allowance left can log any block and
-- `log_write` does not panic; and a running call can come to its end and `end_op` does not panic.
pub log_never_full :
    (s : Log) (d : Calls) (xs ys : List ℕ) (n b : ℕ)
    → s.committing ≡ false
    → s.outstanding ≡ 0
    → s.lh ≡ []
    → Reach (record { log = s; left = []; to_commit = 0; committed = 0 }) d
    → d.left ≡ xs ++ n ∷ ys
    → (0 < n → Returns (log_write b d.log)) × Returns (end_op d.log)
log_never_full s d xs ys n b quiet idle empty r l =
    let start : HasRoom (record { log = s; left = []; to_commit = 0; committed = 0 }) = record {
      one_commits = rw quiet refl;
      alone = λ m. absurd_bool (sym m ∙ quiet);
      running = idle;
      small = tt;
      room = omega (arith, ap length empty);
    } in
    let h = Reach-HasRoom _ d r start in
    let one : 0 < d.log.outstanding =
      omega (arith, h.running, ap length l, length_middle xs ys n) in
    (
      λ allowed.
          Returns-of _
            (log_write_returns b d.log one (omega (arith, h.room, ap sum l, sum_middle xs ys n))),
      Returns-of _ (end_op_returns d.log (quiet_of d xs ys n l h)),
    )
