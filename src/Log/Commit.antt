-- ===== src/Log/Commit.antt =====
-- The block writes of a commit, in order.
use mathlib.Core.List.{append-nil, append_assoc}
use mathlib.Core.Path.{subst, ap₂}
use unix_c_shell.Common.{
  ℕ, ◌+◌, ◌≤◌, ◌<◌, ◌≡◌, ◌≢◌, refl, sym, ap, ◌∙◌, Bool, true, false, List, [], ◌∷◌, ◌++◌, arith,
  All, length, lt→ltb, ==_refl, ◌⊎◌,
}
use unix_c_shell.Log.{
  Block, Log, update, logblocks, copy_block, install_from, install_trans, pack_head, unpack_head,
  is_logged, unpin, write_head, write_log_from, commit,
}
use unix_c_shell.Log.Replay.{
  Write, replay, replay-append, log_writes, install_writes, update_ne, replay_miss,
  log_writes_above,
}

-- The block is not in the log.
abbrev pub Outside : ℕ → ℕ → Type 0
Outside start x = (x < start) ⊎ (start + logblocks < x)

-- From `s` to `s'` exactly the writes `w` were made, on the cache and on the disk.
pub record Wrote (s s' : Log) (w : List Write) : Type 0 where
  pub trace : s'.trace ≡ s.trace ++ w
  pub disk : s'.disk ≡ replay w s.disk
  pub cache : s'.cache ≡ replay w s.cache
  pub start : s'.start ≡ s.start

pub Wrote-trans : (s t u : Log) (w x : List Write) → Wrote s t w → Wrote t u x → Wrote s u (w ++ x)
Wrote-trans s t u w x h k = record {
  trace = k.trace ∙ ap (λ l. l ++ x) h.trace ∙ append_assoc s.trace w x;
  disk = k.disk ∙ ap (replay x) h.disk ∙ sym (replay-append w x s.disk);
  cache = k.cache ∙ ap (replay x) h.cache ∙ sym (replay-append w x s.cache);
  start = k.start ∙ h.start;
}

copy_block-Wrote :
    (to from : ℕ) (s : Log) → Wrote s (copy_block to from s) ((to, s.cache from) ∷ [])
unfolding copy_block replay
copy_block-Wrote to from s = record {
  trace = ap (λ v. s.trace ++ (to, v) ∷ []) self;
  disk = ap (update s.disk to) self;
  cache = refl;
  start = refl;
}
  where
    self : update s.cache to (s.cache from) to ≡ s.cache from
    self = rw ==_refl

pub write_head-Wrote :
    (s : Log) → Wrote s (write_head s) ((s.start, pack_head s.lh (s.cache s.start)) ∷ [])
unfolding write_head replay
write_head-Wrote s = record {
  trace = ap (λ v. s.trace ++ (s.start, v) ∷ []) self;
  disk = ap (update s.disk s.start) self;
  cache = refl;
  start = refl;
}
  where
    self :
        update s.cache s.start (pack_head s.lh (s.cache s.start)) s.start
        ≡ pack_head s.lh (s.cache s.start)
    self = rw ==_refl

write_log_from-Wrote :
    (c : ℕ → Block) (t : ℕ) (bs : List ℕ) (s : Log)
    → ((x : ℕ) → Outside s.start x → s.cache x ≡ c x)
    → All (Outside s.start) bs
    → t + length bs ≤ logblocks
    → Wrote s (write_log_from t bs s) (log_writes s.start c t bs)
unfolding write_log_from replay copy_block
write_log_from-Wrote c t [] s same out size = record {
  trace = sym (append-nil s.trace);
  disk = refl;
  cache = refl;
  start = refl;
}
write_log_from-Wrote c t (b ∷ bs) s same out size =
    let slot = s.start + t + 1 in
    let s1 = copy_block slot b s in
    let first =
      subst (λ v. Wrote s s1 ((slot, v) ∷ [])) (same b out.0) (copy_block-Wrote slot b s) in
    Wrote-trans s s1 _ ((slot, c b) ∷ []) (log_writes s.start c (t + 1) bs) first (
      write_log_from-Wrote c (t + 1) bs s1
        (λ x o.
          let other : slot ≢ x = omega arith in
          update_ne s.cache slot x (s.cache b) other ∙ same x o)
        out.1 (omega arith))

unpin-Wrote :
    (r : Bool) (b : ℕ) (s s1 : Log) (w : List Write) → Wrote s s1 w → Wrote s (unpin r b s1) w
unfolding unpin
unpin-Wrote true b s s1 w h = h
unpin-Wrote false b s s1 w h = record {
  trace = h.trace;
  disk = h.disk;
  cache = h.cache;
  start = h.start;
}

pub install_from-Wrote :
    (r : Bool) (d : ℕ → Block) (t : ℕ) (bs : List ℕ) (start : ℕ) (s : Log)
    → s.start ≡ start
    → ((x : ℕ) → start < x → x ≤ start + logblocks → s.cache x ≡ d x)
    → All (Outside start) bs
    → t + length bs ≤ logblocks
    → Wrote s (install_from r t bs s) (install_writes start d t bs)
unfolding install_from replay
install_from-Wrote r d t [] start s e same out size = record {
  trace = sym (append-nil s.trace);
  disk = refl;
  cache = refl;
  start = refl;
}
install_from-Wrote r d t (b ∷ bs) start s e same out size =
    let s1 = copy_block b (s.start + t + 1) s in
    let w = unpin-Wrote r b s s1 _ (copy_block-Wrote b (s.start + t + 1) s) in
    let from : s.cache (s.start + t + 1) ≡ d (start + t + 1) =
      rw e (same (start + t + 1) (omega arith) (omega arith)) in
    let s2 = unpin r b s1 in
    let first = subst (λ v. Wrote s s2 ((b, v) ∷ [])) from w in
    Wrote-trans s s2 _ ((b, d (start + t + 1)) ∷ []) (install_writes start d (t + 1) bs) first (
      install_from-Wrote r d (t + 1) bs start s2 (w.start ∙ e)
        (λ x lo hi.
          let other : b ≢ x = omega (arith, out.0) in
          ap (λ c. c x) w.cache ∙ update_ne s.cache b x _ other ∙ same x lo hi)
        out.1 (omega arith))

-- What must hold when a commit starts: the header on the disk is empty, the logged blocks are not in
-- the log, and fit in it; every other block of the cache is as on the disk.
pub record IsReady (s : Log) : Type 0 where
  pub clear : unpack_head (s.disk s.start) ≡ []
  pub some_logged : 0 < length s.lh
  pub fits : length s.lh ≤ logblocks
  pub apart : All (Outside s.start) s.lh
  pub synced : (x : ℕ) → Outside s.start x → is_logged x s.lh ≡ false → s.cache x ≡ s.disk x

-- The writes of a commit: the log, the header, the installation, and the empty header.
abbrev pub head_write : Log → Write
head_write s = (s.start, pack_head s.lh (s.cache s.start))

abbrev pub clear_write : Log → Write
clear_write s = (s.start, pack_head [] (pack_head s.lh (s.cache s.start)))

abbrev pub commit_writes : Log → List Write
commit_writes s =
    log_writes s.start s.cache 0 s.lh
    ++ head_write s
      ∷ (install_writes s.start (replay (log_writes s.start s.cache 0 s.lh) s.cache) 0 s.lh
          ++ clear_write s ∷ [])

lh-write_log_from : (t : ℕ) (bs : List ℕ) (s : Log) → (write_log_from t bs s).lh ≡ s.lh
unfolding write_log_from copy_block
lh-write_log_from t [] s = refl
lh-write_log_from t (b ∷ bs) s = lh-write_log_from (t + 1) bs (copy_block (s.start + t + 1) b s)

pub lh-write_head : (s : Log) → (write_head s).lh ≡ s.lh
unfolding write_head
lh-write_head s = refl

head_eq :
    (start start' : ℕ) (lh lh' : List ℕ) (old old' : Block)
    → start ≡ start'
    → lh ≡ lh'
    → old ≡ old'
    → ◌≡◌ {A = Write} (start, pack_head lh old) (start', pack_head lh' old')
head_eq start start' lh lh' old old' e l o = λ i. (e i, pack_head (l i) (o i))

lh-install_from : (r : Bool) (t : ℕ) (bs : List ℕ) (s : Log) → (install_from r t bs s).lh ≡ s.lh
unfolding install_from copy_block unpin
lh-install_from r t [] s = refl
lh-install_from true t (b ∷ bs) s = lh-install_from true (t + 1) bs _
lh-install_from false t (b ∷ bs) s = lh-install_from false (t + 1) bs _

pub install_writes_apart :
    (start : ℕ) (d : ℕ → Block) (t : ℕ) (bs : List ℕ) (x : ℕ)
    → start ≤ x
    → x ≤ start + logblocks
    → All (Outside start) bs
    → All (λ (w : Write). w.0 ≢ x) (install_writes start d t bs)
install_writes_apart start d t [] x lo hi h = tt
install_writes_apart start d t (b ∷ bs) x lo hi h =
    (omega (arith, h.0), install_writes_apart start d (t + 1) bs x lo hi h.1)

module _ (s : Log) (r : IsReady s) where
  -- The states of a commit: after the log, the header, and the installation.
  abbrev logged : Log
  logged = write_log_from 0 s.lh s

  abbrev headed : Log
  headed = write_head logged

  abbrev area : ℕ → Block
  area = replay (log_writes s.start s.cache 0 s.lh) s.cache

  logged-Wrote : Wrote s logged (log_writes s.start s.cache 0 s.lh)
  logged-Wrote = write_log_from-Wrote s.cache 0 s.lh s (λ x o. refl) r.apart (omega (arith, r.fits))

  area_start : area s.start ≡ s.cache s.start
  area_start =
      replay_miss (log_writes s.start s.cache 0 s.lh) s.cache s.start
        (log_writes_above s.start s.cache 0 s.lh s.start (omega arith))

  logged_start : logged.cache logged.start ≡ s.cache s.start
  logged_start = let w = logged-Wrote in ap₂ (λ c x. c x) w.cache w.start ∙ area_start

  headed-Wrote : Wrote logged headed (head_write s ∷ [])
  headed-Wrote =
      subst (λ (x : Write). Wrote logged headed (x ∷ []))
        (head_eq _ _ _ _ _ _ logged-Wrote.start (lh-write_log_from 0 s.lh s) logged_start)
        (write_head-Wrote logged)

  headed_area : (x : ℕ) → s.start < x → headed.cache x ≡ area x
  unfolding replay
  headed_area x lt =
      let other : s.start ≢ x = omega arith in
      ap (λ c. c x) headed-Wrote.cache
      ∙ update_ne logged.cache s.start x (head_write s).1 other
      ∙ ap (λ c. c x) logged-Wrote.cache

  headed_start : headed.cache s.start ≡ (head_write s).1
  unfolding replay
  headed_start = ap (λ c. c s.start) headed-Wrote.cache ∙ (rw ==_refl)

  installed-Wrote : Wrote headed (install_trans false headed) (install_writes s.start area 0 s.lh)
  unfolding install_trans
  installed-Wrote =
      subst
        (λ lh.
          Wrote headed (install_from false 0 headed.lh headed) (install_writes s.start area 0 lh))
        headed_lh
        (install_from-Wrote false area 0 headed.lh s.start headed
          (headed-Wrote.start ∙ logged-Wrote.start) (λ x lo hi. headed_area x lo)
          (subst (All (Outside s.start)) (sym headed_lh) r.apart)
          (omega (arith, r.fits, ap length headed_lh)))
    where
      headed_lh : headed.lh ≡ s.lh
      headed_lh = lh-write_head logged ∙ lh-write_log_from 0 s.lh s

  abbrev emptied : Log
  emptied = record (install_trans false headed) { lh = [] }

  emptied_start : emptied.cache emptied.start ≡ (head_write s).1
  emptied_start =
      let w = installed-Wrote in
      ap₂ (λ c x. c x) w.cache (w.start ∙ headed-Wrote.start ∙ logged-Wrote.start)
      ∙ replay_miss (install_writes s.start area 0 s.lh) headed.cache s.start
          (install_writes_apart s.start area 0 s.lh s.start (omega arith) (omega arith) r.apart)
      ∙ headed_start

  cleared-Wrote : Wrote emptied (write_head emptied) (clear_write s ∷ [])
  cleared-Wrote =
      subst (λ (x : Write). Wrote emptied (write_head emptied) (x ∷ []))
        (head_eq _ _ _ _ _ _ (installed-Wrote.start ∙ headed-Wrote.start ∙ logged-Wrote.start) refl
          emptied_start)
        (write_head-Wrote emptied)

  -- A commit makes exactly these writes.
  pub commit-Wrote : Wrote s (commit s) (commit_writes s)
  unfolding commit
  commit-Wrote = rw (lt→ltb 0 (length s.lh) r.some_logged) (
      Wrote-trans s logged (write_head emptied) (log_writes s.start s.cache 0 s.lh)
        (head_write s ∷ (install_writes s.start area 0 s.lh ++ clear_write s ∷ [])) logged-Wrote
        (Wrote-trans logged headed (write_head emptied) (head_write s ∷ [])
          (install_writes s.start area 0 s.lh ++ clear_write s ∷ []) headed-Wrote
          (Wrote-trans headed emptied (write_head emptied) (install_writes s.start area 0 s.lh)
            (clear_write s ∷ []) emptied-Wrote cleared-Wrote)))
    where
      emptied-Wrote : Wrote headed emptied (install_writes s.start area 0 s.lh)
      emptied-Wrote =
          let w = installed-Wrote in
          record { trace = w.trace; disk = w.disk; cache = w.cache; start = w.start }
