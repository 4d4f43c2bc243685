-- ===== src/Log/Crash.antt =====
-- A crash between any two block writes of a commit, and the recovery after it.
use unix_c_shell.Common.{
  ℕ, zero, suc, ◌+◌, ◌-◌, ◌≤◌, ◌<◌, ◌≡◌, ◌≢◌, refl, sym, ap, ◌∙◌, false, List, [], ◌∷◌, ◌++◌, arith,
  All, length, take, leb, ==_refl, Bool-cases, ◌⊎◌, inl, inr,
}
use unix_c_shell.Log.{Block, Log, update, logblocks, unpack_head, is_logged, commit, initlog}
use unix_c_shell.Log.Replay.{
  Write, replay, replay-append, replay_miss, replay_keeps, replay_install, IsOf, Slots, Slots-IsOf,
  Slots-agree, replay-Slots, log_writes, install_writes, update_ne, unpack_head-pack_head,
}
use unix_c_shell.Log.Commit.{
  Outside, IsReady, commit-Wrote, commit_writes, head_write, clear_write, install_writes_apart,
}
use unix_c_shell.Log.Recovery.{disk-initlog}

-- The disk when the machine stops after the first `n` writes of the commit.
abbrev pub crash_disk : Log → ℕ → ℕ → Block
crash_disk s n = replay (take n (commit (record s { trace = [] })).trace) s.disk

take-append_le {ℓ} :
    {A : Type ℓ} (n : ℕ) (xs ys : List A) → n ≤ length xs → take n (xs ++ ys) ≡ take n xs
take-append_le zero xs ys h = refl
take-append_le (suc n) [] ys h = absurd (omega arith)
take-append_le (suc n) (x ∷ xs) ys h = ap (λ l. x ∷ l) (take-append_le n xs ys (omega arith))

take-append_add {ℓ} :
    {A : Type ℓ} (xs ys : List A) (m : ℕ) → take (length xs + m) (xs ++ ys) ≡ xs ++ take m ys
take-append_add [] ys m = let z : 0 + m ≡ m = omega arith in ap (λ n. take n ys) z
take-append_add (x ∷ xs) ys m =
    let z : suc (length xs) + m ≡ suc (length xs + m) = omega arith in
    ap (λ n. take n (x ∷ (xs ++ ys))) z ∙ ap (λ l. x ∷ l) (take-append_add xs ys m)

take-nil {ℓ} : (A : Type ℓ) (k : ℕ) → take {A = A} k [] ≡ []
take-nil A zero = refl
take-nil A (suc k) = refl

All-take {ℓ κ} : {A : Type ℓ} (P : A → Type κ) (n : ℕ) (xs : List A) → All P xs → All P (take n xs)
All-take P zero xs h = tt
All-take P (suc n) [] h = tt
All-take P (suc n) (x ∷ xs) h = (h.0, All-take P n xs h.1)

length-log_writes :
    (start : ℕ) (c : ℕ → Block) (t : ℕ) (bs : List ℕ) → length (log_writes start c t bs) ≡ length bs
length-log_writes start c t [] = refl
length-log_writes start c t (b ∷ bs) = ap suc (length-log_writes start c (t + 1) bs)

-- The writes of `write_log` are in the log area.
log_writes_inside :
    (start : ℕ) (c : ℕ → Block) (t : ℕ) (bs : List ℕ) (x : ℕ)
    → t + length bs ≤ logblocks
    → (x ≤ start) ⊎ (start + logblocks < x)
    → All (λ (w : Write). w.0 ≢ x) (log_writes start c t bs)
log_writes_inside start c t [] x size o = tt
log_writes_inside start c t (b ∷ bs) x size o =
    (omega arith, log_writes_inside start c (t + 1) bs x (omega arith) o)

module _ (s : Log) (r : IsReady s) where
  abbrev w1 : List Write
  w1 = log_writes s.start s.cache 0 s.lh

  abbrev w3 : List Write
  w3 = install_writes s.start (replay w1 s.cache) 0 s.lh

  commit_trace : (commit (record s { trace = [] })).trace ≡ commit_writes s
  commit_trace =
      let r' : IsReady (record s { trace = [] }) = record {
        clear = r.clear;
        some_logged = r.some_logged;
        fits = r.fits;
        apart = r.apart;
        synced = r.synced;
      } in
      (commit-Wrote (record s { trace = [] }) r').trace

  -- Before the header is written the recovery finds nothing to do.
  crash_before :
      (n : ℕ)
      → n ≤ length s.lh
      → (x : ℕ) → Outside s.start x
      → (initlog s.start (crash_disk s n)).disk x ≡ s.disk x
  unfolding replay
  crash_before n h x o =
      let len = length-log_writes s.start s.cache 0 s.lh in
      let prefix : take n (commit (record s { trace = [] })).trace ≡ take n w1 =
        ap (take n) commit_trace ∙ take-append_le n w1 _ (omega (arith, len)) in
      let at : (y : ℕ) → (y ≤ s.start) ⊎ (s.start + logblocks < y) → crash_disk s n y ≡ s.disk y =
        λ y oy.
          ap (λ w. replay w s.disk y) prefix
          ∙ replay_miss (take n w1) s.disk y (
              All-take _ n w1
                (log_writes_inside s.start s.cache 0 s.lh y (omega (arith, r.fits)) oy)) in
      let empty = ap unpack_head (at s.start (inl (omega arith))) ∙ r.clear in
      disk-initlog s.start (crash_disk s n) [] empty tt (omega arith) x o ∙ at x (omega (arith, o))

  -- The disk when the header has just been written.
  abbrev headed_disk : ℕ → Block
  headed_disk = update (replay w1 s.disk) s.start (head_write s).1

  w3-IsOf : IsOf s.cache w3
  w3-IsOf =
      Slots-IsOf s.start s.cache (replay w1 s.cache) 0 s.lh
        (replay-Slots s.start s.cache s.cache 0 s.lh)

  headed_head : headed_disk s.start ≡ (head_write s).1
  headed_head = rw ==_refl

  -- A block that is not logged is on this disk as it is in the cache.
  headed_other : (x : ℕ) → Outside s.start x → is_logged x s.lh ≡ false → headed_disk x ≡ s.cache x
  headed_other x o l =
      let other : s.start ≢ x = omega (arith, o) in
      update_ne (replay w1 s.disk) s.start x (head_write s).1 other
      ∙ replay_miss w1 s.disk x
          (log_writes_inside s.start s.cache 0 s.lh x (omega (arith, r.fits)) (omega (arith, o)))
      ∙ sym (r.synced x o l)

  -- The log area that a part `w` of the installation leaves still holds the new contents.
  installing-Slots :
      (w : List Write)
      → ((x : ℕ) → s.start ≤ x → x ≤ s.start + logblocks → All (λ (c : Write). c.0 ≢ x) w)
      → Slots s.start s.cache (replay w headed_disk) 0 s.lh
  installing-Slots w apart =
      Slots-agree s.start s.cache (replay w1 s.disk) (replay w headed_disk) 0 s.lh
        (λ x lo hi.
          let other : s.start ≢ x = omega arith in
          replay_miss w headed_disk x (apart x (omega arith) (omega (arith, r.fits)))
          ∙ update_ne (replay w1 s.disk) s.start x (head_write s).1 other)
        (replay-Slots s.start s.cache s.disk 0 s.lh)

  w3_apart :
      (m x : ℕ) → s.start ≤ x → x ≤ s.start + logblocks → All (λ (c : Write). c.0 ≢ x) (take m w3)
  w3_apart m x lo hi =
      All-take _ m w3 (install_writes_apart s.start (replay w1 s.cache) 0 s.lh x lo hi r.apart)

  -- The header is on the disk, and the installation is under way.
  crash_installing :
      (m x : ℕ)
      → Outside s.start x
      → (initlog s.start (replay (take m w3) headed_disk)).disk x ≡ s.cache x
  crash_installing m x o =
      let d = replay (take m w3) headed_disk in
      let head =
        ap unpack_head (
          replay_miss (take m w3) headed_disk s.start
            (w3_apart m s.start (omega arith) (omega arith))
          ∙ headed_head)
        ∙ unpack_head-pack_head s.lh (s.cache s.start) in
      let slots = installing-Slots (take m w3) (w3_apart m) in
      disk-initlog s.start d s.lh head r.apart r.fits x o ∙ elim (Bool-cases (is_logged x s.lh)) [
        | inl l ↦ replay_install s.start s.cache d d 0 s.lh x slots l
        | inr l ↦
            replay_keeps s.cache (install_writes s.start d 0 s.lh) d x
              (Slots-IsOf s.start s.cache d 0 s.lh slots)
              (replay_keeps s.cache (take m w3) headed_disk x (All-take _ m w3 w3-IsOf)
                (headed_other x o l))
      ]

  -- The installation is over, and the header is empty again.
  crash_cleared :
      (x : ℕ)
      → Outside s.start x
      → (initlog s.start (replay (w3 ++ clear_write s ∷ []) headed_disk)).disk x ≡ s.cache x
  unfolding replay
  crash_cleared x o =
      let d = replay (w3 ++ clear_write s ∷ []) headed_disk in
      let last = replay-append w3 (clear_write s ∷ []) headed_disk in
      let head : unpack_head (d s.start) ≡ [] =
        ap (λ f. unpack_head (f s.start)) last ∙ (rw ==_refl (unpack_head-pack_head [] _)) in
      let other : s.start ≢ x = omega (arith, o) in
      disk-initlog s.start d [] head tt (omega arith) x o
      ∙ ap (λ f. f x) last
      ∙ update_ne (replay w3 headed_disk) s.start x (clear_write s).1 other
      ∙ elim (Bool-cases (is_logged x s.lh)) [
        | inl l ↦
            replay_install s.start s.cache (replay w1 s.cache) headed_disk 0 s.lh x
              (replay-Slots s.start s.cache s.cache 0 s.lh) l
        | inr l ↦ replay_keeps s.cache w3 headed_disk x w3-IsOf (headed_other x o l)
      ]

  installed_disk :
      (m : ℕ) (x : ℕ)
      → Outside s.start x
      → (initlog s.start (replay (take m (w3 ++ clear_write s ∷ [])) headed_disk)).disk x
        ≡ s.cache x
  installed_disk m x o = elim (Bool-cases (leb m (length w3))) [
    | inl le ↦
        ap (λ w. (initlog s.start (replay w headed_disk)).disk x)
          (take-append_le m w3 (clear_write s ∷ []) (ground arith))
        ∙ crash_installing m x o
    | inr gt ↦
        let k = m - length w3 - 1 in
        let e : m ≡ length w3 + suc k = ground arith in
        ap (λ w. (initlog s.start (replay w headed_disk)).disk x)
          (ap (λ l. take l (w3 ++ clear_write s ∷ [])) e
            ∙ take-append_add w3 (clear_write s ∷ []) (suc k)
            ∙ ap (λ l. w3 ++ clear_write s ∷ l) (take-nil Write k))
        ∙ crash_cleared x o
  ]

  crash_after :
      (n : ℕ)
      → length s.lh < n
      → (x : ℕ) → Outside s.start x
      → (initlog s.start (crash_disk s n)).disk x ≡ s.cache x
  unfolding replay
  crash_after n h x o =
      let m = n - length s.lh - 1 in
      let e : n ≡ length w1 + suc m = omega (arith, length-log_writes s.start s.cache 0 s.lh) in
      let rest = head_write s ∷ (w3 ++ clear_write s ∷ []) in
      let prefix =
        ap (take n) commit_trace
        ∙ ap (λ l. take l (w1 ++ rest)) e
        ∙ take-append_add w1 rest (suc m) in
      ap (λ w. (initlog s.start (replay w s.disk)).disk x) prefix
      ∙ ap (λ d. (initlog s.start d).disk x)
          (replay-append w1 (head_write s ∷ take m (w3 ++ clear_write s ∷ [])) s.disk)
      ∙ installed_disk m x o

  -- A commit is atomic. If the machine stops after any number `n` of its block writes, the recovery
  -- brings every block outside the log back to its content before the commit, when the header was not
  -- yet written, and to its new content, when it was.
  pub commit_atomic :
      (n x : ℕ)
      → Outside s.start x
      → (n ≤ length s.lh) × ((initlog s.start (crash_disk s n)).disk x ≡ s.disk x)
        ⊎ (length s.lh < n) × ((initlog s.start (crash_disk s n)).disk x ≡ s.cache x)
  commit_atomic n x o = elim (Bool-cases (leb n (length s.lh))) [
    | inl e ↦ let h : n ≤ length s.lh = ground arith in inl (h, crash_before n h x o)
    | inr e ↦ let h : length s.lh < n = ground arith in inr (h, crash_after n h x o)
  ]
