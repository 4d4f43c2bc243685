-- ===== src/Log/Replay.antt =====
-- Sequences of block writes, and the log area that they leave.
use unix_c_shell.Common.{
  ℕ, suc, ◌+◌, ◌≤◌, ◌<◌, ◌≡◌, ◌≢◌, refl, sym, ap, ◌∙◌, true, false, List, [], ◌∷◌, ◌++◌, ◌==◌,
  arith, All, length, take, drop, ==_ne, ==_refl, ==_iff, Bool-cases, ◌⊎◌, inl, inr,
}
use unix_c_shell.Log.{Block, update, is_logged, pack_head, unpack_head}

abbrev pub Write : Type 0
Write = ℕ × Block

-- The disk after the writes.
unfoldable pub replay : List Write → (ℕ → Block) → ℕ → Block
replay [] d = d
replay ((b, v) ∷ w) d = replay w (update d b v)

pub replay-append :
    (w w' : List Write) (d : ℕ → Block) → replay (w ++ w') d ≡ replay w' (replay w d)
unfolding replay
replay-append [] w' d = refl
replay-append ((b, v) ∷ w) w' d = replay-append w w' (update d b v)

pub update_ne : (d : ℕ → Block) (b x : ℕ) (v : Block) → b ≢ x → update d b v x ≡ d x
update_ne d b x v h = rw (==_ne x b (λ e. h (sym e)))

-- A block that no write is for keeps its content.
pub replay_miss :
    (w : List Write) (d : ℕ → Block) (x : ℕ) → All (λ (c : Write). c.0 ≢ x) w → replay w d x ≡ d x
unfolding replay
replay_miss [] d x h = refl
replay_miss ((b, v) ∷ w) d x h = replay_miss w (update d b v) x h.1 ∙ update_ne d b x v h.0

-- Each write puts the content that `c` gives to its block.
abbrev pub IsOf : (ℕ → Block) → List Write → Type 0
IsOf c = All (λ (x : Write). x.1 ≡ c x.0)

pub replay_keeps :
    (c : ℕ → Block) (w : List Write) (d : ℕ → Block) (x : ℕ)
    → IsOf c w
    → d x ≡ c x
    → replay w d x ≡ c x
unfolding replay
replay_keeps c [] d x h e = e
replay_keeps c ((b, v) ∷ w) d x h e =
    replay_keeps c w (update d b v) x h.1 (at_x (Bool-cases (x == b)))
  where
    at_x : ((x == b) ≡ true) ⊎ ((x == b) ≡ false) → update d b v x ≡ c x
    at_x (inl t) = rw t (h.0 ∙ ap c (sym ((==_iff x b).0 t)))
    at_x (inr f) = rw f e

pub take-append_length {ℓ} : {A : Type ℓ} (xs ys : List A) → take (length xs) (xs ++ ys) ≡ xs
take-append_length [] ys = refl
take-append_length (x ∷ xs) ys = ap (λ l. x ∷ l) (take-append_length xs ys)

-- The header that is read is the header that was written.
pub unpack_head-pack_head : (lh : List ℕ) (old : Block) → unpack_head (pack_head lh old) ≡ lh
unfolding pack_head unpack_head
unpack_head-pack_head lh old = take-append_length lh (drop (suc (length lh)) old)

-- The writes of `write_log`, where `c` is the cache, and those of `install_trans`, from the log area
-- of the disk `d`.
abbrev pub log_writes : (start : ℕ) → (ℕ → Block) → (t : ℕ) → List ℕ → List Write
log_writes start c t [] = []
log_writes start c t (b ∷ bs) = (start + t + 1, c b) ∷ log_writes start c (t + 1) bs

abbrev pub install_writes : (start : ℕ) → (ℕ → Block) → (t : ℕ) → List ℕ → List Write
install_writes start d t [] = []
install_writes start d t (b ∷ bs) = (b, d (start + t + 1)) ∷ install_writes start d (t + 1) bs

-- The log area of `d` holds the contents that `c` gives to the blocks.
abbrev pub Slots : (start : ℕ) → (c d : ℕ → Block) → (t : ℕ) → List ℕ → Type 0
Slots start c d t [] = Unit
Slots start c d t (b ∷ bs) = (d (start + t + 1) ≡ c b) × Slots start c d (t + 1) bs

pub Slots-IsOf :
    (start : ℕ) (c d : ℕ → Block) (t : ℕ) (bs : List ℕ)
    → Slots start c d t bs
    → IsOf c (install_writes start d t bs)
Slots-IsOf start c d t [] h = tt
Slots-IsOf start c d t (b ∷ bs) h = (h.0, Slots-IsOf start c d (t + 1) bs h.1)

pub Slots-agree :
    (start : ℕ) (c d d' : ℕ → Block) (t : ℕ) (bs : List ℕ)
    → ((x : ℕ) → start < x → x ≤ start + t + length bs → d' x ≡ d x)
    → Slots start c d t bs
    → Slots start c d' t bs
Slots-agree start c d d' t [] same h = tt
Slots-agree start c d d' t (b ∷ bs) same h = (
  same (start + t + 1) (omega arith) (omega arith) ∙ h.0,
  Slots-agree start c d d' (t + 1) bs (λ x lo hi. same x lo (omega arith)) h.1,
)

pub log_writes_above :
    (start : ℕ) (c : ℕ → Block) (t : ℕ) (bs : List ℕ) (x : ℕ)
    → x ≤ start + t
    → All (λ (w : Write). w.0 ≢ x) (log_writes start c t bs)
log_writes_above start c t [] x h = tt
log_writes_above start c t (b ∷ bs) x h =
    (omega arith, log_writes_above start c (t + 1) bs x (omega arith))

-- `write_log` fills the log area.
pub replay-Slots :
    (start : ℕ) (c d : ℕ → Block) (t : ℕ) (bs : List ℕ)
    → Slots start c (replay (log_writes start c t bs) d) t bs
unfolding replay
replay-Slots start c d t [] = tt
replay-Slots start c d t (b ∷ bs) = (
  replay_miss (log_writes start c (t + 1) bs) _ (start + t + 1)
        (log_writes_above start c (t + 1) bs (start + t + 1) (omega arith))
      ∙ (rw ==_refl),
  replay-Slots start c (update d (start + t + 1) (c b)) (t + 1) bs,
)

-- After the installation every logged block has its content.
pub replay_install :
    (start : ℕ) (c d e : ℕ → Block) (t : ℕ) (bs : List ℕ) (x : ℕ)
    → Slots start c d t bs
    → is_logged x bs ≡ true
    → replay (install_writes start d t bs) e x ≡ c x
unfolding replay is_logged
replay_install start c d e t [] x h l = absurd (cc)
replay_install start c d e t (b ∷ bs) x h l = elim (Bool-cases (b == x)) [
  | inl same ↦
      let b-x : b ≡ x = (==_iff b x).0 same in
      replay_keeps c (install_writes start d (t + 1) bs) (update e b (d (start + t + 1))) x
        (Slots-IsOf start c d (t + 1) bs h.1) (rw (sym b-x) (rw ==_refl h.0))
  | inr other ↦
      replay_install start c d (update e b (d (start + t + 1))) (t + 1) bs x h.1 (ground arith)
]
