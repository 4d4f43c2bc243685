-- ===== src/Bytes/Strings.antt =====
-- The bounds of the string copies, and the comparison of areas.
use unix_c_shell.Common.{
  ℕ, zero, suc, ◌+◌, ◌%◌, ◌≤◌, ◌<◌, ◌≡◌, ◌≢◌, refl, ◌∙◌, true, ◌&&◌, arith, ltb, leb, ◌==◌,
  if◌then◌else◌, Bool-cases, inl, inr, ◌⊎◌, ◌↔◌,
}
use unix_c_shell.Bytes.{Memory, Sign, store, memset, memset_from, memcmp, difference, safestrcpy}

memset_from_lem :
    (i n dst c x : ℕ) (m : Memory)
    → memset_from i n dst c m x ≡ (if leb (dst + i) x && ltb x (dst + i + n) then c % 256 else m x)
unfolding memset_from store
memset_from_lem i zero dst c x m = ground arith
memset_from_lem i (suc n) dst c x m =
    memset_from_lem (i + 1) n dst c x (store m (dst + i) (c % 256)) ∙ (grind arith)

-- `memset` sets the `n` bytes from `dst` on to the low byte of `c`, and no other.
pub memset_lem :
    (dst c n x : ℕ) (m : Memory)
    → memset dst c n m x ≡ (if leb dst x && ltb x (dst + n) then c % 256 else m x)
unfolding memset
memset_lem dst c n x m = memset_from_lem 0 n dst c x m ∙ (grind arith)

-- The two areas have the same bytes.
abbrev pub SameBytes : (v1 v2 n : ℕ) → Memory → Type 0
SameBytes v1 v2 zero m = Unit
SameBytes v1 v2 (suc n) m = (m v1 ≡ m v2) × SameBytes (v1 + 1) (v2 + 1) n m

difference_ne : (a b : ℕ) → a ≢ b → difference a b ≢ Sign.equal
unfolding difference
difference_ne a b ne = ground arith

memcmp→SameBytes : (v1 v2 n : ℕ) (m : Memory) → memcmp v1 v2 n m ≡ Sign.equal → SameBytes v1 v2 n m
unfolding memcmp
memcmp→SameBytes v1 v2 zero m h = tt
memcmp→SameBytes v1 v2 (suc n) m h = elim (Bool-cases (m v1 == m v2)) [
  | inl e ↦ (ground arith, memcmp→SameBytes (v1 + 1) (v2 + 1) n m (rw (e, if◌then◌else◌) at h))
  | inr e ↦ absurd (difference_ne (m v1) (m v2) (ground arith) (rw (e, if◌then◌else◌) at h))
]

SameBytes→memcmp : (v1 v2 n : ℕ) (m : Memory) → SameBytes v1 v2 n m → memcmp v1 v2 n m ≡ Sign.equal
unfolding memcmp
SameBytes→memcmp v1 v2 zero m h = refl
SameBytes→memcmp v1 v2 (suc n) m h =
    let e : (m v1 == m v2) ≡ true = ground arith in
    rw (e, if◌then◌else◌) (SameBytes→memcmp (v1 + 1) (v2 + 1) n m h.1)

-- `memcmp` says that two areas are equal exactly if they have the same bytes.
pub memcmp_iff : (v1 v2 n : ℕ) (m : Memory) → (memcmp v1 v2 n m ≡ Sign.equal) ↔ SameBytes v1 v2 n m
memcmp_iff v1 v2 n m = (memcmp→SameBytes v1 v2 n m, SameBytes→memcmp v1 v2 n m)

safestrcpy_outside : (s t n x : ℕ) (m : Memory) → (x < s) ⊎ (s + n ≤ x) → safestrcpy s t n m x ≡ m x
unfolding safestrcpy store
safestrcpy_outside s t zero x m o = refl
safestrcpy_outside s t (suc zero) x m o = ground arith
safestrcpy_outside s t (suc (suc n)) x m o =
    ground (arith, safestrcpy_outside (s + 1) (t + 1) (suc n) x (store m s (m t)) (ground arith))

safestrcpy_nul :
    (s t n : ℕ) (m : Memory) → 0 < n → (i : ℕ) × (i < n) × (safestrcpy s t n m (s + i) ≡ 0)
unfolding safestrcpy store
safestrcpy_nul s t zero m h = absurd (omega arith)
safestrcpy_nul s t (suc zero) m h = (0, omega arith, ground arith)
safestrcpy_nul s t (suc (suc n)) m h = elim (Bool-cases (m t == 0)) [
  | inl e ↦ (1, omega arith, rw (e, if◌then◌else◌) (ground arith))
  | inr e ↦
      let (i, lt, z) = safestrcpy_nul (s + 1) (t + 1) (suc n) (store m s (m t)) (omega arith) in
      let at : s + 1 + i ≡ s + suc i = omega arith in
      (suc i, omega arith, rw (e, if◌then◌else◌) (rw at at z))
]

-- `safestrcpy` with a positive size writes only into the `n` bytes at `s` and leaves a NUL in them,
-- wherever the source is and however long.
pub safestrcpy_lem :
    (s t n x : ℕ) (m : Memory)
    → 0 < n
    → (x < s) ⊎ (s + n ≤ x)
    → (safestrcpy s t n m x ≡ m x) × ((i : ℕ) × (i < n) × (safestrcpy s t n m (s + i) ≡ 0))
safestrcpy_lem s t n x m h o = (safestrcpy_outside s t n x m o, safestrcpy_nul s t n m h)
