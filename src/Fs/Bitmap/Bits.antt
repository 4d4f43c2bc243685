-- ===== src/Fs/Bitmap/Bits.antt =====
-- One bit of the bitmap: a write changes it and no other.
use unix_c_shell.Common.{
  ℕ, zero, suc, ◌+◌, ◌*◌, ◌/◌, ◌%◌, ◌≡◌, ◌≢◌, refl, Bool, true, false, ◌==◌, if◌then◌else◌, arith,
  ==_ne, inl, inr, Bool-cases,
}
use unix_c_shell.Fs.Bitmap.{
  bpb, Disk, Super, has_bit, set_bit, clear_bit, write_byte, bzero, in_use,
}

pub has_bit-set_bit : (j k c : ℕ) → has_bit j (set_bit k c) ≡ (if j == k then true else has_bit j c)
unfolding has_bit set_bit
has_bit-set_bit zero zero c = ground arith
has_bit-set_bit (suc j) zero c =
    let e : (c / 2 * 2 + 1) / 2 ≡ c / 2 = omega arith in
    let z : (suc j == 0) ≡ false = ground arith in rw (e, z) refl
has_bit-set_bit zero (suc k) c =
    let e : (set_bit k (c / 2) * 2 + c % 2) % 2 ≡ c % 2 = omega arith in
    let z : (0 == suc k) ≡ false = ground arith in rw (e, z) refl
has_bit-set_bit (suc j) (suc k) c =
    let e : (set_bit k (c / 2) * 2 + c % 2) / 2 ≡ set_bit k (c / 2) = omega arith in
    let z : (suc j == suc k) ≡ (j == k) = ground arith in rw (e, z) (has_bit-set_bit j k (c / 2))

pub has_bit-clear_bit :
    (j k c : ℕ) → has_bit j (clear_bit k c) ≡ (if j == k then false else has_bit j c)
unfolding has_bit clear_bit
has_bit-clear_bit zero zero c = ground arith
has_bit-clear_bit (suc j) zero c =
    let e : c / 2 * 2 / 2 ≡ c / 2 = omega arith in
    let z : (suc j == 0) ≡ false = ground arith in rw (e, z) refl
has_bit-clear_bit zero (suc k) c =
    let e : (clear_bit k (c / 2) * 2 + c % 2) % 2 ≡ c % 2 = omega arith in
    let z : (0 == suc k) ≡ false = ground arith in rw (e, z) refl
has_bit-clear_bit (suc j) (suc k) c =
    let e : (clear_bit k (c / 2) * 2 + c % 2) / 2 ≡ clear_bit k (c / 2) = omega arith in
    let z : (suc j == suc k) ≡ (j == k) = ground arith in rw (e, z) (has_bit-clear_bit j k (c / 2))

module _ (sb : Super) (d : Disk) (b : ℕ) where
  -- The byte of the bitmap that holds the bit of `b`, written.
  abbrev pub marked : ℕ → Disk
  marked v = write_byte (b / bpb + sb.bmapstart) (b % bpb / 8) v d

  abbrev old : ℕ
  old = d (b / bpb + sb.bmapstart) (b % bpb / 8)

  pub in_use-marked :
      (v x : ℕ) (bit : Bool)
      → ((j : ℕ) → has_bit j v ≡ (if j == (b % bpb % 8) then bit else has_bit j old))
      → in_use sb (marked v) x ≡ (if x == b then bit else in_use sb d x)
  unfolding in_use write_byte
  in_use-marked v x bit h = elim (Bool-cases (x / bpb + sb.bmapstart == b / bpb + sb.bmapstart)) [
    | inr e ↦ (let ne : (x == b) ≡ false = ground arith in rw (e, ne) refl)
    | inl e ↦ elim (Bool-cases (x % bpb / 8 == b % bpb / 8)) [
      | inr f ↦ (let ne : (x == b) ≡ false = ground arith in rw (e, f, ne) refl)
      | inl f ↦
          (let block : x / bpb + sb.bmapstart ≡ b / bpb + sb.bmapstart = ground arith in
            let byte : x % bpb / 8 ≡ b % bpb / 8 = ground arith in
            let same : (x % bpb % 8 == b % bpb % 8) ≡ (x == b) = ground arith in
            rw (e, f, h (x % bpb % 8), same, block, byte) refl)
    ]
  ]

-- Zeroing a block that holds no part of the bitmap.
pub in_use-bzero :
    (sb : Super) (n x : ℕ) (d : Disk)
    → x / bpb + sb.bmapstart ≢ n
    → in_use sb (bzero n d) x ≡ in_use sb d x
unfolding in_use bzero
in_use-bzero sb n x d h = rw (==_ne _ _ h) refl
