-- ===== src/Fs/Bitmap/Alloc.antt =====
-- `balloc` takes the first free block and `bfree` gives a block back.
use unix_c_shell.Common.{
  ℕ, zero, suc, ◌+◌, ◌-◌, ◌*◌, ◌/◌, ◌%◌, ◌<◌, ◌≤◌, ◌≡◌, ◌≢◌, refl, sym, ◌∙◌, ap, Bool, true, false,
  none, some, ltb, ◌==◌, if◌then◌else◌, arith, ==_ne, ==_refl, inl, inr, ◌⊎◌, Bool-cases, min,
}
use unix_c_shell.Fs.Bitmap.{
  bpb, Disk, Super, has_bit, set_bit, write_byte, bzero, in_use, scan_bits, take_block, scan_blocks,
  balloc, bfree,
}
use unix_c_shell.Fs.Bitmap.Bits.{
  has_bit-set_bit, has_bit-clear_bit, marked, in_use-marked, in_use-bzero,
}

module _ (sb : Super) (d : Disk) where
  -- The bits of one block of the bitmap.
  bit_in_use :
      (q bi : ℕ)
      → bi < bpb
      → has_bit (bi % 8) (d (q * bpb / bpb + sb.bmapstart) (bi / 8)) ≡ in_use sb d (q * bpb + bi)
  unfolding in_use
  bit_in_use q bi h =
      let e1 : (q * bpb + bi) % bpb ≡ bi = omega arith in
      let e2 : (q * bpb + bi) / bpb ≡ q * bpb / bpb = omega arith in rw (e1, e2) refl

  -- The blocks from `from` up to `to` are in use.
  abbrev pub Taken : ℕ → ℕ → Type 0
  Taken from to = (x : ℕ) → from ≤ x → x < to → in_use sb d x ≡ true

  from_here :
      (b bi to : ℕ) → in_use sb d (b + bi) ≡ true → Taken (b + (bi + 1)) to → Taken (b + bi) to
  from_here b bi to used all x f t = elim (Bool-cases (x == b + bi)) [
    | inl e ↦ (let eq : x ≡ b + bi = ground arith in rw eq used)
    | inr e ↦ all x (ground arith) t
  ]

  scan_bits_cases :
      (n bi q : ℕ)
      → bi + n ≤ bpb
      → ((scan_bits sb n bi (q * bpb) d ≡ none) × Taken (q * bpb + bi) (q * bpb + bi + n))
        ⊎ ((k : ℕ) × (scan_bits sb n bi (q * bpb) d ≡ some k)
            × (bi ≤ k)
            × (k < bi + n)
            × (in_use sb d (q * bpb + k) ≡ false)
            × Taken (q * bpb + bi) (q * bpb + k))
  unfolding scan_bits
  scan_bits_cases zero bi q h = inl (refl, λ x f t. absurd (omega arith))
  scan_bits_cases (suc n) bi q h =
      let here = bit_in_use q bi (omega arith) in
      elim (Bool-cases (in_use sb d (q * bpb + bi))) [
        | inr free ↦ inr (
          bi,
          rw (here, free) refl,
          omega arith,
          omega arith,
          free,
          λ x f t. absurd (omega arith),
        )
        | inl used ↦ elim (scan_bits_cases n (bi + 1) q (omega arith)) [
          | inl (e, all) ↦
              inl (rw (here, used) e, λ x f t. from_here (q * bpb) bi _ used all x f (omega arith))
          | inr (k, e, lo, hi, free, all) ↦ inr (
            k,
            rw (here, used) e,
            omega arith,
            omega arith,
            free,
            λ x f t. from_here (q * bpb) bi _ used all x f t,
          )
        ]
      ]

  both :
      (q to : ℕ)
      → to ≤ sb.size
      → Taken (q * bpb + 0) (q * bpb + 0 + min bpb (sb.size - q * bpb))
      → Taken ((q + 1) * bpb) to
      → (x : ℕ) → q * bpb ≤ x
      → x < to
      → in_use sb d x ≡ true
  both q to le all rest x f t = elim (Bool-cases (ltb x ((q + 1) * bpb))) [
    | inl e ↦ all x (omega arith) (ground arith)
    | inr e ↦ rest x (ground arith) t
  ]

  -- The whole bitmap, from one of its blocks on.
  scan_blocks_cases :
      (fuel q : ℕ)
      → sb.size ≤ (q + fuel) * bpb
      → ((scan_blocks sb fuel (q * bpb) d ≡ (0, d)) × Taken (q * bpb) sb.size)
        ⊎ ((p k : ℕ) × (scan_blocks sb fuel (q * bpb) d ≡ take_block sb (p * bpb) k d)
            × (k < bpb)
            × (p * bpb + k < sb.size)
            × (in_use sb d (p * bpb + k) ≡ false)
            × Taken (q * bpb) (p * bpb + k))
  unfolding scan_blocks
  scan_blocks_cases zero q h = inl (refl, λ x f t. absurd (omega arith))
  scan_blocks_cases (suc fuel) q h = elim (Bool-cases (ltb (q * bpb) sb.size)) [
    | inr e ↦ inl (rw e refl, λ x f t. absurd (ground arith))
    | inl e ↦ elim (scan_bits_cases (min bpb (sb.size - q * bpb)) 0 q (omega arith)) [
      | inr (k, g, lo, hi, free, all) ↦
          inr (
            q,
            k,
            rw e (rw g refl),
            omega arith,
            ground arith,
            free,
            λ x f t. all x (omega arith) t,
          )
      | inl (g, all) ↦
          (let next : q * bpb + bpb ≡ (q + 1) * bpb = omega arith in
            elim (scan_blocks_cases fuel (q + 1) (omega arith)) [
              | inl (r, rest) ↦
                  inl (rw e (rw (g, next) r), λ x f t. both q sb.size (omega arith) all rest x f t)
              | inr (p, k, r, lt, fits, free, rest) ↦ inr (
                p,
                k,
                rw e (rw (g, next) r),
                lt,
                fits,
                free,
                λ x f t. both q (p * bpb + k) (omega arith) all rest x f t,
              )
            ])
    ]
  ]

-- What `balloc` leaves: no block was free, or the first free one is now in use, and zeroed.
pub record Allocated (sb : Super) (d : Disk) (r : ℕ × Disk) : Type 0 where
  pub in_disk : r.0 < sb.size
  pub was_free : in_use sb d r.0 ≡ false
  pub least : (x : ℕ) → x < r.0 → in_use sb d x ≡ true
  pub marks : (x : ℕ) → x < sb.size → in_use sb r.1 x ≡ (if x == r.0 then true else in_use sb d x)
  pub zeroed : (i : ℕ) → r.1 r.0 i ≡ 0
  pub others : (n i : ℕ) → n ≢ r.0 → n ≢ r.0 / bpb + sb.bmapstart → r.1 n i ≡ d n i

-- The blocks of the bitmap are in use.
abbrev pub IsReserved : Super → Disk → Type 0
IsReserved sb d = (x : ℕ) → x < sb.size → in_use sb d (x / bpb + sb.bmapstart) ≡ true

absurd_bool : true ≡ false → ⊥
absurd_bool h = cc

take_block_lem :
    (sb : Super) (d : Disk) (p k : ℕ)
    → k < bpb
    → take_block sb (p * bpb) k d ≡ (
      p * bpb + k,
      bzero (p * bpb + k) (
          marked sb d (p * bpb + k) (
            set_bit
              ((p * bpb + k) % bpb % 8)
              (d ((p * bpb + k) / bpb + sb.bmapstart) ((p * bpb + k) % bpb / 8)))),
    )
unfolding take_block
take_block_lem sb d p k h =
    let e1 : (p * bpb + k) % bpb ≡ k = omega arith in
    let e2 : (p * bpb + k) / bpb ≡ p * bpb / bpb = omega arith in rw (e1, e2) refl

take_block-Allocated :
    (sb : Super) (d : Disk) (p k : ℕ)
    → IsReserved sb d
    → k < bpb
    → p * bpb + k < sb.size
    → in_use sb d (p * bpb + k) ≡ false
    → ((x : ℕ) → x < p * bpb + k → in_use sb d x ≡ true)
    → Allocated sb d (take_block sb (p * bpb) k d)
take_block-Allocated sb d p k reserved lt fits free least =
    let b = p * bpb + k in
    let v = set_bit (b % bpb % 8) (d (b / bpb + sb.bmapstart) (b % bpb / 8)) in
    let apart : (x : ℕ) → x < sb.size → x / bpb + sb.bmapstart ≢ b =
      λ x h e. absurd_bool (sym (reserved x h) ∙ ap (in_use sb d) e ∙ free) in
    rw (take_block_lem sb d p k lt) record {
      in_disk = fits;
      was_free = free;
      least = least;
      marks = λ x h.
          in_use-bzero sb b x _ (apart x h)
          ∙ in_use-marked sb d b v x true (λ j. has_bit-set_bit j (b % bpb % 8) _);
      zeroed = λ i. unfold bzero in (rw (==_refl b) refl);
      others = λ n i h g. unfold bzero write_byte in (rw (==_ne n b h, ==_ne n _ g) refl);
    }

-- `balloc` answers 0 only where every block is in use; else it returns the first block that is not,
-- zeroes it, marks it in use, and changes neither the mark of another block nor the bytes of a block
-- other than these two.
pub balloc-Allocated :
    (sb : Super) (d : Disk)
    → IsReserved sb d
    → ((balloc sb d ≡ (0, d)) × ((x : ℕ) → x < sb.size → in_use sb d x ≡ true))
      ⊎ Allocated sb d (balloc sb d)
balloc-Allocated sb d reserved = elim (scan_blocks_cases sb d (sb.size / bpb + 1) 0 (omega arith)) [
  | inl (e, all) ↦ inl (unfold balloc in e, λ x h. all x (omega arith) h)
  | inr (p, k, e, lt, fits, free, least) ↦ inr (
      let e' : balloc sb d ≡ take_block sb (p * bpb) k d = unfold balloc in e in
      rw e' (take_block-Allocated sb d p k reserved lt fits free (λ x h. least x (omega arith) h)))
]

-- `bfree` panics exactly on a block that is free already; else it makes the block free, and changes
-- neither the mark of another block nor the bytes of a block other than the one of its mark.
pub bfree_lem :
    (sb : Super) (b : ℕ) (d : Disk)
    → ((bfree sb b d ≡ none) × (in_use sb d b ≡ false))
      ⊎ ((d' : Disk) × (bfree sb b d ≡ some d')
          × (in_use sb d b ≡ true)
          × ((x : ℕ) → in_use sb d' x ≡ (if x == b then false else in_use sb d x))
          × ((n i : ℕ) → n ≢ b / bpb + sb.bmapstart → d' n i ≡ d n i))
unfolding bfree
bfree_lem sb b d = elim (Bool-cases (in_use sb d b)) [
  | inr free ↦ inl (rw (bit_lem free) refl, free)
  | inl used ↦ inr (
    marked sb d b _,
    rw (bit_lem used) refl,
    used,
    λ x. in_use-marked sb d b _ x false (λ j. has_bit-clear_bit j (b % bpb % 8) _),
    λ n i h. unfold write_byte in (rw (==_ne _ _ h) refl),
  )
]
  where
    bit_lem :
        {v : Bool}
        → in_use sb d b ≡ v
        → has_bit (b % bpb % 8) (d (b / bpb + sb.bmapstart) (b % bpb / 8)) ≡ v
    bit_lem e = unfold in_use in e
