-- ===== src/Fs/Bitmap.antt =====
-- fs.c: `balloc`, `bfree` and `bzero` on the blocks of the disk, as the buffer cache shows them; that a
-- written block is logged is left to the log.
pub mod Bits
pub mod Alloc
mod Tests
use unix_c_shell.Common.{
  ℕ, zero, suc, ◌+◌, ◌-◌, ◌*◌, ◌/◌, ◌%◌, Bool, true, false, Option, none, some, ltb, ◌==◌,
  if◌then◌else◌, min,
}

-- `BSIZE` and `BPB`
abbrev pub bsize : ℕ
bsize = 1024

abbrev pub bpb : ℕ
bpb = 8192

-- The bytes of each block.
abbrev pub Disk : Type 0
Disk = ℕ → ℕ → ℕ

-- `sb.size` and `sb.bmapstart`
pub record Super : Type 0 where
  pub size : ℕ
  pub bmapstart : ℕ

-- `c & (1 << k)`, `c | (1 << k)` and `c & ~(1 << k)`
unfoldable pub has_bit : ℕ → ℕ → Bool
has_bit zero c = c % 2 == 1
has_bit (suc k) c = has_bit k (c / 2)

unfoldable pub set_bit : ℕ → ℕ → ℕ
set_bit zero c = c / 2 * 2 + 1
set_bit (suc k) c = set_bit k (c / 2) * 2 + c % 2

unfoldable pub clear_bit : ℕ → ℕ → ℕ
clear_bit zero c = c / 2 * 2
clear_bit (suc k) c = clear_bit k (c / 2) * 2 + c % 2

-- `bp->data[i] = v` in block `n`
unfoldable pub write_byte : ℕ → ℕ → ℕ → Disk → Disk
write_byte n i v d m j = if m == n then (if j == i then v else d m j) else d m j

unfoldable pub bzero : ℕ → Disk → Disk
bzero n d m j = if m == n then 0 else d m j

module _ (sb : Super) where
  -- The bit of a block in the bitmap.
  unfoldable pub in_use : Disk → ℕ → Bool
  in_use d b = has_bit (b % bpb % 8) (d (b / bpb + sb.bmapstart) (b % bpb / 8))

  -- The inner loop of `balloc` from bit `bi` on, for `n` bits: the first bit that is not set.
  unfoldable pub scan_bits : (n bi b : ℕ) → Disk → Option ℕ
  scan_bits zero bi b d = none
  scan_bits (suc n) bi b d =
      let rest = scan_bits n (bi + 1) b d in
      if has_bit (bi % 8) (d (b / bpb + sb.bmapstart) (bi / 8)) then rest else some bi

  -- The block is marked in use, and zeroed.
  unfoldable pub take_block : (b bi : ℕ) → Disk → ℕ × Disk
  take_block b bi d =
      let n = b / bpb + sb.bmapstart in
      (b + bi, bzero (b + bi) (write_byte n (bi / 8) (set_bit (bi % 8) (d n (bi / 8))) d))

  -- The outer loop, with `fuel` rounds at most.
  unfoldable pub scan_blocks : (fuel b : ℕ) → Disk → ℕ × Disk
  scan_blocks zero b d = (0, d)
  scan_blocks (suc fuel) b d =
      let rest = scan_blocks fuel (b + bpb) d in
      let found = scan_bits (min bpb (sb.size - b)) 0 b d in
      if ltb b sb.size then (elim found [ none ↦ rest | some bi ↦ take_block b bi d ]) else (0, d)

  -- `balloc`: 0 if no block is free. One round for each block of the bitmap is enough fuel.
  unfoldable pub balloc : Disk → ℕ × Disk
  unfolding scan_blocks
  balloc d = scan_blocks (sb.size / bpb + 1) 0 d

  -- `bfree`; `none` is the panic.
  unfoldable pub bfree : ℕ → Disk → Option Disk
  bfree b d =
      let n = b / bpb + sb.bmapstart in
      let bi = b % bpb in
      if has_bit (bi % 8) (d n (bi / 8))
      then some (write_byte n (bi / 8) (clear_bit (bi % 8) (d n (bi / 8))) d)
      else none
