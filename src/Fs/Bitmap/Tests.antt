-- ===== src/Fs/Bitmap/Tests.antt =====
-- A disk of 64 blocks with its bitmap in block 2, of which the first five are in use.
use unix_c_shell.Common.{
  ℕ, ◌/◌, ◌+◌, ◌<◌, ◌≡◌, ◌≢◌, refl, true, false, none, some, ◌==◌, if◌then◌else◌, arith, ◌⊎◌,
}
use unix_c_shell.Fs.Bitmap.{bpb, Disk, Super, has_bit, in_use, scan_bits, take_block, balloc, bfree}
use unix_c_shell.Fs.Bitmap.Alloc.{Allocated, IsReserved, balloc-Allocated, bfree_lem}

abbrev super_block : Super
super_block = record { size = 64; bmapstart = 2 }

abbrev five_in_use : Disk
five_in_use n i = if n == 2 then (if i == 0 then 31 else 0) else 7

balloc_test : (balloc super_block five_in_use).0 ≡ 5
unfolding balloc scan_bits has_bit take_block
balloc_test = refl

bitmap_in_use : in_use super_block five_in_use 2 ≡ true
unfolding in_use has_bit
bitmap_in_use = refl

five_in_use-IsReserved : IsReserved super_block five_in_use
five_in_use-IsReserved x h = let e : x / bpb + 2 ≡ 2 = omega arith in rw e bitmap_in_use

balloc-Allocated_example :
    ((balloc super_block five_in_use ≡ (0, five_in_use))
      × ((x : ℕ) → x < super_block.size → in_use super_block five_in_use x ≡ true))
    ⊎ Allocated super_block five_in_use (balloc super_block five_in_use)
balloc-Allocated_example = balloc-Allocated super_block five_in_use five_in_use-IsReserved

bfree_lem_example :
    ((bfree super_block 3 five_in_use ≡ none) × (in_use super_block five_in_use 3 ≡ false))
    ⊎ ((d' : Disk) × (bfree super_block 3 five_in_use ≡ some d')
        × (in_use super_block five_in_use 3 ≡ true)
        × ((x : ℕ)
            → in_use super_block d' x
              ≡ (if x == 3 then false else in_use super_block five_in_use x))
        × ((n i : ℕ) → n ≢ 3 / bpb + super_block.bmapstart → d' n i ≡ five_in_use n i))
bfree_lem_example = bfree_lem super_block 3 five_in_use
