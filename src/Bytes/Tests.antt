-- ===== src/Bytes/Tests.antt =====
-- The memory operations on concrete memories.
use unix_c_shell.Common.{ℕ, ◌+◌, ◌<◌, ◌≡◌, refl, inr, arith}
use unix_c_shell.Bytes.{Memory, memmove, safestrcpy}
use unix_c_shell.Bytes.Overlap.{copied, memmove_lem}
use unix_c_shell.Bytes.Strings.{safestrcpy_lem}

-- Every byte is its address.
abbrev counting : Memory
counting a = a

-- A copy of four bytes from 10 to 12: byte 15 is what byte 13 was.
memmove_lem_example : memmove 12 10 4 counting 15 ≡ copied 12 10 4 counting 15
memmove_lem_example = memmove_lem 12 10 4 15 counting

memmove_down : memmove 12 10 4 counting 15 ≡ 13
unfolding memmove
memmove_down = refl

memmove_up : memmove 10 12 4 counting 13 ≡ 15
unfolding memmove
memmove_up = refl

safestrcpy_lem_example :
    (safestrcpy 20 1 4 counting 24 ≡ 24)
    × ((i : ℕ) × (i < 4) × (safestrcpy 20 1 4 counting (20 + i) ≡ 0))
safestrcpy_lem_example = safestrcpy_lem 20 1 4 24 counting (omega arith) (inr (omega arith))
