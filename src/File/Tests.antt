-- ===== src/File/Tests.antt =====
-- A table of two files, in which one process opens a file, duplicates it and closes it once.
use unix_c_shell.Common.{
  ℕ, ◌≢◌, zero, suc, ◌<◌, ◌≡◌, refl, false, List, [], ◌∷◌, some, get_elem?, arith,
}
use unix_c_shell.File.{
  File, fd_none, fd_inode, Closing, nothing, put_inode, filealloc, filedup, fileclose,
}
use unix_c_shell.File.Counts.{
  open_file, fill_file, dup_file, close_file, remove, ref_of, count, Opened, IsCounted,
}
use unix_c_shell.File.References.{Reach, here, next, Releases, opened_sound}

abbrev no_file : File
no_file = record {
  type = fd_none;
  ref = 0;
  readable = false;
  writable = false;
  pipe = 0;
  ip = 0;
  off = 0;
  major = 0;
}

abbrev nothing_open : Opened
nothing_open = record { table = no_file ∷ no_file ∷ []; fds = []; closed = [] }

nothing_open-IsCounted : IsCounted nothing_open
unfolding ref_of count
nothing_open-IsCounted zero = refl
nothing_open-IsCounted (suc zero) = refl
nothing_open-IsCounted (suc (suc _)) = refl

-- The first file as an inode, with `n` references.
abbrev inode_file : ℕ → File
inode_file n = record no_file { type = fd_inode; ref = n; ip = 4 }

abbrev with_first : File → List File
with_first f = f ∷ no_file ∷ []

alloc_step : filealloc nothing_open.table ≡ (some 0, with_first (record no_file { ref = 1 }))
unfolding filealloc
alloc_step = refl

dup_step : filedup 0 (with_first (inode_file 1)) ≡ some (with_first (inode_file 2))
unfolding filedup
dup_step = refl

close_step : fileclose 0 (with_first (inode_file 2)) ≡ some (nothing, with_first (inode_file 1))
unfolding fileclose
close_step = refl

held : 0 < count 0 (0 ∷ [])
unfolding count
held = omega arith

held_twice : 0 < count 0 (0 ∷ 0 ∷ [])
unfolding count
held_twice = omega arith

-- The file is opened, becomes that of inode 4, is duplicated and closed once.
abbrev one_left : Opened
one_left = record {
  table = with_first (inode_file 1);
  fds = remove 0 (0 ∷ 0 ∷ []);
  closed = nothing ∷ [];
}

one_left-Reach : Reach nothing_open one_left
one_left-Reach =
    next
      (next
        (next (next here (open_file nothing_open 0 _ alloc_step))
          (fill_file _ 0 (record no_file { ref = 1 }) (inode_file 1) held refl refl))
        (dup_file _ 0 _ held dup_step))
      (close_file _ 0 nothing _ held_twice close_step)

last_close_test :
    fileclose 0 (inode_file 1 ∷ []) ≡ some (put_inode 4, record no_file { ip = 4 } ∷ [])
unfolding fileclose
last_close_test = refl

opened_sound_example :
    ((fs' : List File) → filealloc one_left.table ≡ (some 0, fs') → count 0 one_left.fds ≡ 0)
    × (0 < count 0 one_left.fds
        → ((fs' : List File) × (filedup 0 one_left.table ≡ some fs'))
          × ((f : File) × (fs' : List File) × (get_elem? one_left.table 0 ≡ some f)
              × ((c : Closing) × (fileclose 0 one_left.table ≡ some (c, fs'))
                  × (count 0 one_left.fds ≡ 1 → Releases f c)
                  × (count 0 one_left.fds ≢ 1 → c ≡ nothing))))
opened_sound_example = opened_sound 0 nothing_open-IsCounted one_left-Reach
