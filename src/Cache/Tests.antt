-- ===== src/Cache/Tests.antt =====
-- The buffer cache on concrete lists.
use unix_c_shell.Common.{
  ◌+◌, ◌≤◌, ◌≡◌, refl, true, false, [], ◌∷◌, arith, ◌==◌, ◌&&◌, if◌then◌else◌,
}
use unix_c_shell.Cache.{Buf, bget, is_block}
use unix_c_shell.Cache.References.{references, copies, bget_lem}

-- Block 7 of device 1 is held and locked; the other buffer is unused.
abbrev held : Buf
held = record {
  id = 0;
  valid = true;
  dev = 1;
  blockno = 7;
  locked = true;
  refcnt = 1;
  content = [];
}

abbrev idle : Buf
idle = record {
  id = 1;
  valid = true;
  dev = 1;
  blockno = 9;
  locked = false;
  refcnt = 0;
  content = [];
}

-- The unused buffer is taken for block 8.
abbrev recycled : Buf
recycled = record {
  id = 1;
  valid = false;
  dev = 1;
  blockno = 8;
  locked = false;
  refcnt = 1;
  content = [];
}

bget_lem_example :
    (copies 1 7 (held ∷ recycled ∷ []) ≤ 1)
    × (references 1 7 (held ∷ recycled ∷ [])
        ≡ references 1 7 (held ∷ idle ∷ []) + (if 1 == 1 && 8 == 7 then 1 else 0))
unfolding bget is_block
bget_lem_example = bget_lem 1 8 1 7 1 (held ∷ idle ∷ []) (held ∷ recycled ∷ []) (omega arith) refl
