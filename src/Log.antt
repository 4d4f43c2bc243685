-- ===== src/Log.antt =====
-- xv6/kernel/log.c: the redo log. A block is its list of 32-bit words. `bread` answers from the
-- buffer cache, `cache`; `bwrite` copies a cached block to the disk and is recorded in `trace`, since
-- a crash may come between two writes. A block write is atomic.
pub mod Replay
pub mod Commit
pub mod Recovery
pub mod Crash
pub mod Reserve
mod Tests
use unix_c_shell.Common.{
  ℕ, zero, suc, ◌+◌, ◌-◌, ◌*◌, Bool, true, false, not, ◌&&◌, ◌||◌, Option, none, some, List, [],
  ◌∷◌, ◌++◌, ltb, leb, ◌==◌, if◌then◌else◌, length, take, drop,
}

abbrev pub maxopblocks : ℕ
maxopblocks = 10

abbrev pub logblocks : ℕ
logblocks = maxopblocks * 3

abbrev pub Block : Type 0
Block = List ℕ

abbrev pub update {ℓ} : {A : Type ℓ} → (ℕ → A) → ℕ → A → ℕ → A
update f a v b = if b == a then v else f b

-- `struct log`, its header `lh` as the list of its `n` block numbers, with the cache, the references
-- that `bpin` holds, the disk, and the writes to it.
pub record Log : Type 0 where
  pub start : ℕ
  pub outstanding : ℕ
  pub committing : Bool
  pub ncommit : ℕ
  pub lh : List ℕ
  pub cache : ℕ → Block
  pub pins : ℕ → ℕ
  pub disk : ℕ → Block
  pub trace : List (ℕ × Block)

unfoldable pub bwrite : ℕ → Log → Log
bwrite b s = record s { disk = update s.disk b (s.cache b); trace = s.trace ++ (b, s.cache b) ∷ [] }

-- `memmove(to->data, from->data, BSIZE); bwrite(to)`
unfoldable pub copy_block : (to from : ℕ) → Log → Log
unfolding bwrite
copy_block to from s = bwrite to (record s { cache = update s.cache to (s.cache from) })

-- `bunpin`, unless the log is being recovered.
unfoldable pub unpin : (recovering : Bool) → ℕ → Log → Log
unpin true b s = s
unpin false b s = record s { pins = update s.pins b (s.pins b - 1) }

-- The loop of `install_trans` from `tail` on, over the rest of the header.
unfoldable pub install_from : (recovering : Bool) → (tail : ℕ) → List ℕ → Log → Log
install_from recovering tail [] s = s
install_from recovering tail (b ∷ bs) s =
    install_from recovering (tail + 1) bs (unpin recovering b (copy_block b (s.start + tail + 1) s))

unfoldable pub install_trans : Bool → Log → Log
unfolding install_from
install_trans recovering s = install_from recovering 0 s.lh s

-- The header block: `n`, the block numbers, and the words behind them as they were.
unfoldable pub pack_head : List ℕ → Block → Block
pack_head lh old = length lh ∷ (lh ++ drop (suc (length lh)) old)

unfoldable pub unpack_head : Block → List ℕ
unpack_head [] = []
unpack_head (n ∷ words) = take n words

unfoldable pub read_head : Log → Log
unfolding unpack_head
read_head s = record s { lh = unpack_head (s.cache s.start) }

unfoldable pub write_head : Log → Log
unfolding pack_head bwrite
write_head s =
    bwrite s.start (record s { cache = update s.cache s.start (pack_head s.lh (s.cache s.start)) })

unfoldable pub recover_from_log : Log → Log
unfolding install_trans read_head write_head
recover_from_log s = write_head (record (install_trans true (read_head s)) { lh = [] })

-- `initlog`, after a boot that leaves an empty cache: `bread` answers from the disk.
unfoldable pub initlog : (logstart : ℕ) → (disk : ℕ → Block) → Log
unfolding recover_from_log
initlog logstart disk = recover_from_log (record {
  start = logstart;
  outstanding = 0;
  committing = false;
  ncommit = 0;
  lh = [];
  cache = disk;
  pins = λ _. 0;
  disk = disk;
  trace = [];
})

-- The loop of `write_log`.
unfoldable pub write_log_from : (tail : ℕ) → List ℕ → Log → Log
write_log_from tail [] s = s
write_log_from tail (b ∷ bs) s = write_log_from (tail + 1) bs (copy_block (s.start + tail + 1) b s)

unfoldable pub commit : Log → Log
unfolding write_log_from write_head install_trans
commit s =
    if ltb 0 (length s.lh)
    then write_head
        (record (install_trans false (write_head (write_log_from 0 s.lh s))) { lh = [] })
    else s

-- A pass of `begin_op`: `none` where it sleeps.
unfoldable pub begin_op : Log → Option Log
begin_op s =
    if s.committing
    then none
    else if ltb logblocks (length s.lh + (s.outstanding + 1) * maxopblocks)
    then none
    else some (record s { outstanding = s.outstanding + 1 })

-- `end_op` up to its first release of the lock: `do_commit` and the log; `none` is the panic. It is
-- called with `outstanding` above 0. With `do_commit` the call goes on with `commit`, without the
-- lock, and `end_commit`.
unfoldable pub end_op : Log → Option (Bool × Log)
end_op s =
    let s1 = record s { outstanding = s.outstanding - 1 } in
    if s1.committing
    then none
    else if s1.outstanding == 0
    then some (true, record s1 { committing = true })
    else some (false, s1)

-- The end of `end_op` after a commit.
unfoldable pub end_commit : Log → Log
end_commit s = record s { committing = false; ncommit = s.ncommit + 1 }

-- Whether the block is in the header: the loop of `log_write`.
unfoldable pub is_logged : ℕ → List ℕ → Bool
is_logged b [] = false
is_logged b (c ∷ cs) = if c == b then true else is_logged b cs

-- `log_write` on a buffer of block `b`, whose new content is in the cache; `none` is a panic.
unfoldable pub log_write : ℕ → Log → Option Log
unfolding is_logged
log_write b s =
    if leb logblocks (length s.lh) || ltb s.outstanding 1
    then none
    else if is_logged b s.lh
    then some s
    else some (record s { lh = s.lh ++ b ∷ []; pins = update s.pins b (s.pins b + 1) })
