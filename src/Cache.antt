-- ===== src/Cache.antt =====
-- xv6/kernel/bio.c: the buffer cache. The linked list is a list, most recently used first; a buffer is
-- known by `id`, its place in the array. The sleep lock of a buffer is the flag `locked`.
pub mod References
mod Tests
use unix_c_shell.Common.{
  ℕ, zero, suc, ◌+◌, ◌-◌, Bool, true, false, not, ◌&&◌, Option, none, some, List, [], ◌∷◌, ◌++◌,
  ◌==◌, if◌then◌else◌,
}

abbrev pub nbuf : ℕ
nbuf = 30

pub record Buf : Type 0 where
  pub id : ℕ
  pub valid : Bool
  pub dev : ℕ
  pub blockno : ℕ
  pub locked : Bool
  pub refcnt : ℕ
  pub content : List ℕ

unfoldable pub is_block : (dev blockno : ℕ) → Buf → Bool
is_block dev blockno b = b.dev == dev && b.blockno == blockno

-- The loop of `binit`: each buffer goes to the front.
unfoldable pub binit_from : (id n : ℕ) → List Buf → List Buf
binit_from id zero bs = bs
binit_from id (suc n) bs = binit_from (id + 1) n (
    record {
      id = id;
      valid = false;
      dev = 0;
      blockno = 0;
      locked = false;
      refcnt = 0;
      content = [];
    }
    ∷ bs)

unfoldable pub binit : List Buf
unfolding binit_from
binit = binit_from 0 nbuf []

-- The first loop of `bget`: a buffer of the block gets another reference.
unfoldable pub hit : (dev blockno : ℕ) → List Buf → Option (ℕ × List Buf)
unfolding is_block
hit dev blockno [] = none
hit dev blockno (b ∷ bs) =
    let rest = hit dev blockno bs in
    if is_block dev blockno b
    then some (b.id, record b { refcnt = b.refcnt + 1 } ∷ bs)
    else elim rest [ none ↦ none | some (id, cs) ↦ some (id, b ∷ cs) ]

-- The second loop, from the end of the list: an unused buffer is taken for the block.
unfoldable pub recycle : (dev blockno : ℕ) → List Buf → Option (ℕ × List Buf)
recycle dev blockno [] = none
recycle dev blockno (b ∷ bs) = elim (recycle dev blockno bs) [
  | some (id, cs) ↦ some (id, b ∷ cs)
  | none ↦
      if b.refcnt == 0
      then some (b.id, record b { dev = dev; blockno = blockno; valid = false; refcnt = 1 } ∷ bs)
      else none
]

-- `bget` up to the release of the lock of the cache: the buffer, or `none` for the panic.
unfoldable pub bget : (dev blockno : ℕ) → List Buf → Option (ℕ × List Buf)
unfolding hit recycle
bget dev blockno bs = elim (hit dev blockno bs) [ some r ↦ some r | none ↦ recycle dev blockno bs ]

-- A change of the buffer `id`.
unfoldable pub at_id : (id : ℕ) → (Buf → Buf) → List Buf → List Buf
at_id id f [] = []
at_id id f (b ∷ bs) = if b.id == id then f b ∷ bs else b ∷ at_id id f bs

-- `acquiresleep` on a buffer that nobody holds.
unfoldable pub lock_buf : ℕ → List Buf → List Buf
unfolding at_id
lock_buf id bs = at_id id (λ b. record b { locked = true }) bs

-- The end of `bread` on a locked buffer; `read` is what `virtio_disk_rw` reads from the disk.
unfoldable pub fill : (read : ℕ → ℕ → List ℕ) → Buf → Buf
fill read b = if b.valid then b else record b { content = read b.dev b.blockno; valid = true }

-- `bread`, where the buffer is not locked.
unfoldable pub bread :
    (read : ℕ → ℕ → List ℕ) → (dev blockno : ℕ) → List Buf → Option (ℕ × List Buf)
unfolding bget lock_buf at_id fill
bread read dev blockno bs = elim (bget dev blockno bs) [
  | none ↦ none
  | some (id, cs) ↦ some (id, at_id id (fill read) (lock_buf id cs))
]

-- The buffer `id` and the others, in order.
unfoldable pub pull : ℕ → List Buf → Option (Buf × List Buf)
pull id [] = none
pull id (b ∷ bs) =
    let rest = pull id bs in
    if b.id == id then some (b, bs) else elim rest [ none ↦ none | some (c, cs) ↦ some (c, b ∷ cs) ]

-- `brelse`; `none` is the panic, or that there is no such buffer.
unfoldable pub brelse : ℕ → List Buf → Option (List Buf)
unfolding pull at_id
brelse id bs = elim (pull id bs) [
  | none ↦ none
  | some (b, cs) ↦
      let b1 = record b { locked = false; refcnt = b.refcnt - 1 } in
      if not b.locked
      then none
      else if b1.refcnt == 0
      then some (b1 ∷ cs)
      else some (at_id id (λ c. b1) bs)
]

unfoldable pub bpin : ℕ → List Buf → List Buf
unfolding at_id
bpin id bs = at_id id (λ b. record b { refcnt = b.refcnt + 1 }) bs

unfoldable pub bunpin : ℕ → List Buf → List Buf
unfolding at_id
bunpin id bs = at_id id (λ b. record b { refcnt = b.refcnt - 1 }) bs
