-- ===== src/File.antt =====
-- xv6/kernel/file.c: the table of open files. A file is known by its place in the table.
pub mod Counts
pub mod References
mod Tests
use unix_c_shell.Common.{
  ℕ, zero, suc, ◌+◌, ◌-◌, ◌*◌, ◌/◌, Bool, true, false, not, ◌||◌, ◌&&◌, Option, none, some, List,
  [], ◌∷◌, ltb, leb, ◌==◌, if◌then◌else◌, get_elem?, set,
}

pub data FileType : Type 0 where
  fd_none fd_pipe fd_inode fd_device : FileType

-- `struct file`; the pipe and the inode are known by a number.
pub record File : Type 0 where
  pub type : FileType
  pub ref : ℕ
  pub readable : Bool
  pub writable : Bool
  pub pipe : ℕ
  pub ip : ℕ
  pub off : ℕ
  pub major : ℕ

-- What `fileclose` does once it has let go of the table.
pub data Closing : Type 0 where
  nothing : Closing
  close_pipe : (pipe : ℕ) (writable : Bool) → Closing
  put_inode : (ip : ℕ) → Closing

-- `filealloc`: the place of the file and the table.
unfoldable pub filealloc : List File → Option ℕ × List File
filealloc [] = (none, [])
filealloc (f ∷ fs) =
    let (r, fs') = filealloc fs in
    if f.ref == 0
    then (some 0, record f { ref = 1 } ∷ fs)
    else (elim r [ none ↦ none | some i ↦ some (suc i) ], f ∷ fs')

-- `filedup`; `none` is the panic, also for a place beyond the table.
unfoldable pub filedup : ℕ → List File → Option (List File)
filedup i fs = elim (get_elem? fs i) [
  | none ↦ none
  | some f ↦ if ltb f.ref 1 then none else some (set fs i (record f { ref = f.ref + 1 }))
]

abbrev pub closing : File → Closing
closing f = elim f.type [
  | fd_pipe ↦ close_pipe f.pipe f.writable
  | fd_inode ↦ put_inode f.ip
  | fd_device ↦ put_inode f.ip
  | fd_none ↦ nothing
]

-- `fileclose`, with what it then closes; `none` is the panic.
unfoldable pub fileclose : ℕ → List File → Option (Closing × List File)
fileclose i fs = elim (get_elem? fs i) [
  | none ↦ none
  | some f ↦
      if ltb f.ref 1
      then none
      else if ltb 0 (f.ref - 1)
      then some (nothing, set fs i (record f { ref = f.ref - 1 }))
      else some (closing f, set fs i (record f { ref = 0; type = fd_none }))
]
