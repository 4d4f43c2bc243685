-- ===== src/Fs/Path.antt =====
-- fs.c: `skipelem`, `namex` and `dirlookup`. A path is its bytes without the NUL at the end, a name is a
-- buffer of 14 bytes, and an inode is its number. What a directory holds is its list of entries, as
-- `readi` reads them; the locks and references that `namex` takes and drops are left out.
pub mod Elements
pub mod Resolve
mod Tests
use unix_c_shell.Common.{
  ℕ, zero, suc, ◌+◌, Bool, true, false, not, ◌||◌, ◌&&◌, Option, none, some, List, [], ◌∷◌, ◌++◌,
  leb, ◌==◌, if◌then◌else◌, length, take, drop,
}

abbrev pub dirsiz : ℕ
dirsiz = 14

abbrev pub slash : ℕ
slash = b'/'

unfoldable pub skip_slashes : List ℕ → List ℕ
skip_slashes [] = []
skip_slashes (c ∷ path) = if c == slash then skip_slashes path else c ∷ path

-- The bytes up to the next slash, and the rest.
unfoldable pub cut_elem : List ℕ → List ℕ × List ℕ
cut_elem [] = ([], [])
cut_elem (c ∷ path) =
    let (elem, rest) = cut_elem path in if c == slash then ([], c ∷ path) else (c ∷ elem, rest)

-- The two calls of `memmove` in `skipelem`.
abbrev pub copy_name : List ℕ → List ℕ → List ℕ
copy_name elem name =
    if leb dirsiz (length elem)
    then take dirsiz elem ++ drop dirsiz name
    else elem ++ 0 ∷ drop (length elem + 1) name

unfoldable pub skip_from : List ℕ → List ℕ → Option (List ℕ × List ℕ)
unfolding skip_slashes cut_elem
skip_from [] name = none
skip_from (c ∷ path) name =
    let (elem, rest) = cut_elem (c ∷ path) in some (skip_slashes rest, copy_name elem name)

-- `skipelem`: the rest of the path and the name.
unfoldable pub skipelem : List ℕ → List ℕ → Option (List ℕ × List ℕ)
unfolding skip_from skip_slashes
skipelem path name = skip_from (skip_slashes path) name

-- `struct dirent`
pub record Dirent : Type 0 where
  pub inum : ℕ
  pub name : List ℕ

-- What the lookup reads of an inode.
pub record Inode : Type 0 where
  pub is_dir : Bool
  pub nlink : ℕ
  pub entries : List Dirent

abbrev pub first : List ℕ → ℕ
first [] = 0
first (c ∷ _) = c

-- `strncmp(s, t, n) == 0`, where a name that is shorter than its buffer ends with a NUL.
unfoldable pub namecmp : ℕ → List ℕ → List ℕ → Bool
namecmp zero s t = true
namecmp (suc n) s t =
    let rest = namecmp n (drop 1 s) (drop 1 t) in
    if first s == 0 then first t == 0 else if first s == first t then rest else false

-- The loop of `dirlookup`; `none` is 0.
unfoldable pub find_entry : List Dirent → List ℕ → Option ℕ
unfolding namecmp
find_entry [] name = none
find_entry (de ∷ entries) name =
    let rest = find_entry entries name in
    if de.inum == 0 then rest else if namecmp dirsiz name de.name then some de.inum else rest

module _ (inode : ℕ → Inode) where
  -- The loop of `namex`. The caller's buffer for the name comes back with the inode.
  unfoldable pub namex_loop :
      (fuel : ℕ) (path : List ℕ) (nameiparent : Bool) (name : List ℕ) (ip : ℕ) → Option (ℕ × List ℕ)
  namex_loop zero path nameiparent name ip = none
  namex_loop (suc fuel) path nameiparent name ip = elim (skipelem path name) [
    | none ↦ if nameiparent then none else some (ip, name)
    | some (path', name') ↦
        (let dir = inode ip in
          let is_last = leb (length path') 0 in
          if not dir.is_dir || dir.nlink == 0
          then none
          else if nameiparent && is_last
          then some (ip, name')
          else (elim (find_entry dir.entries name') [
            | none ↦ none
            | some next ↦ namex_loop fuel path' nameiparent name' next
          ]))
  ]

  -- `namex`, from the root or the current directory. Each round takes a byte of the path at least.
  unfoldable pub namex :
      (root cwd : ℕ) (path : List ℕ) (nameiparent : Bool) (name : List ℕ) → Option (ℕ × List ℕ)
  unfolding namex_loop
  namex root cwd path nameiparent name =
      namex_loop (length path + 1) path nameiparent name (if first path == slash then root else cwd)
