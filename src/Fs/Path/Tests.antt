-- ===== src/Fs/Path/Tests.antt =====
-- Path names, and a directory tree.
use unix_c_shell.Common.{ℕ, ◌≡◌, refl, true, false, List, [], ◌∷◌, none, some, ◌==◌, if◌then◌else◌}
use unix_c_shell.Fs.Path.{skipelem, slash, Inode, first, namex, find_entry}
use unix_c_shell.Fs.Path.Elements.{elements, cname, IsText}
use unix_c_shell.Fs.Path.Resolve.{
  inode_of, named_of, resolve, resolve_parent, namex-resolve, namex-resolve_parent,
}

-- The examples in the comment of `skipelem`.
skipelem_test :
    skipelem (slash ∷ slash ∷ b'a' ∷ slash ∷ slash ∷ b'b' ∷ b'b' ∷ []) (1 ∷ 2 ∷ 3 ∷ [])
    ≡ some (b'b' ∷ b'b' ∷ [], b'a' ∷ 0 ∷ 3 ∷ [])
unfolding skipelem
skipelem_test = refl

skipelem_slashes : skipelem (slash ∷ slash ∷ []) [] ≡ none
unfolding skipelem
skipelem_slashes = refl

-- Inode 1 is the root, with the directory `bin`, where inode 7 is `sh`.
abbrev pub sh_inode : ℕ → Inode
sh_inode i =
    if i == 1
    then record {
      is_dir = true;
      nlink = 1;
      entries =
          record { inum = 0; name = b'b' ∷ [] }
          ∷ record { inum = 5; name = b'b' ∷ b'i' ∷ b'n' ∷ 0 ∷ [] }
          ∷ [];
    }
    else if i == 5
    then record {
      is_dir = true;
      nlink = 1;
      entries = record { inum = 7; name = b's' ∷ b'h' ∷ 0 ∷ [] } ∷ [];
    }
    else record { is_dir = false; nlink = 1; entries = [] }

abbrev sh_path : List ℕ
sh_path = slash ∷ b'b' ∷ b'i' ∷ b'n' ∷ slash ∷ slash ∷ b's' ∷ b'h' ∷ []

sh_path-IsText : IsText sh_path
sh_path-IsText = (refl, (refl, (refl, (refl, (refl, (refl, (refl, (refl, tt))))))))

sh_path_test : inode_of (namex sh_inode 1 5 sh_path false []) ≡ some 7
unfolding namex skipelem find_entry
sh_path_test = refl

sh_parent_test : named_of (namex sh_inode 1 5 sh_path true []) ≡ some (5, b's' ∷ b'h' ∷ [])
unfolding namex skipelem find_entry cname
sh_parent_test = refl

-- A file is no directory.
below_file_test : namex sh_inode 1 5 (b's' ∷ b'h' ∷ slash ∷ b'x' ∷ []) false [] ≡ none
unfolding namex skipelem find_entry
below_file_test = refl

namex-resolve_example :
    inode_of (namex sh_inode 1 5 sh_path false [])
    ≡ resolve sh_inode (elements sh_path) (if first sh_path == slash then 1 else 5)
namex-resolve_example = namex-resolve sh_inode 1 5 sh_path [] sh_path-IsText

namex-resolve_parent_example :
    named_of (namex sh_inode 1 5 sh_path true [])
    ≡ resolve_parent sh_inode (elements sh_path) (if first sh_path == slash then 1 else 5)
namex-resolve_parent_example = namex-resolve_parent sh_inode 1 5 sh_path [] sh_path-IsText
