-- ===== src/Fs/Directory/Tests.antt =====
-- A directory with one entry and a place that is not in use.
use unix_c_shell.Common.{ℕ, ◌≡◌, refl, true, List, [], ◌∷◌, none, some, arith, if◌then◌else◌, ◌⊎◌}
use unix_c_shell.Fs.Path.{Dirent, dirsiz, find_entry}
use unix_c_shell.Fs.Path.Elements.{cname, list_eq}
use unix_c_shell.Fs.Path.Resolve.{entry_of}
use unix_c_shell.Fs.Directory.{dirlink, dirlink_lem}

abbrev home : List Dirent
home =
    record { inum = 0; name = b'x' ∷ [] }
    ∷ record { inum = 4; name = b'c' ∷ b'a' ∷ b't' ∷ 0 ∷ [] }
    ∷ []

abbrev wc : List ℕ
wc = b'w' ∷ b'c' ∷ []

reuses_test :
    dirlink home wc 9 true
    ≡ some (
        record { inum = 9; name = b'w' ∷ b'c' ∷ 0 ∷ 0 ∷ 0 ∷ 0 ∷ 0 ∷ 0 ∷ 0 ∷ 0 ∷ 0 ∷ 0 ∷ 0 ∷ 0 ∷ [] }
        ∷ record { inum = 4; name = b'c' ∷ b'a' ∷ b't' ∷ 0 ∷ [] }
        ∷ [])
unfolding dirlink find_entry
reuses_test = refl

dirlink_lem_example :
    ((dirlink home wc 9 true ≡ none) × ((n : ℕ) × (entry_of home (cname dirsiz wc) ≡ some n)))
    ⊎ ((entries' : List Dirent) × (dirlink home wc 9 true ≡ some entries')
        × (entry_of home (cname dirsiz wc) ≡ none)
        × ((e : List ℕ)
            → entry_of entries' e
              ≡ (if list_eq e (cname dirsiz wc) then some 9 else entry_of home e)))
dirlink_lem_example = dirlink_lem home wc 9 (λ e. omega arith) (omega arith)
