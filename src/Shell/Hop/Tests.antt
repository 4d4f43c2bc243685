-- ===== src/Shell/Hop/Tests.antt =====
-- Two directories that were visited, and one that is not there any more.
use unix_c_shell.Common.{
  ℕ, ◌≡◌, refl, Bool, Option, none, some, List, [], ◌∷◌, ◌==◌, length, not, ◌||◌,
}
use unix_c_shell.Shell.Hop.{
  Entry, Hop, streq, strstr, frecency_lookup, score_of, record_visit, run_hop,
}
use unix_c_shell.Shell.Hop.Frecency.{IsBest, frecency_lookup-IsBest}

abbrev src_dir : List ℕ
src_dir = b'/' ∷ b's' ∷ []

abbrev old_src_dir : List ℕ
old_src_dir = b'/' ∷ b'o' ∷ b's' ∷ []

abbrev gone_dir : List ℕ
gone_dir = b'/' ∷ b's' ∷ b's' ∷ []

-- At time 100000, the second was visited more often, but days ago.
abbrev database : List Entry
database =
    record { path = old_src_dir; visits = 5; last_access = 1000 }
    ∷ record { path = src_dir; visits = 2; last_access = 99000 }
    ∷ record { path = gone_dir; visits = 9; last_access = 99000 }
    ∷ []

abbrev is_there : List ℕ → Bool
is_there path = not (length path == 3) || streq path old_src_dir

lookup_test :
    frecency_lookup is_there 100000 (b's' ∷ []) database
    ≡ some (record { path = src_dir; visits = 2; last_access = 99000 })
unfolding frecency_lookup strstr streq score_of
lookup_test = refl

-- Every directory can be entered, and no name is one by itself.
abbrev enter : Option (List ℕ) → List ℕ → Option (Option (List ℕ))
enter _ path = some (some path)

abbrev no_direct : Option (List ℕ) → List ℕ → Option (List ℕ)
no_direct _ _ = none

abbrev at_root : Hop
at_root = record { prev_dir = []; entries = database; cwd = some (b'/' ∷ []); errors = 0 }

-- The name leads to the directory of the best score, and a dash back.
back_test :
    (run_hop is_there 100000 [] enter no_direct
      ((b's' ∷ []) ∷ (b'-' ∷ []) ∷ (b'q' ∷ []) ∷ (b'-' ∷ []) ∷ [])
      at_root).cwd
    ≡ some (b'/' ∷ [])
unfolding run_hop frecency_lookup strstr streq score_of record_visit
back_test = refl

frecency_lookup-IsBest_example :
    IsBest is_there 100000
      (b's' ∷ [])
      database
      (frecency_lookup is_there 100000 (b's' ∷ []) database)
frecency_lookup-IsBest_example = frecency_lookup-IsBest is_there 100000 (b's' ∷ []) database
