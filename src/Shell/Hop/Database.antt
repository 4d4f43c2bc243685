-- ===== src/Shell/Hop/Database.antt =====
-- The database of the directories visited stays valid, whatever hops are made.
use unix_c_shell.Common.{◌+◌, ◌≤◌, ◌≡◌, Bool, false, List, [], ◌∷◌, if◌then◌else◌, length, All}
use unix_c_shell.Shell.Hop.{max_entries, Entry, Hop, streq}

-- No two entries have the same path.
unfoldable pub Distinct : List Entry → Type 0
Distinct [] = Unit
Distinct (e ∷ entries) = All (λ f. streq f.path e.path ≡ false) entries × Distinct entries

pub record IsValid (entries : List Entry) : Type 0 where
  pub fits : length entries ≤ max_entries
  pub distinct : Distinct entries

-- What a hop leaves: a valid database, and one error more exactly if it fails.
record Hopped (h : Hop) (r : Bool × Hop) : Type 0 where
  valid : IsValid h.entries → IsValid r.1.entries
  errors : r.1.errors ≡ (if r.0 then h.errors else h.errors + 1)
