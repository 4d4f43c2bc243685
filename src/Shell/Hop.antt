-- ===== src/Shell/Hop.antt =====
-- c-shell/src/hop.c: changing the directory, with a database of the directories visited. A path is its bytes
-- without the NUL, and shorter than PATH_MAX.
pub mod Frecency
pub mod Database
mod Tests
use unix_c_shell.Common.{
  ℕ, suc, ◌+◌, ◌-◌, ◌*◌, Bool, true, false, ◌&&◌, Option, none, some, List, [], ◌∷◌, ◌++◌, ltb,
  ◌==◌, if◌then◌else◌, length,
}

abbrev pub max_entries : ℕ
max_entries = 256

-- `FrecencyEntry`
pub record Entry : Type 0 where
  pub path : List ℕ
  pub visits : ℕ
  pub last_access : ℕ

-- `prev_dir`, the entries in the database, what getcwd answers, and the number of errors printed.
pub record Hop : Type 0 where
  pub prev_dir : List ℕ
  pub entries : List Entry
  pub cwd : Option (List ℕ)
  pub errors : ℕ

-- `strcmp(a, b) == 0`
unfoldable pub streq : List ℕ → List ℕ → Bool
streq [] [] = true
streq [] (_ ∷ _) = false
streq (_ ∷ _) [] = false
streq (c ∷ a) (d ∷ b) = let rest = streq a b in if c == d then rest else false

unfoldable pub has_prefix : List ℕ → List ℕ → Bool
has_prefix [] path = true
has_prefix (_ ∷ _) [] = false
has_prefix (c ∷ name) (d ∷ path) = let rest = has_prefix name path in if c == d then rest else false

-- `strstr(path, name) != 0`
unfoldable pub strstr : List ℕ → List ℕ → Bool
unfolding has_prefix
strstr [] name = has_prefix name []
strstr (c ∷ path) name =
    let rest = strstr path name in if has_prefix name (c ∷ path) then true else rest

-- The loop of `record_visit`; `room` counts the entries that are free.
unfoldable pub visit_from : (room : ℕ) (abspath : List ℕ) (now : ℕ) → List Entry → List Entry
unfolding streq
visit_from room abspath now [] =
    if ltb 0 room then record { path = abspath; visits = 1; last_access = now } ∷ [] else []
visit_from room abspath now (e ∷ entries) =
    let rest = visit_from room abspath now entries in
    if streq e.path abspath
    then record e { visits = e.visits + 1; last_access = now } ∷ entries
    else e ∷ rest

unfoldable pub record_visit : (abspath : List ℕ) (now : ℕ) → List Entry → List Entry
unfolding visit_from
record_visit abspath now entries = visit_from (max_entries - length entries) abspath now entries

-- Four times the score, so that it is a whole number.
unfoldable pub score_of : (visits last_access now : ℕ) → ℕ
score_of visits last_access now =
    let age_secs = now - last_access in
    visits
    * (if ltb age_secs 3600
        then 16
        else if ltb age_secs 86400
        then 8
        else if ltb age_secs 604800
        then 2
        else 1)

module _ (is_dir : List ℕ → Bool) (now : ℕ) where
  abbrev pub is_candidate : List ℕ → Entry → Bool
  is_candidate name e = strstr e.path name && is_dir e.path

  abbrev pub score : Entry → ℕ
  score e = score_of e.visits e.last_access now

  abbrev pub beats : Entry → Option Entry → Bool
  beats e none = true
  beats e (some b) = ltb (score b) (score e)

  -- The loop of `frecency_lookup`; `best` is the best entry so far.
  unfoldable pub best_from : (name : List ℕ) (best : Option Entry) → List Entry → Option Entry
  best_from name best [] = best
  best_from name best (e ∷ entries) =
      best_from name (if is_candidate name e && beats e best then some e else best) entries

  unfoldable pub frecency_lookup : List ℕ → List Entry → Option Entry
  unfolding best_from
  frecency_lookup name entries = best_from name none entries

  module _ (home : List ℕ) (chdir : Option (List ℕ) → List ℕ → Option (Option (List ℕ)))
      (resolve_direct : Option (List ℕ) → List ℕ → Option (List ℕ)) where
    -- The database and the previous directory after a change of the directory.
    abbrev pub visited : Option (List ℕ) → List Entry → List Entry
    visited none entries = entries
    visited (some abspath) entries = record_visit abspath now entries

    abbrev pub old_dir : Option (List ℕ) → List ℕ → List ℕ
    old_dir none prev = prev
    old_dir (some []) prev = prev
    old_dir (some (c ∷ cwd)) prev = c ∷ cwd

    -- `do_chdir`; `chdir` answers what getcwd answers afterwards.
    unfoldable pub do_chdir : List ℕ → Hop → Bool × Hop
    do_chdir target h = elim (chdir h.cwd target) [
      | none ↦ (false, record h { errors = h.errors + 1 })
      | some new_cwd ↦ (
        true,
        record h {
          prev_dir = old_dir h.cwd h.prev_dir;
          entries = visited new_cwd h.entries;
          cwd = new_cwd;
        },
      )
    ]

    -- The cases of `hop_one` that come before the lookups.
    unfoldable pub hop_parent : Hop → Bool × Hop
    unfolding do_chdir
    hop_parent h = elim h.cwd [
      | none ↦ (true, h)
      | some cwd ↦ if streq cwd (b'/' ∷ []) then (true, h) else do_chdir (b'.' ∷ b'.' ∷ []) h
    ]

    unfoldable pub hop_named : List ℕ → Hop → Bool × Hop
    unfolding do_chdir
    hop_named arg h = elim (resolve_direct h.cwd arg) [
      | some resolved ↦ do_chdir resolved h
      | none ↦ (elim (frecency_lookup arg h.entries) [
        | some e ↦ do_chdir e.path h
        | none ↦ (false, record h { errors = h.errors + 1 })
      ])
    ]

    unfoldable pub hop_one : List ℕ → Hop → Bool × Hop
    unfolding hop_parent hop_named do_chdir
    hop_one arg h =
        if streq arg (b'.' ∷ [])
        then (true, h)
        else if streq arg (b'~' ∷ [])
        then do_chdir home h
        else if streq arg (b'.' ∷ b'.' ∷ [])
        then hop_parent h
        else if streq arg (b'-' ∷ [])
        then (if length h.prev_dir == 0 then (true, h) else do_chdir h.prev_dir h)
        else hop_named arg h

    unfoldable pub hop_from : List (List ℕ) → Hop → Hop
    unfolding hop_one
    hop_from [] h = h
    hop_from (arg ∷ args) h =
        let (ok, h') = hop_one arg h in let rest = hop_from args h' in if ok then rest else h'

    -- `run_hop` on the tokens behind its name.
    unfoldable pub run_hop : List (List ℕ) → Hop → Hop
    unfolding hop_from
    run_hop [] h = (hop_one (b'~' ∷ []) h).1
    run_hop (arg ∷ args) h = hop_from (arg ∷ args) h
