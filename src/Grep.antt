-- ===== src/Grep.antt =====
-- xv6/user/grep.c: the matcher. A pattern and a text are their bytes without the NUL at the end.
pub mod Items
pub mod Language
mod Tests
use unix_c_shell.Common.{ℕ, Bool, true, false, ◌||◌, ◌&&◌, List, [], ◌∷◌, ◌==◌, if◌then◌else◌}

-- A star, `matchhere` on the rest of the pattern being `here`.
unfoldable pub matchstar : (List ℕ → Bool) → ℕ → List ℕ → Bool
matchstar here c [] = here []
matchstar here c (t ∷ text) =
    let more = matchstar here c text in
    if here (t ∷ text) then true else if t == c || c == b'.' then more else false

abbrev pub is_end : List ℕ → Bool
is_end [] = true
is_end (_ ∷ _) = false

-- The last test of `matchhere`, `matchhere` on the rest of the pattern being `here`.
abbrev pub match_one : (List ℕ → Bool) → ℕ → List ℕ → Bool
match_one here c [] = false
match_one here c (t ∷ text) = if c == b'.' || c == t then here text else false

unfoldable pub matchhere : List ℕ → List ℕ → Bool
unfolding matchstar
matchhere [] text = true
matchhere (c ∷ []) text = if c == b'$' then is_end text else match_one (matchhere []) c text
matchhere (c ∷ d ∷ re) text =
    let star = matchstar (matchhere re) c text in
    let one = match_one (matchhere (d ∷ re)) c text in if d == b'*' then star else one

-- The loop of `match` over the places of the text.
unfoldable pub match_from : List ℕ → List ℕ → Bool
unfolding matchhere
match_from re [] = matchhere re []
match_from re (t ∷ text) =
    let rest = match_from re text in if matchhere re (t ∷ text) then true else rest

unfoldable pub match : List ℕ → List ℕ → Bool
unfolding match_from
match [] text = match_from [] text
match (c ∷ re) text = if c == b'^' then matchhere re text else match_from (c ∷ re) text
