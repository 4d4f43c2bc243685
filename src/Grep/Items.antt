-- ===== src/Grep/Items.antt =====
-- The language of a pattern.
use unix_c_shell.Common.{ℕ, ◌≡◌, Bool, true, false, ◌||◌, List, [], ◌∷◌, ◌++◌, ◌==◌, if◌then◌else◌}

-- A letter of a pattern, alone or with a star.
pub data Item : Type 0 where
  one star : ℕ → Item

-- The items of a pattern, and whether it ends with `$`.
unfoldable pub items : List ℕ → List Item × Bool
items [] = ([], false)
items (c ∷ []) = if c == b'$' then ([], true) else (one c ∷ [], false)
items (c ∷ d ∷ re) =
    let (after_star, end_star) = items re in
    let (after_one, end_one) = items (d ∷ re) in
    if d == b'*' then (star c ∷ after_star, end_star) else (one c ∷ after_one, end_one)

-- A letter stands for itself, and a dot for any byte.
abbrev pub fits : ℕ → ℕ → Bool
fits c t = c == b'.' || c == t

-- The texts of a list of items.
pub data Spells : List Item → List ℕ → Type 0 where
  nothing : Spells [] []
  letter :
      (c t : ℕ) (is : List Item) (w : List ℕ)
      → fits c t ≡ true
      → Spells is w
      → Spells (one c ∷ is) (t ∷ w)
  stop : (c : ℕ) (is : List Item) (w : List ℕ) → Spells is w → Spells (star c ∷ is) w
  repeat :
      (c t : ℕ) (is : List Item) (w : List ℕ)
      → fits c t ≡ true
      → Spells (star c ∷ is) w
      → Spells (star c ∷ is) (t ∷ w)

-- The text starts with one of them; it is one of them where the pattern ends with `$`.
pub record Starts (is : List Item) (end : Bool) (text : List ℕ) : Type 0 where
  pub word : List ℕ
  pub rest : List ℕ
  pub cut : word ++ rest ≡ text
  pub spells : Spells is word
  pub at_end : end ≡ true → rest ≡ []
