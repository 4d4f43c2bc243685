-- ===== src/Grep/Tests.antt =====
-- Runs of the matcher.
use unix_c_shell.Common.{ℕ, ◌≡◌, refl, true, false, List, [], ◌∷◌, ◌↔◌}
use unix_c_shell.Grep.{match}
use unix_c_shell.Grep.Items.{Starts, items}
use unix_c_shell.Grep.Language.{Occurs, starts_with_hat, match_iff}

abbrev pattern : List ℕ
pattern = b'a' ∷ b'*' ∷ b'b' ∷ b'$' ∷ []

abbrev text : List ℕ
text = b'c' ∷ b'a' ∷ b'a' ∷ b'b' ∷ []

found_test : match pattern text ≡ true
unfolding match
found_test = refl

not_at_start_test : match (b'^' ∷ pattern) text ≡ false
unfolding match
not_at_start_test = refl

match_iff_example :
    ((match (b'^' ∷ pattern) text ≡ true) ↔ Starts (items pattern).0 (items pattern).1 text)
    × (starts_with_hat pattern ≡ false → (match pattern text ≡ true) ↔ Occurs pattern text)
match_iff_example = match_iff pattern text
