-- ===== src/Shell/Lexer/Fuel.antt =====
-- The outer loop ends within the length of the line.
use unix_c_shell.Common.{
  ℕ, zero, suc, ◌≤◌, ◌≡◌, ◌≢◌, refl, Bool, true, false, Option, List, [], ◌∷◌, ◌++◌, arith, length,
  get_elem?, drop, not, ◌⊎◌, inl, inr,
}
use unix_c_shell.Shell.Lexer.{
  Act, Scanned, Start, Lexed, Token, TokenType, word_char, lex_word, start_char, lex_from,
  lex_input, is_space, is_operator, fits,
}

-- The inner loop leaves no more than it got.
lex_word_rest :
    (cs : List ℕ) (sq dq e e' : Bool) (b b' r : List ℕ)
    → lex_word sq dq e b cs ≡ Scanned.ended b' e' r
    → length r ≤ length cs
unfolding lex_word fits
lex_word_rest [] sq dq e e' b b' r h = ground arith
lex_word_rest (c ∷ []) sq dq e e' b b' r h = ground (
  arith,
  lex_word_rest [] (not sq) dq true e' b b' r,
  lex_word_rest [] sq (not dq) true e' b b' r,
  lex_word_rest [] sq dq e e' (b ++ c ∷ []) b' r,
)
lex_word_rest (c ∷ d ∷ cs) sq dq e e' b b' r h = ground (
  arith,
  lex_word_rest (d ∷ cs) (not sq) dq true e' b b' r,
  lex_word_rest (d ∷ cs) sq (not dq) true e' b b' r,
  lex_word_rest (d ∷ cs) sq dq e e' (b ++ c ∷ []) b' r,
  lex_word_rest cs sq dq e e' (b ++ d ∷ []) b' r,
)

letter_goes_on :
    (c : ℕ) (next : Option ℕ)
    → start_char c next ≡ Start.letter
    → word_char false false c next ≢ Act.stop
unfolding start_char word_char is_space is_operator
letter_goes_on c next h = ground arith

-- The inner loop takes a byte at which it does not stop.
lex_word_progress :
    (c : ℕ) (cs : List ℕ) (e' : Bool) (b' r : List ℕ)
    → word_char false false c (get_elem? cs 0) ≢ Act.stop
    → lex_word false false false [] (c ∷ cs) ≡ Scanned.ended b' e' r
    → length r ≤ length cs
unfolding lex_word fits
lex_word_progress c [] e' b' r go h = ground (
  arith,
  lex_word_rest [] true false true e' [] b' r,
  lex_word_rest [] false true true e' [] b' r,
  lex_word_rest [] false false false e' (c ∷ []) b' r,
)
lex_word_progress c (d ∷ cs) e' b' r go h = ground (
  arith,
  lex_word_rest (d ∷ cs) true false true e' [] b' r,
  lex_word_rest (d ∷ cs) false true true e' [] b' r,
  lex_word_rest (d ∷ cs) false false false e' (c ∷ []) b' r,
  lex_word_rest cs false false false e' (d ∷ []) b' r,
)

drop_one : (cs : List ℕ) → length (drop 1 cs) ≤ length cs
drop_one [] = omega arith
drop_one (c ∷ cs) = omega arith

pub Start-cases :
    (s : Start)
    → (s ≡ Start.space)
      ⊎ (s ≡ Start.gtgt)
      ⊎ ((t : TokenType) × (s ≡ Start.operator t))
      ⊎ (s ≡ Start.letter)
Start-cases Start.space = inl refl
Start-cases Start.gtgt = inr (inl refl)
Start-cases (Start.operator t) = inr (inr (inl (t, refl)))
Start-cases Start.letter = inr (inr (inr refl))

Scanned-cases :
    (s : Scanned)
    → (s ≡ Scanned.bad)
      ⊎ (s ≡ Scanned.overflow)
      ⊎ ((b : List ℕ) × (e : Bool) × (r : List ℕ) × (s ≡ Scanned.ended b e r))
Scanned-cases Scanned.bad = inl refl
Scanned-cases Scanned.overflow = inr (inl refl)
Scanned-cases (Scanned.ended b e r) = inr (inr (b, e, r, refl))

lex_from-enough :
    (fuel : ℕ) (ts : List Token) (cs : List ℕ)
    → length cs ≤ fuel
    → lex_from fuel ts cs ≢ Lexed.out_of_fuel
unfolding lex_from
lex_from-enough fuel ts [] h e = cc
lex_from-enough zero ts (c ∷ cs) h e = absurd (omega arith)
lex_from-enough (suc fuel) ts (c ∷ cs) h e = elim (Start-cases (start_char c (get_elem? cs 0))) [
  | inl q ↦ lex_from-enough fuel ts cs (omega arith) (rw (q, lex_from) at e)
  | inr (inl q) ↦
      lex_from-enough fuel _ (drop 1 cs) (omega (arith, drop_one cs)) (rw (q, lex_from) at e)
  | inr (inr (inl (t, q))) ↦ lex_from-enough fuel _ cs (omega arith) (rw (q, lex_from) at e)
  | inr (inr (inr q)) ↦ elim (Scanned-cases (lex_word false false false [] (c ∷ cs))) [
    | inl w ↦ let bad : Lexed.invalid_syntax ≡ Lexed.out_of_fuel = rw (q, w, lex_from) at e in cc
    | inr (inl w) ↦ let bad : Lexed.overflow ≡ Lexed.out_of_fuel = rw (q, w, lex_from) at e in cc
    | inr (inr (b, b_e, r, w)) ↦
        let shorter = lex_word_progress c cs b_e b r (letter_goes_on c _ q) w in
        lex_from-enough fuel _ r (omega arith) (rw (q, w, lex_from) at e)
  ]
]

-- The lexer ends on every line: as many rounds as the line has bytes are enough.
pub lex_input_ends : (input : List ℕ) → lex_input input ≢ Lexed.out_of_fuel
unfolding lex_input
lex_input_ends input = lex_from-enough (length input) [] input (omega arith)
