-- ===== src/Shell/Lexer/Quote.antt =====
-- Tokens written out with their words in double quotes are read back.
use mathlib.Core.List.{append-nil, append_assoc}
use unix_c_shell.Common.{
  ℕ, zero, suc, ◌≤◌, ◌≡◌, refl, sym, ap, ◌∙◌, Bool, true, false, ◌||◌, Option, none, some, List, [],
  ◌∷◌, ◌++◌, arith, length, ltb, if◌then◌else◌, ◌==◌, All, Bool-cases, ◌<◌, ◌+◌, ◌≢◌, lt→ltb,
  length-append, inl, inr, ◌⊎◌,
}
use unix_c_shell.Shell.Lexer.{
  Act, Scanned, Lexed, Token, TokenType, word_char, lex_word, start_char, lex_from, lex_input,
  dquote, backslash, blank, fits, buffer_size, op_text, add_t, is_space, is_operator, is_next,
}

-- A word between double quotes: a quote or a backslash in it is escaped.
abbrev pub escape : List ℕ → List ℕ → List ℕ
escape [] rest = dquote ∷ rest
escape (c ∷ w) rest =
    let more = escape w rest in
    if c == dquote || c == backslash then backslash ∷ c ∷ more else c ∷ more

-- A token as text, and a blank behind it.
abbrev pub write_token : TokenType → (value rest : List ℕ) → List ℕ
write_token TokenType.word value rest = dquote ∷ escape value (blank ∷ rest)
write_token type value rest = op_text type ++ blank ∷ rest

abbrev pub write_tokens : List Token → List ℕ
write_tokens [] = []
write_tokens (t ∷ ts) = write_token t.type t.value (write_tokens ts)

-- A text that fits in the lexer's buffer with its NUL, and has no NUL in it.
abbrev pub Fits : List ℕ → Type 0
Fits w = (length w < buffer_size) × All (λ c. c ≢ 0) w

-- An operator has the text of its type; a word has any text that fits.
abbrev pub IsProper : Token → Type 0
IsProper t = (t.type ≡ TokenType.word) × Fits t.value ⊎ (t.value ≡ op_text t.type)

lex_word_put :
    (c : ℕ) (cs b : List ℕ)
    → ((next : Option ℕ) → word_char false true c next ≡ Act.put)
    → length b < buffer_size
    → lex_word false true true b (c ∷ cs) ≡ lex_word false true true (b ++ c ∷ []) cs
unfolding lex_word fits
lex_word_put c [] b h lt = rw (h none, lex_word) (rw (lt→ltb (length b) buffer_size lt))
lex_word_put c (d ∷ cs) b h lt = rw (h (some d), lex_word) (rw (lt→ltb (length b) buffer_size lt))

plain_char :
    (c : ℕ) (next : Option ℕ)
    → (c == dquote || c == backslash) ≡ false
    → word_char false true c next ≡ Act.put
unfolding word_char
plain_char c next h = ground arith

escaped_char :
    (c : ℕ)
    → (c == dquote || c == backslash) ≡ true
    → word_char false true backslash (some c) ≡ Act.put_next
unfolding word_char is_next
escaped_char c h = ground arith

lex_word_next :
    (c : ℕ) (cs b : List ℕ)
    → word_char false true backslash (some c) ≡ Act.put_next
    → length b < buffer_size
    → lex_word false true true b (backslash ∷ c ∷ cs) ≡ lex_word false true true (b ++ c ∷ []) cs
unfolding lex_word fits
lex_word_next c cs b h lt = rw (h, lex_word) (rw (lt→ltb (length b) buffer_size lt))

closing_quote :
    (b rest : List ℕ)
    → length b < buffer_size
    → lex_word false true true b (dquote ∷ blank ∷ rest) ≡ Scanned.ended b true (blank ∷ rest)
unfolding lex_word fits word_char is_space is_operator
closing_quote b [] lt = rw (lt→ltb (length b) buffer_size lt)
closing_quote b (c ∷ cs) lt = rw (lt→ltb (length b) buffer_size lt)

opening_quote :
    (cs : List ℕ) → lex_word false false false [] (dquote ∷ cs) ≡ lex_word false true true [] cs
unfolding lex_word word_char is_space is_operator
opening_quote [] = refl
opening_quote (c ∷ cs) = refl

lex_word-escape :
    (w b rest : List ℕ)
    → length b + length w < buffer_size
    → lex_word false true true b (escape w (blank ∷ rest))
      ≡ Scanned.ended (b ++ w) true (blank ∷ rest)
lex_word-escape [] b rest lt =
    closing_quote b rest (omega arith)
    ∙ ap (λ x. Scanned.ended x true (blank ∷ rest)) (sym (append-nil b))
lex_word-escape (c ∷ w) b rest lt = elim (Bool-cases (c == dquote || c == backslash)) [
  | inl e ↦
      rw (e, if◌then◌else◌)
        (lex_word_next c (escape w (blank ∷ rest)) b (escaped_char c e) (omega arith)
          ∙ lex_word-escape w (b ++ c ∷ []) rest (omega (arith, length-append b (c ∷ [])))
          ∙ ap (λ x. Scanned.ended x true (blank ∷ rest)) (append_assoc b (c ∷ []) w))
  | inr e ↦
      rw (e, if◌then◌else◌)
        (lex_word_put c (escape w (blank ∷ rest)) b (λ next. plain_char c next e) (omega arith)
          ∙ lex_word-escape w (b ++ c ∷ []) rest (omega (arith, length-append b (c ∷ [])))
          ∙ ap (λ x. Scanned.ended x true (blank ∷ rest)) (append_assoc b (c ∷ []) w))
]

-- A quoted word is read as that word, also where it is empty.
lex_word-quoted :
    (w rest : List ℕ)
    → length w < buffer_size
    → lex_word false false false [] (dquote ∷ escape w (blank ∷ rest))
      ≡ Scanned.ended w true (blank ∷ rest)
lex_word-quoted w rest lt =
    opening_quote (escape w (blank ∷ rest)) ∙ lex_word-escape w [] rest (omega arith)

cons_nil : {c : ℕ} {w : List ℕ} → c ∷ w ≡ [] → ⊥
cons_nil h = cc

or_true : (b : Bool) → (b || true) ≡ true
or_true true = refl
or_true false = refl

-- The rounds of the outer loop for a token and the blank behind it.
lex_from-token :
    (type : TokenType) (value rest : List ℕ) (ts : List Token) (fuel : ℕ)
    → (type ≡ TokenType.word) × Fits value ⊎ (value ≡ op_text type)
    → lex_from (suc (suc fuel)) ts (write_token type value rest)
      ≡ lex_from fuel (ts ++ record { type = type; value = value } ∷ []) rest
unfolding lex_from start_char is_space is_next add_t op_text
lex_from-token TokenType.word [] rest ts fuel h =
    rw (lex_word-quoted [] rest (omega arith), lex_from)
lex_from-token TokenType.word (c ∷ w) rest ts fuel (inr h) = absurd (cons_nil h)
lex_from-token TokenType.word (c ∷ w) rest ts fuel (inl h) =
    rw (lex_word-quoted (c ∷ w) rest h.1.0, lex_from)
      (ap
        (λ b.
          lex_from (suc fuel) (if b then add_t ts TokenType.word (c ∷ w) else ts) (blank ∷ rest))
        (or_true (ltb 0 (length (c ∷ w)))))
lex_from-token TokenType.op_pipe value rest ts fuel (inl (h, _)) = cc
lex_from-token TokenType.op_amp value rest ts fuel (inl (h, _)) = cc
lex_from-token TokenType.op_semi value rest ts fuel (inl (h, _)) = cc
lex_from-token TokenType.op_lt value rest ts fuel (inl (h, _)) = cc
lex_from-token TokenType.op_gt value rest ts fuel (inl (h, _)) = cc
lex_from-token TokenType.op_gtgt value rest ts fuel (inl (h, _)) = cc
lex_from-token TokenType.op_pipe value rest ts fuel (inr h) = rw h
lex_from-token TokenType.op_amp value rest ts fuel (inr h) = rw h
lex_from-token TokenType.op_semi value rest ts fuel (inr h) = rw h
lex_from-token TokenType.op_lt value rest ts fuel (inr h) = rw h
lex_from-token TokenType.op_gt value rest ts fuel (inr h) = rw h
lex_from-token TokenType.op_gtgt value rest ts fuel (inr h) = rw h

length-escape : (w rest : List ℕ) → length rest ≤ length (escape w rest)
length-escape [] rest = omega arith
length-escape (c ∷ w) rest = ground (arith, length-escape w rest)

length-write_token :
    (type : TokenType) (value rest : List ℕ)
    → suc (suc (length rest)) ≤ length (write_token type value rest)
unfolding op_text
length-write_token TokenType.word value rest = omega (arith, length-escape value (blank ∷ rest))
length-write_token TokenType.op_pipe value rest = omega arith
length-write_token TokenType.op_amp value rest = omega arith
length-write_token TokenType.op_semi value rest = omega arith
length-write_token TokenType.op_lt value rest = omega arith
length-write_token TokenType.op_gt value rest = omega arith
length-write_token TokenType.op_gtgt value rest = omega arith

nothing : (fuel : ℕ) (ts : List Token) → lex_from fuel ts [] ≡ Lexed.tokens ts
unfolding lex_from
nothing zero ts = refl
nothing (suc fuel) ts = refl

lex_from-write_tokens :
    (ts acc : List Token) (fuel : ℕ)
    → All IsProper ts
    → length (write_tokens ts) ≤ fuel
    → lex_from fuel acc (write_tokens ts) ≡ Lexed.tokens (acc ++ ts)
lex_from-write_tokens [] acc fuel p h = nothing fuel acc ∙ ap Lexed.tokens (sym (append-nil acc))
lex_from-write_tokens (t ∷ ts) acc zero p h =
    absurd (omega (arith, length-write_token t.type t.value (write_tokens ts)))
lex_from-write_tokens (t ∷ ts) acc (suc zero) p h =
    absurd (omega (arith, length-write_token t.type t.value (write_tokens ts)))
lex_from-write_tokens (t ∷ ts) acc (suc (suc fuel)) p h =
    lex_from-token t.type t.value (write_tokens ts) acc fuel p.0
    ∙ lex_from-write_tokens ts (acc ++ t ∷ []) fuel p.1
        (omega (arith, length-write_token t.type t.value (write_tokens ts)))
    ∙ ap Lexed.tokens (append_assoc acc (t ∷ []) ts)

-- Every list of proper tokens, its words of at most 4095 bytes other than NUL, is what the lexer reads from
-- its text.
pub lex_input-write_tokens :
    (ts : List Token) → All IsProper ts → lex_input (write_tokens ts) ≡ Lexed.tokens ts
unfolding lex_input
lex_input-write_tokens ts p = lex_from-write_tokens ts [] (length (write_tokens ts)) p (omega arith)
