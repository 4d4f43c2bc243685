-- ===== src/Shell/Lexer.antt =====
-- c-shell/src/lexer.c: the tokens of an input line. A line is the list of its bytes before the NUL.
pub mod Quote
pub mod Fuel
use unix_c_shell.Common.{
  ℕ, zero, suc, Bool, true, false, not, ◌&&◌, ◌||◌, Option, none, some, List, [], ◌∷◌, ◌++◌, ltb,
  ◌==◌, if◌then◌else◌, length, drop, get_elem?,
}

pub data TokenType : Type 0 where
  op_pipe op_amp op_semi op_lt op_gt op_gtgt word : TokenType

pub record Token : Type 0 where
  pub type : TokenType
  pub value : List ℕ

abbrev pub squote : ℕ
squote = 39

abbrev pub dquote : ℕ
dquote = 34

abbrev pub backslash : ℕ
backslash = 92

abbrev pub blank : ℕ
blank = 32

-- Space, tab, newline, carriage return.
unfoldable pub is_space : ℕ → Bool
is_space c = c == blank || c == 9 || c == 10 || c == 13

-- `|`, `&`, `;`, `<`, `>`.
unfoldable pub is_operator : ℕ → Bool
is_operator c = c == 124 || c == 38 || c == 59 || c == 60 || c == 62

-- The text that the lexer gives to an operator.
unfoldable pub op_text : TokenType → List ℕ
op_text TokenType.op_pipe = 124 ∷ []
op_text TokenType.op_amp = 38 ∷ []
op_text TokenType.op_semi = 59 ∷ []
op_text TokenType.op_lt = 60 ∷ []
op_text TokenType.op_gt = 62 ∷ []
op_text TokenType.op_gtgt = 62 ∷ 62 ∷ []
op_text TokenType.word = []

-- `add_t`
unfoldable pub add_t : List Token → TokenType → List ℕ → List Token
add_t ts type value = ts ++ record { type = type; value = value } ∷ []

-- Whether the next byte is there and is `c`.
unfoldable pub is_next : Option ℕ → ℕ → Bool
is_next none c = false
is_next (some d) c = d == c

-- What the inner loop does at a byte: it stops at it, flips a quote, puts the byte in the buffer, puts
-- the next one there and skips both, or rejects the line.
pub data Act : Type 0 where
  stop single double put put_next reject : Act

-- The tests of the inner loop, in their order.
unfoldable pub word_char : (sq dq : Bool) → ℕ → (next : Option ℕ) → Act
unfolding is_space is_operator is_next
word_char sq dq c next =
    if not sq && not dq && (is_space c || is_operator c)
    then Act.stop
    else if c == squote && not dq
    then Act.single
    else if c == dquote && not sq
    then Act.double
    else if c == backslash
    then if sq
      then Act.put
      else if dq
      then if is_next next dquote || is_next next backslash then Act.put_next else Act.put
      else escape next
    else Act.put
  where
    escape : Option ℕ → Act
    escape none = Act.reject
    escape (some d) = if d == 10 then Act.reject else Act.put_next

-- `char buffer[4096]`
abbrev pub buffer_size : ℕ
buffer_size = 4096

-- The end of the inner loop: the buffer, whether a quote was seen, and the rest of the line. A byte or
-- the NUL that is written behind the buffer is an `overflow`, after which C defines nothing.
pub data Scanned : Type 0 where
  ended : (buffer : List ℕ) (explicit_empty : Bool) (rest : List ℕ) → Scanned
  bad overflow : Scanned

-- What a write at `buffer[b_idx]` goes on with.
unfoldable pub fits : (buffer : List ℕ) → Scanned → Scanned
fits buffer s = if ltb (length buffer) buffer_size then s else Scanned.overflow

unfoldable pub lex_word : (sq dq explicit_empty : Bool) (buffer : List ℕ) → List ℕ → Scanned
unfolding fits
lex_word sq dq e buffer [] =
    if sq || dq then Scanned.bad else fits buffer (Scanned.ended buffer e [])
lex_word sq dq e buffer (c ∷ []) = elim (word_char sq dq c none) [
  | Act.stop ↦ fits buffer (Scanned.ended buffer e (c ∷ []))
  | Act.single ↦ lex_word (not sq) dq true buffer []
  | Act.double ↦ lex_word sq (not dq) true buffer []
  | Act.put ↦ fits buffer (lex_word sq dq e (buffer ++ c ∷ []) [])
  | Act.put_next ↦ Scanned.bad
  | Act.reject ↦ Scanned.bad
]
lex_word sq dq e buffer (c ∷ d ∷ cs) = elim (word_char sq dq c (some d)) [
  | Act.stop ↦ fits buffer (Scanned.ended buffer e (c ∷ d ∷ cs))
  | Act.single ↦ lex_word (not sq) dq true buffer (d ∷ cs)
  | Act.double ↦ lex_word sq (not dq) true buffer (d ∷ cs)
  | Act.put ↦ fits buffer (lex_word sq dq e (buffer ++ c ∷ []) (d ∷ cs))
  | Act.put_next ↦ fits buffer (lex_word sq dq e (buffer ++ d ∷ []) cs)
  | Act.reject ↦ Scanned.bad
]

-- What the outer loop finds at a byte.
pub data Start : Type 0 where
  space letter gtgt : Start
  operator : TokenType → Start

unfoldable pub start_char : ℕ → (next : Option ℕ) → Start
unfolding is_space is_next
start_char c next =
    if is_space c
    then Start.space
    else if c == 62
    then if is_next next 62 then Start.gtgt else Start.operator TokenType.op_gt
    else if c == 60
    then Start.operator TokenType.op_lt
    else if c == 124
    then Start.operator TokenType.op_pipe
    else if c == 38
    then Start.operator TokenType.op_amp
    else if c == 59
    then Start.operator TokenType.op_semi
    else Start.letter

-- `invalid_syntax` stands for the error message and NULL, `overflow` for a write behind the buffer.
pub data Lexed : Type 0 where
  tokens : List Token → Lexed
  invalid_syntax overflow out_of_fuel : Lexed

-- The outer loop, from the tokens already in the list.
unfoldable pub lex_from : (fuel : ℕ) → List Token → List ℕ → Lexed
unfolding add_t op_text
lex_from fuel ts [] = Lexed.tokens ts
lex_from zero ts (c ∷ cs) = Lexed.out_of_fuel
lex_from (suc fuel) ts (c ∷ cs) = elim (start_char c (get_elem? cs 0)) [
  | Start.space ↦ lex_from fuel ts cs
  | Start.gtgt ↦ lex_from fuel (add_t ts TokenType.op_gtgt (op_text TokenType.op_gtgt)) (drop 1 cs)
  | Start.operator type ↦ lex_from fuel (add_t ts type (op_text type)) cs
  | Start.letter ↦ elim (lex_word false false false [] (c ∷ cs)) [
    | Scanned.bad ↦ Lexed.invalid_syntax
    | Scanned.overflow ↦ Lexed.overflow
    | Scanned.ended buffer e rest ↦
        lex_from fuel (if ltb 0 (length buffer) || e then add_t ts TokenType.word buffer else ts)
          rest
  ]
]

unfoldable pub lex_input : List ℕ → Lexed
unfolding lex_from
lex_input input = lex_from (length input) [] input
