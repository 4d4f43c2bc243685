-- ===== src/Shell/Parser.antt =====
-- c-shell/src/parser.c: the syntax of a token list.
pub mod Grammar
use unix_c_shell.Common.{
  ℕ, Bool, true, false, not, ◌&&◌, ◌||◌, Option, none, some, List, [], ◌∷◌, map, if◌then◌else◌,
  get_elem?,
}
use unix_c_shell.Shell.Lexer.{TokenType, Token}

unfoldable pub is_word : TokenType → Bool
is_word TokenType.word = true
is_word _ = false

-- `|`, `&` and `;`.
unfoldable pub is_separator : TokenType → Bool
is_separator TokenType.op_pipe = true
is_separator TokenType.op_amp = true
is_separator TokenType.op_semi = true
is_separator _ = false

-- Whether a token may stand before the next one: the four tests of the loop that read `curr->next`.
unfoldable pub follows : TokenType → Option TokenType → Bool
unfolding is_word is_separator
follows TokenType.op_lt (some t) = is_word t
follows TokenType.op_lt none = false
follows TokenType.op_gt (some t) = is_word t
follows TokenType.op_gt none = false
follows TokenType.op_gtgt (some t) = is_word t
follows TokenType.op_gtgt none = false
follows TokenType.op_pipe (some t) = not (is_separator t)
follows TokenType.op_pipe none = false
follows TokenType.op_semi (some t) = not (is_separator t)
follows TokenType.op_semi none = false
follows TokenType.op_amp (some t) = not (is_separator t)
follows TokenType.op_amp none = true
follows TokenType.word _ = true

-- The loop, on the types of the rest of the list; `first` says that `prev` is NULL.
unfoldable pub valid_from : (first : Bool) → List TokenType → Bool
unfolding follows is_word
valid_from first [] = true
valid_from first (t ∷ ts) =
    if first && not (is_word t)
    then false
    else if follows t (get_elem? ts 0)
    then valid_from false ts
    else false

unfoldable pub valid_syntax : List Token → Bool
unfolding valid_from
valid_syntax ts = valid_from true (map (λ (t : Token). t.type) ts)
