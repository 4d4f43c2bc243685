-- ===== src/Shell/Parser/Grammar.antt =====
-- The grammar that the parser accepts.
use unix_c_shell.Common.{
  true, false, ◌≡◌, refl, ◌↔◌, List, [], ◌∷◌, map, get_elem?, not, if◌then◌else◌, Bool-cases, inl,
  inr,
}
use unix_c_shell.Shell.Lexer.{TokenType, Token}
use unix_c_shell.Shell.Parser.{valid_from, valid_syntax, follows, is_word, is_separator}

-- `>`, `>>` or `<`.
pub data Redirection : TokenType → Type 0 where
  lt : Redirection TokenType.op_lt
  gt : Redirection TokenType.op_gt
  gtgt : Redirection TokenType.op_gtgt

-- The right-linear grammar: a line, a command, and what may stand after the first word of a command.
pub data NonTerminal : Type 0 where
  line cmd tail : NonTerminal

pub data Derives : NonTerminal → List TokenType → Type 0 where
  empty_line : Derives NonTerminal.line []
  word_line :
      {ts : List TokenType}
      → Derives NonTerminal.tail ts
      → Derives NonTerminal.line (TokenType.word ∷ ts)
  word_cmd :
      {ts : List TokenType}
      → Derives NonTerminal.tail ts
      → Derives NonTerminal.cmd (TokenType.word ∷ ts)
  redirect_cmd :
      {t : TokenType} {ts : List TokenType}
      → Redirection t
      → Derives NonTerminal.tail ts
      → Derives NonTerminal.cmd (t ∷ TokenType.word ∷ ts)
  end_tail : Derives NonTerminal.tail []
  more_tail : {ts : List TokenType} → Derives NonTerminal.cmd ts → Derives NonTerminal.tail ts
  pipe_tail :
      {ts : List TokenType}
      → Derives NonTerminal.cmd ts
      → Derives NonTerminal.tail (TokenType.op_pipe ∷ ts)
  semi_tail :
      {ts : List TokenType}
      → Derives NonTerminal.cmd ts
      → Derives NonTerminal.tail (TokenType.op_semi ∷ ts)
  amp_tail :
      {ts : List TokenType}
      → Derives NonTerminal.cmd ts
      → Derives NonTerminal.tail (TokenType.op_amp ∷ ts)
  last_amp_tail : Derives NonTerminal.tail (TokenType.op_amp ∷ [])

-- A list that goes on and does not start with a separator is a command.
cmd_tail :
    (t : TokenType) (ts : List TokenType)
    → is_separator t ≡ false
    → Derives NonTerminal.tail (t ∷ ts)
    → Derives NonTerminal.cmd (t ∷ ts)
unfolding is_separator
cmd_tail TokenType.word ts h (more_tail d) = d
cmd_tail TokenType.op_lt ts h (more_tail d) = d
cmd_tail TokenType.op_gt ts h (more_tail d) = d
cmd_tail TokenType.op_gtgt ts h (more_tail d) = d
cmd_tail TokenType.op_pipe ts h d = cc
cmd_tail TokenType.op_semi ts h d = cc
cmd_tail TokenType.op_amp ts h d = cc

after_separator :
    (t : TokenType) (ts : List TokenType)
    → (if not (is_separator t) then valid_from false (t ∷ ts) else false) ≡ true
    → (is_separator t ≡ false) × (valid_from false (t ∷ ts) ≡ true)
after_separator t ts h = elim (Bool-cases (is_separator t)) [
  | inl e ↦ let bad : false ≡ true = rw e at h in cc
  | inr e ↦ (e, rw e at h)
]

-- What the loop accepts after the first token derives from `tail`.
valid_from→tail : (ts : List TokenType) → valid_from false ts ≡ true → Derives NonTerminal.tail ts
unfolding valid_from follows is_word is_separator
valid_from→tail [] h = end_tail
valid_from→tail (TokenType.word ∷ ts) h = more_tail (word_cmd (valid_from→tail ts h))
valid_from→tail (TokenType.op_lt ∷ TokenType.word ∷ ts) h =
    more_tail (redirect_cmd lt (valid_from→tail ts h))
valid_from→tail (TokenType.op_gt ∷ TokenType.word ∷ ts) h =
    more_tail (redirect_cmd gt (valid_from→tail ts h))
valid_from→tail (TokenType.op_gtgt ∷ TokenType.word ∷ ts) h =
    more_tail (redirect_cmd gtgt (valid_from→tail ts h))
valid_from→tail (TokenType.op_pipe ∷ t ∷ ts) h =
    let q = after_separator t ts h in pipe_tail (cmd_tail t ts q.0 (valid_from→tail (t ∷ ts) q.1))
valid_from→tail (TokenType.op_amp ∷ []) h = last_amp_tail
valid_from→tail (TokenType.op_amp ∷ t ∷ ts) h =
    let q = after_separator t ts h in amp_tail (cmd_tail t ts q.0 (valid_from→tail (t ∷ ts) q.1))
valid_from→tail (TokenType.op_semi ∷ t ∷ ts) h =
    let q = after_separator t ts h in semi_tail (cmd_tail t ts q.0 (valid_from→tail (t ∷ ts) q.1))
valid_from→tail (_ ∷ ts) h = cc

valid_from→line : (ts : List TokenType) → valid_from true ts ≡ true → Derives NonTerminal.line ts
unfolding valid_from follows is_word
valid_from→line [] h = empty_line
valid_from→line (TokenType.word ∷ ts) h = word_line (valid_from→tail ts h)
valid_from→line (_ ∷ ts) h = cc

join :
    (ts : List TokenType)
    → valid_from false ts ≡ true
    → follows TokenType.op_pipe (get_elem? ts 0) ≡ true
    → (if follows TokenType.op_pipe (get_elem? ts 0) then valid_from false ts else false) ≡ true
join ts v f = rw f v

-- What the loop makes of a list that derives from a nonterminal.
abbrev Accepts : NonTerminal → List TokenType → Type 0
Accepts NonTerminal.line ts = valid_from true ts ≡ true
Accepts NonTerminal.tail ts = valid_from false ts ≡ true
Accepts NonTerminal.cmd ts =
    (valid_from false ts ≡ true) × (follows TokenType.op_pipe (get_elem? ts 0) ≡ true)

Derives-Accepts : (n : NonTerminal) (ts : List TokenType) → Derives n ts → Accepts n ts
unfolding valid_from follows is_word is_separator
Derives-Accepts _ _ empty_line = refl
Derives-Accepts _ _ (word_line d) = Derives-Accepts _ _ d
Derives-Accepts _ _ (word_cmd d) = (Derives-Accepts _ _ d, refl)
Derives-Accepts _ _ (redirect_cmd lt d) = (Derives-Accepts _ _ d, refl)
Derives-Accepts _ _ (redirect_cmd gt d) = (Derives-Accepts _ _ d, refl)
Derives-Accepts _ _ (redirect_cmd gtgt d) = (Derives-Accepts _ _ d, refl)
Derives-Accepts _ _ end_tail = refl
Derives-Accepts _ _ (more_tail d) = (Derives-Accepts _ _ d).0
Derives-Accepts _ _ (pipe_tail {ts = ts} d) = let q = Derives-Accepts _ ts d in join ts q.0 q.1
Derives-Accepts _ _ (semi_tail {ts = t ∷ ts} d) =
    let q = Derives-Accepts _ (t ∷ ts) d in join (t ∷ ts) q.0 q.1
Derives-Accepts _ _ (semi_tail {ts = []} d) = let q = Derives-Accepts _ [] d in cc
Derives-Accepts _ _ (amp_tail {ts = t ∷ ts} d) =
    let q = Derives-Accepts _ (t ∷ ts) d in join (t ∷ ts) q.0 q.1
Derives-Accepts _ _ (amp_tail {ts = []} d) = refl
Derives-Accepts _ _ last_amp_tail = refl

-- The parser accepts a token list exactly if the types of its tokens derive from `line`.
pub valid_syntax_iff :
    (ts : List Token)
    → (valid_syntax ts ≡ true) ↔ Derives NonTerminal.line (map (λ (t : Token). t.type) ts)
unfolding valid_syntax
valid_syntax_iff ts =
    (valid_from→line (map (λ (t : Token). t.type) ts), Derives-Accepts NonTerminal.line _)
