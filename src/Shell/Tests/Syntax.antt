-- ===== src/Shell/Tests/Syntax.antt =====
-- The lexer, the parser and the pipeline code on concrete lines.
use unix_c_shell.Common.{
  ℕ, ◌≡◌, ◌≢◌, refl, ◌↔◌, inl, inr, true, Bool, List, [], ◌∷◌, map, All, arith, length, ◌≤◌, ◌<◌,
  ◌⊎◌, some, none,
}
use unix_c_shell.Shell.Lexer.{TokenType, Token, Lexed, lex_input, op_text}
use unix_c_shell.Shell.Lexer.Quote.{write_tokens, lex_input-write_tokens}
use unix_c_shell.Shell.Lexer.Fuel.{lex_input_ends}
use unix_c_shell.Shell.Parser.{valid_syntax, is_separator}
use unix_c_shell.Shell.Parser.Grammar.{NonTerminal, Derives, valid_syntax_iff}
use unix_c_shell.Shell.Pipeline.{groups, stage_from, builtin_redirections, max_files, Stripped}
use unix_c_shell.Shell.Pipeline.Groups.{valid_syntax-groups}
use unix_c_shell.Shell.Pipeline.Redirections.{as_stage, strip_redirections_lem}

abbrev word : List ℕ → Token
word w = record { type = TokenType.word; value = w }

abbrev to : Token
to = record { type = TokenType.op_gt; value = 62 ∷ [] }

abbrev semi : Token
semi = record { type = TokenType.op_semi; value = 59 ∷ [] }

-- A word with a quote and a backslash, an empty word, and a redirection.
abbrev line : List Token
line = word (97 ∷ 34 ∷ 92 ∷ []) ∷ word [] ∷ to ∷ word (102 ∷ []) ∷ []

lex_input-write_tokens_example : lex_input (write_tokens line) ≡ Lexed.tokens line
unfolding op_text
lex_input-write_tokens_example = lex_input-write_tokens line (
  inl (refl, (omega arith, (λ e. omega arith, (λ e. omega arith, (λ e. omega arith, tt))))),
  (inr refl, (inr refl, (inl (refl, (omega arith, (λ e. omega arith, tt))), tt))),
)

-- An open quote.
lex_input_ends_example : lex_input (97 ∷ 34 ∷ 98 ∷ []) ≢ Lexed.out_of_fuel
lex_input_ends_example = lex_input_ends (97 ∷ 34 ∷ 98 ∷ [])

valid_syntax_iff_example :
    (valid_syntax line ≡ true) ↔ Derives NonTerminal.line (map (λ (t : Token). t.type) line)
valid_syntax_iff_example = valid_syntax_iff line

valid_syntax-groups_example :
    All
      (λ (g : List Token × Bool). g.0 ≢ [])
      (groups [] (word (97 ∷ []) ∷ semi ∷ word (98 ∷ []) ∷ []))
unfolding valid_syntax
valid_syntax-groups_example = valid_syntax-groups (word (97 ∷ []) ∷ semi ∷ word (98 ∷ []) ∷ []) refl

strip_redirections_lem_example :
    ((length (stage_from 0 line).in_files ≤ max_files)
      × (length (stage_from 0 line).out_files ≤ max_files)
      × ((s : Stripped) × (builtin_redirections line ≡ some s) × (stage_from 0 line ≡ as_stage s)))
    ⊎ ((max_files < length (stage_from 0 line).in_files)
        ⊎ (max_files < length (stage_from 0 line).out_files))
      × (builtin_redirections line ≡ none)
unfolding valid_syntax is_separator
strip_redirections_lem_example =
    strip_redirections_lem line refl (refl, (refl, (refl, (refl, tt)))) (omega arith)
