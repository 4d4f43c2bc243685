-- ===== src/Shell/Pipeline.antt =====
-- c-shell/src/pipeline.c and execute.c: how a token list is cut into groups and a stage into arguments
-- and redirections. Starting the processes of a group is the parameter `launch`.
pub mod Groups
pub mod Redirections
use unix_c_shell.Common.{
  ℕ, zero, suc, ◌+◌, Bool, true, false, not, ◌&&◌, ◌||◌, Option, none, some, List, [], ◌∷◌, ◌++◌,
  ltb, leb, ◌==◌, if◌then◌else◌, length,
}
use unix_c_shell.Shell.Lexer.{TokenType, Token}

-- `>`, `>>`, `<` with what they mean, `|`, the separators of groups, and words.
pub data Kind : Type 0 where
  input pipe semi amp word : Kind
  output : (append : Bool) → Kind

unfoldable pub kind : TokenType → Kind
kind TokenType.op_lt = Kind.input
kind TokenType.op_gt = Kind.output false
kind TokenType.op_gtgt = Kind.output true
kind TokenType.op_pipe = Kind.pipe
kind TokenType.op_semi = Kind.semi
kind TokenType.op_amp = Kind.amp
kind TokenType.word = Kind.word

-- The groups of `execute_pipeline`, and whether each is in the background; `group` is the part of the
-- first one that is read already. Nothing is started for an empty rest of the list.
unfoldable pub groups : (group : List Token) → List Token → List (List Token × Bool)
unfolding kind
groups [] [] = []
groups (g ∷ gs) [] = (g ∷ gs, false) ∷ []
groups group (t ∷ ts) = elim (kind t.type) [
  | Kind.semi ↦ (group, false) ∷ groups [] ts
  | Kind.amp ↦ (group, true) ∷ groups [] ts
  | _ ↦ groups (group ++ t ∷ []) ts
]

-- The loop: it stops after a foreground group whose lone command is not found. `launch` gives the new
-- state and `lone_not_found`.
unfoldable pub run_groups {ℓ} :
    {S : Type ℓ} → (launch : List Token → Bool → S → S × Bool) → List (List Token × Bool) → S → S
run_groups launch [] s = s
run_groups launch ((g, background) ∷ gs) s =
    let r = launch g background s in
    let rest = run_groups launch gs r.0 in if not background && r.1 then r.0 else rest

unfoldable pub execute_pipeline {ℓ} :
    {S : Type ℓ} → (launch : List Token → Bool → S → S × Bool) → List Token → S → S
unfolding groups run_groups
execute_pipeline launch ts s = run_groups launch (groups [] ts) s

-- `args`, `in_files`, and `out_files` with `out_modes`.
pub record Stage : Type 0 where
  pub args : List (List ℕ)
  pub in_files : List (List ℕ)
  pub out_files : List (List ℕ × Bool)

abbrev pub max_args : ℕ
max_args = 127

-- The loop of `launch_group` over a stage of `argc` arguments so far.
unfoldable pub stage_from : (argc : ℕ) → List Token → Stage
unfolding kind
stage_from argc [] = record { args = []; in_files = []; out_files = [] }
stage_from argc (t ∷ []) = elim (kind t.type) [
  | Kind.pipe ↦ record { args = []; in_files = []; out_files = [] }
  | _ ↦ record {
    args = if ltb argc max_args then t.value ∷ [] else [];
    in_files = [];
    out_files = [];
  }
]
stage_from argc (t ∷ w ∷ ts) = elim (ltb argc max_args) [
  | false ↦ record { args = []; in_files = []; out_files = [] }
  | true ↦ elim (kind t.type) [
    | Kind.pipe ↦ record { args = []; in_files = []; out_files = [] }
    | Kind.input ↦
        let rest = stage_from argc ts in record rest { in_files = w.value ∷ rest.in_files }
    | Kind.output append ↦
        let rest = stage_from argc ts in
        record rest { out_files = (w.value, append) ∷ rest.out_files }
    | _ ↦ let rest = stage_from (argc + 1) (w ∷ ts) in record rest { args = t.value ∷ rest.args }
  ]
]

-- What `strip_redirections` leaves of the tokens, and the files that it takes out.
pub record Stripped : Type 0 where
  pub tokens : List Token
  pub in_files : List (List ℕ)
  pub out_files : List (List ℕ × Bool)

-- The redirection that a token and the next one make.
unfoldable pub redirection : Token → Token → Kind
unfolding kind
redirection op w = elim (kind w.type) [ Kind.word ↦ kind op.type | _ ↦ Kind.word ]

-- The loop of `strip_redirections` from `curr` on.
unfoldable pub strip_from : List Token → Stripped
unfolding redirection
strip_from [] = record { tokens = []; in_files = []; out_files = [] }
strip_from (t ∷ []) = record { tokens = t ∷ []; in_files = []; out_files = [] }
strip_from (t ∷ w ∷ ts) = elim (redirection t w) [
  | Kind.input ↦ let rest = strip_from ts in record rest { in_files = w.value ∷ rest.in_files }
  | Kind.output append ↦
      let rest = strip_from ts in record rest { out_files = (w.value, append) ∷ rest.out_files }
  | _ ↦ let rest = strip_from (w ∷ ts) in record rest { tokens = t ∷ rest.tokens }
]

-- `strip_redirections` never looks at the first token.
unfoldable pub strip_redirections : List Token → Stripped
unfolding strip_from
strip_redirections [] = record { tokens = []; in_files = []; out_files = [] }
strip_redirections (t ∷ ts) = let rest = strip_from ts in record rest { tokens = t ∷ rest.tokens }

-- The arrays of `exec_cmd`, and its call of `strip_redirections` for a builtin; `none` is a write behind
-- an array, after which C defines nothing.
abbrev pub max_files : ℕ
max_files = 16

unfoldable pub builtin_redirections : List Token → Option Stripped
unfolding strip_redirections
builtin_redirections ts =
    let s = strip_redirections ts in
    if leb (length s.in_files) max_files && leb (length s.out_files) max_files then some s else none

-- `build_cmdline`: the values with blanks between them, cut before the token that does not fit.
unfoldable pub build_from : (size : ℕ) → (out : List ℕ) → List Token → List ℕ
build_from size out [] = out
build_from size out (t ∷ ts) =
    let need_space = ltb 0 (length out) in
    let longer = if need_space then out ++ 32 ∷ t.value else t.value in
    let rest = build_from size longer ts in if ltb (length longer + 1) size then rest else out

unfoldable pub build_cmdline : (size : ℕ) → List Token → List ℕ
unfolding build_from
build_cmdline size ts = build_from size [] ts
