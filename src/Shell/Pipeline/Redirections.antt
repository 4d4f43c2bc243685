-- ===== src/Shell/Pipeline/Redirections.antt =====
-- Builtins and external commands take the same redirections.
use unix_c_shell.Common.{
  ℕ, ◌+◌, ◌≤◌, ◌<◌, ◌≡◌, leb, ◌&&◌, refl, ap, ◌∙◌, Bool, true, false, none, some, List, [], ◌∷◌,
  map, arith, All, length, lt→ltb, get_elem?, if◌then◌else◌, Bool-cases, ◌⊎◌, inl, inr,
}
use unix_c_shell.Shell.Lexer.{TokenType, Token}
use unix_c_shell.Shell.Parser.{valid_syntax, valid_from, follows, is_word, is_separator}
use unix_c_shell.Shell.Pipeline.{
  Kind, kind, Stage, Stripped, max_args, stage_from, redirection, strip_from, strip_redirections,
  builtin_redirections, max_files,
}

abbrev types : List Token → List TokenType
types ts = map (λ (t : Token). t.type) ts

-- What an external command gets of the tokens that a builtin keeps.
abbrev pub as_stage : Stripped → Stage
as_stage s = record {
  args = map (λ (t : Token). t.value) s.tokens;
  in_files = s.in_files;
  out_files = s.out_files;
}

abbrev pub NotSeparator : Token → Type 0
NotSeparator t = is_separator t.type ≡ false

-- A token of an accepted stage is a word, or a redirection with a word behind it.
abbrev Form : Kind → Kind → Type 0
Form k n =
    (k ≡ Kind.word) ⊎ ((k ≡ Kind.input) ⊎ ((b : Bool) × (k ≡ Kind.output b))) × (n ≡ Kind.word)

Form-of :
    (t w : TokenType) → is_separator t ≡ false → follows t (some w) ≡ true → Form (kind t) (kind w)
unfolding is_separator follows is_word kind
Form-of TokenType.word w s f = inl refl
Form-of TokenType.op_lt TokenType.word s f = inr (inl refl, refl)
Form-of TokenType.op_gt TokenType.word s f = inr (inr (false, refl), refl)
Form-of TokenType.op_gtgt TokenType.word s f = inr (inr (true, refl), refl)
Form-of _ w s f = cc

last_word : (t : TokenType) → is_separator t ≡ false → follows t none ≡ true → kind t ≡ Kind.word
unfolding is_separator follows kind
last_word TokenType.word s f = refl
last_word _ s f = cc

valid_tail :
    (t : TokenType) (ts : List TokenType)
    → valid_from false (t ∷ ts) ≡ true
    → (valid_from false ts ≡ true) × (follows t (get_elem? ts 0) ≡ true)
unfolding valid_from
valid_tail t ts h = elim (Bool-cases (follows t (get_elem? ts 0))) [
  | inl e ↦ let q : valid_from false ts ≡ true = rw (e, if◌then◌else◌) at h in (q, e)
  | inr e ↦ let q : false ≡ true = rw (e, if◌then◌else◌) at h in cc
]

Kind-cases :
    (k : Kind)
    → (k ≡ Kind.word)
      ⊎ ((j : Kind) → ◌≡◌ {A = Kind} (elim k [ Kind.word ↦ j | _ ↦ Kind.word ]) Kind.word)
Kind-cases Kind.word = inl refl
Kind-cases Kind.input = inr (λ j. refl)
Kind-cases Kind.pipe = inr (λ j. refl)
Kind-cases Kind.semi = inr (λ j. refl)
Kind-cases Kind.amp = inr (λ j. refl)
Kind-cases (Kind.output b) = inr (λ j. refl)

redirection_word : (t w : Token) → kind t.type ≡ Kind.word → redirection t w ≡ Kind.word
unfolding redirection
redirection_word t w e = elim (Kind-cases (kind w.type)) [
  | inl q ↦ rw (q, redirection) e
  | inr q ↦ q (kind t.type)
]

redirection-kind : (t w : Token) → kind w.type ≡ Kind.word → redirection t w ≡ kind t.type
unfolding redirection
redirection-kind t w e = rw (e, redirection)

stage_from-strip :
    (argc : ℕ) (ts : List Token)
    → valid_from false (types ts) ≡ true
    → All NotSeparator ts
    → argc + length ts ≤ max_args
    → stage_from argc ts ≡ as_stage (strip_from ts)
unfolding stage_from strip_from
stage_from-strip argc [] v a h = refl
stage_from-strip argc (t ∷ []) v a h = rw (
  last_word t.type a.0 (valid_tail t.type [] v).1,
  stage_from,
  lt→ltb argc max_args (omega arith),
)
stage_from-strip argc (t ∷ w ∷ ts) v a h =
    let r = valid_tail t.type (types (w ∷ ts)) v in
    let room = lt→ltb argc max_args (omega arith) in
    let skip = valid_tail w.type (types ts) r.0 in
    elim (Form-of t.type w.type a.0 r.1) [
      | inl k ↦
          rw (room, k, stage_from, redirection_word t w k, strip_from)
            (ap (λ (x : Stage). record x { args = t.value ∷ x.args })
              (stage_from-strip (argc + 1) (w ∷ ts) r.0 a.1 (omega arith)))
      | inr (inl k, n) ↦
          rw (room, k, stage_from, redirection-kind t w n ∙ k, strip_from)
            (ap (λ (x : Stage). record x { in_files = w.value ∷ x.in_files })
              (stage_from-strip argc ts skip.0 a.1.1 (omega arith)))
      | inr (inr (b, k), n) ↦
          rw (room, k, stage_from, redirection-kind t w n ∙ k, strip_from)
            (ap (λ (x : Stage). record x { out_files = (w.value, b) ∷ x.out_files })
              (stage_from-strip argc ts skip.0 a.1.1 (omega arith)))
    ]

word_start :
    (type : TokenType) (xs : List TokenType)
    → valid_from true (type ∷ xs) ≡ true
    → (valid_from false (type ∷ xs) ≡ true) × (kind type ≡ Kind.word)
unfolding valid_from is_word kind
word_start TokenType.word xs h = (h, refl)
word_start TokenType.op_pipe xs h = cc
word_start TokenType.op_amp xs h = cc
word_start TokenType.op_semi xs h = cc
word_start TokenType.op_lt xs h = cc
word_start TokenType.op_gt xs h = cc
word_start TokenType.op_gtgt xs h = cc

first_word :
    (t : Token) (ts : List Token)
    → kind t.type ≡ Kind.word
    → strip_from (t ∷ ts) ≡ strip_redirections (t ∷ ts)
unfolding strip_from strip_redirections
first_word t [] e = refl
first_word t (w ∷ ts) e = rw (redirection_word t w e, strip_from)

same_stage :
    (ts : List Token)
    → valid_syntax ts ≡ true
    → All NotSeparator ts
    → length ts ≤ max_args
    → stage_from 0 ts ≡ as_stage (strip_redirections ts)
unfolding valid_syntax strip_redirections stage_from
same_stage [] v a h = refl
same_stage (t ∷ ts) v a h =
    let q = word_start t.type (types ts) v in
    stage_from-strip 0 (t ∷ ts) q.0 a (omega arith) ∙ ap as_stage (first_word t ts q.1)

both_fit : (a b c d m : ℕ) → a ≡ c → b ≡ d → (leb c m && leb d m) ≡ true → (a ≤ m) × (b ≤ m)
both_fit a b c d m e f h = ground arith

one_is_over : (a b c d m : ℕ) → a ≡ c → b ≡ d → (leb c m && leb d m) ≡ false → (m < a) ⊎ (m < b)
one_is_over a b c d m e f h = ground arith

-- A builtin and an external command get the same arguments and redirections from the same tokens: for
-- a command of at most 127 tokens that the parser accepts, without `|`, `;` or `&`, the loop of
-- `launch_group` and `exec_cmd` for a builtin keep the same values, and take out the same files in the same
-- order, where it has at most 16 input and 16 output files; with more, `exec_cmd` writes behind its
-- arrays.
pub strip_redirections_lem :
    (ts : List Token)
    → valid_syntax ts ≡ true
    → All NotSeparator ts
    → length ts ≤ max_args
    → ((length (stage_from 0 ts).in_files ≤ max_files)
        × (length (stage_from 0 ts).out_files ≤ max_files)
        × ((s : Stripped) × (builtin_redirections ts ≡ some s) × (stage_from 0 ts ≡ as_stage s)))
      ⊎ ((max_files < length (stage_from 0 ts).in_files)
          ⊎ (max_files < length (stage_from 0 ts).out_files))
        × (builtin_redirections ts ≡ none)
unfolding builtin_redirections
strip_redirections_lem ts v a h =
    let s = strip_redirections ts in
    let same = same_stage ts v a h in
    let ins = ap (λ (x : Stage). length x.in_files) same in
    let outs = ap (λ (x : Stage). length x.out_files) same in
    elim (Bool-cases (leb (length s.in_files) max_files && leb (length s.out_files) max_files)) [
      | inl e ↦
          let fit = both_fit _ _ _ _ max_files ins outs e in inl (fit.0, fit.1, (s, taken e, same))
      | inr e ↦ inr (one_is_over _ _ _ _ max_files ins outs e, left_out e)
    ]
  where
    taken :
        (leb (length (strip_redirections ts).in_files) max_files
            && leb (length (strip_redirections ts).out_files) max_files)
          ≡ true
        → builtin_redirections ts ≡ some (strip_redirections ts)
    taken e = rw (e, builtin_redirections)

    left_out :
        (leb (length (strip_redirections ts).in_files) max_files
            && leb (length (strip_redirections ts).out_files) max_files)
          ≡ false
        → builtin_redirections ts ≡ none
    left_out e = rw (e, builtin_redirections)
