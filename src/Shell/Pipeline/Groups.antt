-- ===== src/Shell/Pipeline/Groups.antt =====
-- The groups of a token list that the parser accepts.
use unix_c_shell.Common.{
  ℕ, ◌+◌, ◌<◌, ◌≡◌, ◌≢◌, ltb, refl, Bool, true, false, not, Option, none, some, List, [], ◌∷◌, ◌++◌,
  map, arith, All, length, get_elem?, if◌then◌else◌, Bool-cases, ◌⊎◌, inl, inr,
}
use unix_c_shell.Shell.Lexer.{TokenType, Token}
use unix_c_shell.Shell.Parser.{valid_syntax, valid_from, follows, is_word, is_separator}
use unix_c_shell.Shell.Pipeline.{kind, groups, build_cmdline, build_from}

abbrev types : List Token → List TokenType
types ts = map (λ (t : Token). t.type) ts

valid_tail :
    (t : TokenType) (ts : List TokenType)
    → valid_from false (t ∷ ts) ≡ true
    → (valid_from false ts ≡ true) × (follows t (get_elem? ts 0) ≡ true)
unfolding valid_from
valid_tail t ts h = elim (Bool-cases (follows t (get_elem? ts 0))) [
  | inl e ↦ let q : valid_from false ts ≡ true = rw (e, if◌then◌else◌) at h in (q, e)
  | inr e ↦ let q : false ≡ true = rw (e, if◌then◌else◌) at h in cc
]

abbrev NonEmpty : List Token × Bool → Type 0
NonEmpty g = g.0 ≢ []

-- A separator that starts the rest of the list comes after a group with a token in it.
abbrev Open : List Token → List Token → Type 0
Open group ts = (group ≢ []) ⊎ (follows TokenType.op_amp (get_elem? (types ts) 0) ≡ true)

longer : (group : List Token) (t : Token) → group ++ t ∷ [] ≢ []
longer [] t e = cc
longer (g ∷ gs) t e = cc

closed :
    (type : TokenType) (group ts : List Token) (t : Token)
    → is_separator type ≡ true
    → t.type ≡ type
    → Open group (t ∷ ts)
    → group ≢ []
unfolding follows
closed type group ts t s e (inl ne) = ne
closed type group ts t s e (inr o) =
    let q : not (is_separator type) ≡ true = rw e at o in absurd (ground arith)

semi_open :
    (n : Option TokenType) → follows TokenType.op_semi n ≡ true → follows TokenType.op_amp n ≡ true
unfolding follows
semi_open none h = cc
semi_open (some t) h = h

-- One token: a separator ends the group, anything else extends it.
groups_step :
    (group : List Token) (t : Token) (ts : List Token) (type : TokenType)
    → t.type ≡ type
    → Open group (t ∷ ts)
    → follows t.type (get_elem? (types ts) 0) ≡ true
    → ((g : List Token) → Open g ts → All NonEmpty (groups g ts))
    → All NonEmpty (groups group (t ∷ ts))
unfolding groups kind is_separator
groups_step group t ts TokenType.op_semi e h f k =
    rw (e, groups)
      (closed TokenType.op_semi group ts t refl e h, k [] (inr (semi_open _ (rw e at f))))
groups_step group t ts TokenType.op_amp e h f k =
    rw (e, groups) (closed TokenType.op_amp group ts t refl e h, k [] (inr (rw e at f)))
groups_step group t ts TokenType.op_pipe e h f k = rw (e, groups) (k _ (inl (longer group t)))
groups_step group t ts TokenType.op_lt e h f k = rw (e, groups) (k _ (inl (longer group t)))
groups_step group t ts TokenType.op_gt e h f k = rw (e, groups) (k _ (inl (longer group t)))
groups_step group t ts TokenType.op_gtgt e h f k = rw (e, groups) (k _ (inl (longer group t)))
groups_step group t ts TokenType.word e h f k = rw (e, groups) (k _ (inl (longer group t)))

groups-nonempty :
    (ts group : List Token)
    → valid_from false (types ts) ≡ true
    → Open group ts
    → All NonEmpty (groups group ts)
unfolding groups
groups-nonempty [] [] v h = tt
groups-nonempty [] (g ∷ gs) v h = ((λ e. cc), tt)
groups-nonempty (t ∷ ts) group v h =
    let r = valid_tail t.type (types ts) v in
    groups_step group t ts t.type refl h r.1 (λ g o. groups-nonempty ts g r.0 o)

word_first :
    (type : TokenType) (xs : List TokenType)
    → valid_from true (type ∷ xs) ≡ true
    → (valid_from false (type ∷ xs) ≡ true) × (follows TokenType.op_amp (some type) ≡ true)
unfolding valid_from is_word follows is_separator
word_first TokenType.word xs h = (h, refl)
word_first TokenType.op_pipe xs h = cc
word_first TokenType.op_amp xs h = cc
word_first TokenType.op_semi xs h = cc
word_first TokenType.op_lt xs h = cc
word_first TokenType.op_gt xs h = cc
word_first TokenType.op_gtgt xs h = cc

-- Of a token list that the parser accepts, `execute_pipeline` starts no empty group: two separators
-- never meet, and none stands first.
pub valid_syntax-groups :
    (ts : List Token)
    → valid_syntax ts ≡ true
    → All (λ (g : List Token × Bool). g.0 ≢ []) (groups [] ts)
unfolding valid_syntax groups
valid_syntax-groups [] h = tt
valid_syntax-groups (t ∷ ts) h =
    let q = word_first t.type (types ts) h in groups-nonempty (t ∷ ts) [] q.0 (inr q.1)

-- `build_cmdline` leaves room for the NUL.
build_from-length :
    (size : ℕ) (out : List ℕ) (ts : List Token)
    → length out < size
    → length (build_from size out ts) < size
unfolding build_from
build_from-length size out [] h = h
build_from-length size out (t ∷ ts) h = elim (Bool-cases (ltb (length next + 1) size)) [
  | inl e ↦ rw (e, if◌then◌else◌) (build_from-length size next ts (ground arith))
  | inr e ↦ rw (e, if◌then◌else◌) h
]
  where
    next : List ℕ
    next = if ltb 0 (length out) then out ++ 32 ∷ t.value else t.value

-- The command line of a job always fits in its buffer with the NUL.
pub build_cmdline-length :
    (size : ℕ) (ts : List Token) → 0 < size → length (build_cmdline size ts) < size
unfolding build_cmdline
build_cmdline-length size ts h = build_from-length size [] ts h
