-- ===== src/Shell/Peek/Run/Numbers.antt =====
-- With `-rn` each line has the number that it has with `-n`.
use mathlib.Core.List.{reverse, append-nil, append_assoc}
use unix_c_shell.Common.{
  ℕ, ◌+◌, ◌≡◌, ◌≢◌, sym, ◌∙◌, ap, true, false, List, [], ◌∷◌, ◌++◌, map, if◌then◌else◌, arith,
  Bool-cases, inl, inr, All,
}
use unix_c_shell.Shell.Peek.{Out, newline, read_lines, count_non_empty}
use unix_c_shell.Shell.Peek.Run.{
  Source, contents, Printed, is_stdin, peek_both, stdin_both, peek_one, stdin_one, loop_both,
  loop_one, peek_files, named_files, Error,
}
use unix_c_shell.Shell.Peek.Run.Order.{numbered, flat, flat_all, map-id}
use unix_c_shell.Shell.Peek.Run.Rounds.{
  text_of, errors_of, Advances, peek_both-Advances, stdin_both-Advances, peek_one-Advances,
  stdin_one-Advances,
}

module _ (source : List ℕ → Source) where
  -- The text under a name, and what is left of the standard input.
  abbrev pub input : List ℕ → List ℕ → List ℕ
  input name stdin = if is_stdin name then stdin else text_of (source name)

  abbrev pub left : List ℕ → List ℕ → List ℕ
  left name stdin = if is_stdin name then [] else stdin

  abbrev pub complaints : List ℕ → List Error
  complaints name = if is_stdin name then [] else errors_of (source name)

  -- For each file its lines as they are printed, numbered from `n` on through all the files.
  unfoldable pub blocks : List (List ℕ) → (stdin : List ℕ) (n : ℕ) → List (List (List Out))
  blocks [] stdin n = []
  blocks (name ∷ names) stdin n =
      let lines = read_lines (input name stdin) in
      numbered lines n ∷ blocks names (left name stdin) (n + count_non_empty lines)

  unfoldable pub all_complaints : List (List ℕ) → List Error
  all_complaints [] = []
  all_complaints (name ∷ names) = complaints name ++ all_complaints names

  -- A file that is not a single newline.
  abbrev pub IsPlain : List ℕ → Type 0
  IsPlain name = source name ≢ contents (newline ∷ [])

  round_both :
      (name : List ℕ) (p : Printed)
      → IsPlain name
      → Advances reverse 1
          (input name p.stdin)
          (left name p.stdin)
          (complaints name)
          p
          (if is_stdin name then stdin_both p else peek_both (source name) p)
  round_both name p h = elim (Bool-cases (is_stdin name)) [
    | inl e ↦ rw e (stdin_both-Advances p)
    | inr e ↦ rw e (peek_both-Advances (source name) p h)
  ]

  round_one :
      (name : List ℕ) (p : Printed)
      → Advances
          (λ b. b)
          0
          (input name p.stdin)
          (left name p.stdin)
          (complaints name)
          p
          (if is_stdin name then stdin_one false true p else peek_one false true (source name) p)
  round_one name p = elim (Bool-cases (is_stdin name)) [
    | inl e ↦ rw e (stdin_one-Advances p)
    | inr e ↦ rw e (peek_one-Advances (source name) p)
  ]

  -- What a loop prints from `p` on.
  abbrev Prints :
      (List (List Out) → List (List Out)) → ℕ → List (List ℕ) → Printed → Printed → Type 0
  Prints turn k names p r =
      (r.out ≡ p.out ++ flat_all (map turn (blocks names p.stdin (p.line_num + k))))
      × (r.errors ≡ p.errors ++ all_complaints names)

  Prints-cons :
      (turn : List (List Out) → List (List Out)) (k : ℕ) (name : List ℕ) (names : List (List ℕ))
      (p p' r : Printed)
      → Advances turn k (input name p.stdin) (left name p.stdin) (complaints name) p p'
      → Prints turn k names p' r
      → Prints turn k (name ∷ names) p r
  unfolding blocks flat_all all_complaints
  Prints-cons turn k name names p p' r a h =
      let lines = read_lines (input name p.stdin) in
      let n = p.line_num + k in
      let next : p'.line_num + k ≡ n + count_non_empty lines = rw a.line_num_eq (omega arith) in
      (
        h.0
            ∙ ap (λ (l : List ℕ). p'.out ++ flat_all (map turn (blocks names l (p'.line_num + k))))
                a.stdin_eq
            ∙ ap (λ (m : ℕ). p'.out ++ flat_all (map turn (blocks names (left name p.stdin) m)))
                next
            ∙ ap
                (λ (l : List Out).
                  l
                  ++ flat_all
                      (map turn (blocks names (left name p.stdin) (n + count_non_empty lines))))
                a.out_eq
            ∙ append_assoc p.out (flat (turn (numbered lines n))) _,
        h.1
            ∙ ap (λ (l : List Error). l ++ all_complaints names) a.errors_eq
            ∙ append_assoc p.errors (complaints name) _,
      )

  loop_both-Prints :
      (names : List (List ℕ)) (p : Printed)
      → All IsPlain names
      → Prints reverse 1 names p (loop_both source names p)
  unfolding loop_both blocks flat_all all_complaints
  loop_both-Prints [] p h = (sym (append-nil p.out), sym (append-nil p.errors))
  loop_both-Prints (name ∷ names) p h =
      let next = if is_stdin name then stdin_both p else peek_both (source name) p in
      Prints-cons reverse 1 name names p next (loop_both source names next) (round_both name p h.0)
        (loop_both-Prints names next h.1)

  loop_one-Prints :
      (names : List (List ℕ)) (p : Printed)
      → Prints (λ b. b) 0 names p (loop_one source false true names p)
  unfolding loop_one blocks flat_all all_complaints
  loop_one-Prints [] p = (sym (append-nil p.out), sym (append-nil p.errors))
  loop_one-Prints (name ∷ names) p =
      let next =
        if is_stdin name then stdin_one false true p else peek_one false true (source name) p in
      Prints-cons (λ b. b) 0 name names p next (loop_one source false true names next)
        (round_one name p) (loop_one-Prints names next)

-- Where no file that is named is a single newline, `peek -n` prints the lines of the files one after
-- another, those that are not empty numbered from 1 on through all the files, and `peek -rn` prints each file's
-- lines in reverse, with the same numbers. The standard input is read once, where it is first
-- named, and both make the same complaints about names that cannot be read.
pub peek_files_lem :
    (source : List ℕ → Source) (files : List (List ℕ)) (stdin : List ℕ)
    → All (IsPlain source) (named_files files)
    → let forward =
        peek_files source (record { flag_n = true; flag_r = false; files = files }) stdin in
      let backward =
        peek_files source (record { flag_n = true; flag_r = true; files = files }) stdin in
      let lines = blocks source (named_files files) stdin 1 in
      (forward.out ≡ flat_all lines)
      × (backward.out ≡ flat_all (map reverse lines))
      × (forward.errors ≡ all_complaints source (named_files files))
      × (backward.errors ≡ all_complaints source (named_files files))
unfolding peek_files
peek_files_lem source files stdin h =
    let names = named_files files in
    let f =
      loop_one-Prints source names
        (record { out = []; errors = []; stdin = stdin; line_num = 1 }) in
    let b =
      loop_both-Prints source names (record { out = []; errors = []; stdin = stdin; line_num = 0 })
        h in
    (f.0 ∙ ap flat_all (map-id (blocks source names stdin 1)), b.0, f.1, b.1)
