-- ===== src/Shell/Peek/Run.antt =====
-- c-shell/src/peek.c: `run_peek`, its flags and its loop over the files. There are at most 100 files.
pub mod Order
pub mod Rounds
pub mod Numbers
mod Tests
use unix_c_shell.Common.{
  ℕ, suc, ◌+◌, ◌<◌, Bool, true, false, ◌&&◌, Option, none, some, List, [], ◌∷◌, ◌++◌, ltb, ◌==◌,
  if◌then◌else◌, length,
}
use unix_c_shell.Shell.Peek.{
  Out, read_lines, count_non_empty, print_forward, print_reverse_buffered, print_reverse_chunked,
}

abbrev pub dash : ℕ
dash = b'-'

-- The flags and the files that the arguments name.
pub record Args : Type 0 where
  pub flag_n : Bool
  pub flag_r : Bool
  pub files : List (List ℕ)

-- The letters of an argument that starts with a dash; `none` is the syntax error.
unfoldable pub parse_flags : List ℕ → Args → Option Args
parse_flags [] a = some a
parse_flags (c ∷ cs) a =
    let with_n = parse_flags cs (record a { flag_n = true }) in
    let with_r = parse_flags cs (record a { flag_r = true }) in
    if c == b'n' then with_n else if c == b'r' then with_r else none

abbrev pub is_flags : List ℕ → Bool
is_flags [] = false
is_flags (c ∷ cs) = c == dash && ltb 0 (length cs)

abbrev pub letters : List ℕ → List ℕ
letters [] = []
letters (_ ∷ cs) = cs

unfoldable pub parse_args : List (List ℕ) → Args → Option Args
unfolding parse_flags
parse_args [] a = some a
parse_args (value ∷ tokens) a =
    let rest = parse_args tokens (record a { files = a.files ++ value ∷ [] }) in
    let flags : Option Args = elim (parse_flags (letters value) a) [
      | none ↦ none
      | some a' ↦ parse_args tokens a'
    ] in
    if is_flags value then flags else rest

-- What `stat` and `open` find under a name.
pub data Source : Type 0 where
  missing directory unreadable : Source
  contents : List ℕ → Source

pub data Error : Type 0 where
  invalid_syntax no_such_file is_a_directory cannot_open : Error

-- The standard output and error, what is left to read of the standard input, and `line_num`, or
-- `offset` where both flags are set.
pub record Printed : Type 0 where
  pub out : List Out
  pub errors : List Error
  pub stdin : List ℕ
  pub line_num : ℕ

abbrev pub is_stdin : List ℕ → Bool
is_stdin (c ∷ []) = c == dash
is_stdin _ = false

abbrev pub fails : Error → Printed → Printed
fails e p = record p { errors = p.errors ++ e ∷ [] }

abbrev pub prints : List Out → ℕ → Printed → Printed
prints out n p = record p { out = p.out ++ out; line_num = n }

-- The body of the loop for `-rn`.
unfoldable pub peek_both : Source → Printed → Printed
peek_both missing p = fails no_such_file p
peek_both directory p = fails is_a_directory p
peek_both unreadable p = fails cannot_open p
peek_both (contents file) p =
    let start = p.line_num + count_non_empty (read_lines file) in
    prints (print_reverse_chunked true file start).0 start p

unfoldable pub stdin_both : Printed → Printed
stdin_both p =
    let (out, count) = print_reverse_buffered true p.line_num p.stdin in
    record (prints out (p.line_num + count) p) { stdin = [] }

-- The body of the loop for the other flags.
unfoldable pub peek_one : (flag_r flag_n : Bool) → Source → Printed → Printed
peek_one flag_r flag_n missing p = fails no_such_file p
peek_one flag_r flag_n directory p = fails is_a_directory p
peek_one flag_r flag_n unreadable p = fails cannot_open p
peek_one true flag_n (contents file) p =
    let (out, n) = print_reverse_chunked flag_n file p.line_num in prints out n p
peek_one false flag_n (contents file) p =
    let (out, n) = print_forward flag_n file p.line_num in prints out n p

unfoldable pub stdin_one : (flag_r flag_n : Bool) → Printed → Printed
stdin_one true flag_n p = record (prints (print_reverse_buffered flag_n 0 p.stdin).0 p.line_num p) {
  stdin = [];
}
stdin_one false flag_n p =
    let (out, n) = print_forward flag_n p.stdin p.line_num in record (prints out n p) { stdin = [] }

-- Without a name the standard input is read.
abbrev pub named_files : List (List ℕ) → List (List ℕ)
named_files files = if length files == 0 then (dash ∷ []) ∷ [] else files

module _ (source : List ℕ → Source) where
  unfoldable pub loop_both : List (List ℕ) → Printed → Printed
  unfolding peek_both stdin_both
  loop_both [] p = p
  loop_both (name ∷ names) p =
      loop_both names (if is_stdin name then stdin_both p else peek_both (source name) p)

  unfoldable pub loop_one : (flag_r flag_n : Bool) → List (List ℕ) → Printed → Printed
  unfolding peek_one stdin_one
  loop_one flag_r flag_n [] p = p
  loop_one flag_r flag_n (name ∷ names) p =
      loop_one flag_r flag_n names (
        if is_stdin name then stdin_one flag_r flag_n p else peek_one flag_r flag_n (source name) p)

  unfoldable pub peek_files : Args → (stdin : List ℕ) → Printed
  unfolding loop_both loop_one
  peek_files a stdin =
      if a.flag_r && a.flag_n
      then loop_both (named_files a.files)
          (record { out = []; errors = []; stdin = stdin; line_num = 0 })
      else loop_one a.flag_r a.flag_n (named_files a.files)
          (record { out = []; errors = []; stdin = stdin; line_num = 1 })

  -- `run_peek` on the tokens behind its name.
  unfoldable pub run_peek : (tokens : List (List ℕ)) (stdin : List ℕ) → Printed
  unfolding parse_args peek_files
  run_peek tokens stdin =
      elim (parse_args tokens (record { flag_n = false; flag_r = false; files = [] })) [
        | none ↦ record { out = []; errors = invalid_syntax ∷ []; stdin = stdin; line_num = 1 }
        | some a ↦ peek_files a stdin
      ]
