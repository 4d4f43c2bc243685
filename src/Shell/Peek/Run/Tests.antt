-- ===== src/Shell/Peek/Run/Tests.antt =====
-- Two files and a name that is not there.
use mathlib.Core.List.{reverse}
use unix_c_shell.Common.{ℕ, ◌≡◌, refl, true, false, List, [], ◌∷◌, ◌==◌, if◌then◌else◌, map}
use unix_c_shell.Shell.Peek.{byte, num, newline, print_reverse_chunked, count_non_empty, read_lines}
use unix_c_shell.Shell.Peek.Run.{
  Source, missing, contents, invalid_syntax, no_such_file, run_peek, peek_files,
}
use unix_c_shell.Shell.Peek.Run.Order.{flat_all}
use unix_c_shell.Shell.Peek.Run.Numbers.{blocks, all_complaints, peek_files_lem}

abbrev file_f : List ℕ
file_f = b'a' ∷ newline ∷ newline ∷ b'b' ∷ newline ∷ []

abbrev two_files : List ℕ → Source
two_files [] = missing
two_files (c ∷ _) =
    if c == b'f' then contents file_f else if c == b'g' then contents (b'c' ∷ []) else missing

abbrev names : List (List ℕ)
names = (b'f' ∷ []) ∷ (b'x' ∷ []) ∷ (b'g' ∷ []) ∷ []

-- The second file goes on with the number behind the first one's, in both directions.
backward_test : run_peek two_files ((b'-' ∷ b'r' ∷ b'n' ∷ []) ∷ names) [] ≡ record {
  out =
      num 2
      ∷ byte b'b'
      ∷ byte newline
      ∷ byte newline
      ∷ num 1
      ∷ byte b'a'
      ∷ byte newline
      ∷ num 3
      ∷ byte b'c'
      ∷ byte newline
      ∷ [];
  errors = no_such_file ∷ [];
  stdin = [];
  line_num = 3;
}
unfolding run_peek print_reverse_chunked count_non_empty read_lines
backward_test = refl

bad_flag_test : (run_peek two_files ((b'-' ∷ b'x' ∷ []) ∷ names) []).errors ≡ invalid_syntax ∷ []
unfolding run_peek
bad_flag_test = refl

peek_files_lem_example :
    let forward =
      peek_files two_files (record { flag_n = true; flag_r = false; files = names }) [] in
    let backward =
      peek_files two_files (record { flag_n = true; flag_r = true; files = names }) [] in
    let lines = blocks two_files names [] 1 in
    (forward.out ≡ flat_all lines)
    × (backward.out ≡ flat_all (map reverse lines))
    × (forward.errors ≡ all_complaints two_files names)
    × (backward.errors ≡ all_complaints two_files names)
peek_files_lem_example = peek_files_lem two_files names [] (λ e. cc, (λ e. cc, (λ e. cc, tt)))
