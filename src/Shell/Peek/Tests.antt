-- ===== src/Shell/Peek/Tests.antt =====
-- `peek` on small files.
use unix_c_shell.Common.{ℕ, ◌+◌, ◌≡◌, refl, true, false, List, [], ◌∷◌}
use unix_c_shell.Shell.Peek.{
  byte, num, newline, print_forward, print_reverse_buffered, print_reverse_chunked, count_non_empty,
  read_lines,
}
use unix_c_shell.Shell.Peek.Reverse.{chunked-buffered}

abbrev two_lines : List ℕ
two_lines = b'a' ∷ newline ∷ newline ∷ b'b' ∷ newline ∷ []

-- An empty line has no number.
chunked_test :
    print_reverse_chunked true two_lines 2
    ≡ (num 2 ∷ byte b'b' ∷ byte newline ∷ byte newline ∷ num 1 ∷ byte b'a' ∷ byte newline ∷ [], 0)
unfolding print_reverse_chunked
chunked_test = refl

buffered_test :
    print_reverse_buffered true 0 two_lines
    ≡ (num 2 ∷ byte b'b' ∷ byte newline ∷ byte newline ∷ num 1 ∷ byte b'a' ∷ byte newline ∷ [], 2)
unfolding print_reverse_buffered
buffered_test = refl

chunked-buffered_example :
    (print_reverse_chunked true two_lines (3 + count_non_empty (read_lines two_lines))).0
    ≡ (print_reverse_buffered true 3 two_lines).0
chunked-buffered_example = chunked-buffered true two_lines 3 (λ e. cc)

-- A file that is a single newline: nothing is printed by chunks, and an empty line otherwise.
single_newline_test : print_reverse_chunked false (newline ∷ []) 1 ≡ ([], 1)
unfolding print_reverse_chunked
single_newline_test = refl

single_newline_forward : print_forward false (newline ∷ []) 1 ≡ (byte newline ∷ [], 1)
unfolding print_forward
single_newline_forward = refl
