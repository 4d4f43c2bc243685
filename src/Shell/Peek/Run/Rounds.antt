-- ===== src/Shell/Peek/Run/Rounds.antt =====
-- What a round of the loop over the files prints.
use mathlib.Core.List.{reverse, append-nil}
use unix_c_shell.Common.{ℕ, ◌+◌, ◌≡◌, ◌≢◌, refl, sym, ◌∙◌, ap, true, false, List, [], ◌∷◌, ◌++◌}
use unix_c_shell.Shell.Peek.{
  Out, newline, read_lines, count_non_empty, print_forward, print_reverse_buffered,
}
use unix_c_shell.Shell.Peek.Reverse.{chunked-buffered}
use unix_c_shell.Shell.Peek.Run.{
  Source, missing, directory, unreadable, contents, Printed, peek_both, stdin_both, peek_one,
  stdin_one, Error, no_such_file, is_a_directory, cannot_open, fails, prints,
}
use unix_c_shell.Shell.Peek.Run.Order.{
  numbered, flat, zero_add, print_lines-numbered, print_back-numbered,
}

-- The bytes that are read under a name.
abbrev pub text_of : Source → List ℕ
text_of (contents file) = file
text_of _ = []

abbrev pub errors_of : Source → List Error
errors_of missing = no_such_file ∷ []
errors_of directory = is_a_directory ∷ []
errors_of unreadable = cannot_open ∷ []
errors_of (contents _) = []

-- What a round of a loop over the files does: the lines of `text` are printed, numbered as they are
-- forwards from `line_num + k` on, in the order of `turn`.
pub record Advances (turn : List (List Out) → List (List Out)) (k : ℕ) (text rest : List ℕ)
    (errors : List Error) (p p' : Printed) : Type 0 where
  pub out_eq : p'.out ≡ p.out ++ flat (turn (numbered (read_lines text) (p.line_num + k)))
  pub errors_eq : p'.errors ≡ p.errors ++ errors
  pub stdin_eq : p'.stdin ≡ rest
  pub line_num_eq : p'.line_num ≡ p.line_num + count_non_empty (read_lines text)

buffered_numbered :
    (offset : ℕ) (text : List ℕ)
    → (print_reverse_buffered true offset text).0
      ≡ flat (reverse (numbered (read_lines text) (offset + 1)))
unfolding print_reverse_buffered
buffered_numbered offset text = print_back-numbered (read_lines text) offset

-- Nothing is read.
stays :
    (turn : List (List Out) → List (List Out)) (k : ℕ) (e : Error) (p : Printed)
    → turn [] ≡ []
    → Advances turn k [] p.stdin (e ∷ []) p (fails e p)
unfolding flat
stays turn k e p t = record {
  out_eq =
      sym (append-nil p.out)
      ∙ ap (λ (l : List (List Out)). p.out ++ flat l) (sym t)
      ∙ unfold numbered read_lines flat in refl;
  errors_eq = refl;
  stdin_eq = refl;
  line_num_eq = unfold count_non_empty read_lines in zero_add p.line_num;
}

pub peek_both-Advances :
    (s : Source) (p : Printed)
    → s ≢ contents (newline ∷ [])
    → Advances reverse 1 (text_of s) p.stdin (errors_of s) p (peek_both s p)
unfolding peek_both
peek_both-Advances missing p h = stays reverse 1 no_such_file p refl
peek_both-Advances directory p h = stays reverse 1 is_a_directory p refl
peek_both-Advances unreadable p h = stays reverse 1 cannot_open p refl
peek_both-Advances (contents file) p h = record {
  out_eq =
      ap (λ (l : List Out). p.out ++ l)
        (chunked-buffered true file p.line_num (λ e. h (ap contents e))
          ∙ buffered_numbered p.line_num file);
  errors_eq = sym (append-nil p.errors);
  stdin_eq = refl;
  line_num_eq = refl;
}

pub stdin_both-Advances : (p : Printed) → Advances reverse 1 p.stdin [] [] p (stdin_both p)
unfolding stdin_both print_reverse_buffered
stdin_both-Advances p = record {
  out_eq = ap (λ (l : List Out). p.out ++ l) (buffered_numbered p.line_num p.stdin);
  errors_eq = sym (append-nil p.errors);
  stdin_eq = refl;
  line_num_eq = refl;
}

forward-Advances :
    (text rest : List ℕ) (p : Printed)
    → Advances
        (λ b. b)
        0
        text
        rest
        []
        p
        (record (prints
          (print_forward true text p.line_num).0
          (print_forward true text p.line_num).1
          p) { stdin = rest })
unfolding print_forward
forward-Advances text rest p =
    let e = print_lines-numbered (read_lines text) p.line_num in
    record {
      out_eq =
          ap (λ (r : List Out × ℕ). p.out ++ r.0) e
          ∙ ap (λ (n : ℕ). p.out ++ flat (numbered (read_lines text) n)) (zero_add p.line_num);
      errors_eq = sym (append-nil p.errors);
      stdin_eq = refl;
      line_num_eq = ap (λ (r : List Out × ℕ). r.1) e;
    }

pub peek_one-Advances :
    (s : Source) (p : Printed)
    → Advances (λ b. b) 0 (text_of s) p.stdin (errors_of s) p (peek_one false true s p)
unfolding peek_one
peek_one-Advances missing p = stays (λ b. b) 0 no_such_file p refl
peek_one-Advances directory p = stays (λ b. b) 0 is_a_directory p refl
peek_one-Advances unreadable p = stays (λ b. b) 0 cannot_open p refl
peek_one-Advances (contents file) p = forward-Advances file p.stdin p

pub stdin_one-Advances :
    (p : Printed) → Advances (λ b. b) 0 p.stdin [] [] p (stdin_one false true p)
unfolding stdin_one
stdin_one-Advances p = forward-Advances p.stdin [] p
