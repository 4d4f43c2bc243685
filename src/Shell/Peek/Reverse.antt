-- ===== src/Shell/Peek/Reverse.antt =====
-- The two ways to print a file backwards print the same.
use mathlib.Core.Path.{subst}
use mathlib.Core.List.{reverse, append-nil, map-append, reverse-append, reverse-reverse}
use unix_c_shell.Common.{
  ℕ, suc, ◌+◌, ◌-◌, ◌<◌, ◌≤◌, ◌≡◌, ◌≢◌, refl, sym, ◌∙◌, ap, Bool, true, false, not, List, [], ◌∷◌,
  ◌++◌, map, ltb, ◌==◌, if◌then◌else◌, length, arith, length-append, Bool-cases, inl, inr, All,
}
use unix_c_shell.Shell.Peek.{
  Out, byte, num, newline, is_open, is_non_empty, is_numbered, show_line, body_size, Rev, emit,
  read_lines, count_non_empty, print_back, print_reverse_buffered, print_reverse_chunked,
  read_chunks,
}
use unix_c_shell.Shell.Peek.Scan.{
  back_lines, back_lines-longer, show_back, is_nil, finish, scan-show, read_chunks-scan,
  reverse-cons_append, length-reverse,
}
use unix_c_shell.Shell.Peek.Lines.{IsLine, reverse-read_lines, count_non_empty-reverse}

-- No line of them is empty.
back_lines-All : (ys p : List ℕ) → is_nil p ≡ false → All (λ l. is_nil l ≡ false) (back_lines ys p)
unfolding back_lines
back_lines-All [] p h = (h, tt)
back_lines-All (c ∷ ys) p h = elim (Bool-cases (c == newline)) [
  | inl e ↦ rw e (h, back_lines-All ys (c ∷ []) refl)
  | inr e ↦ rw e (back_lines-All ys (c ∷ p) refl)
]

-- The numbers count down from the number of numbered lines.
show_back-print_back :
    (flag_n : Bool) (offset : ℕ) (lines : List (List ℕ)) (n : ℕ)
    → All (λ l. is_nil l ≡ false) lines
    → count_non_empty lines ≤ n
    → show_back flag_n lines (offset + n) ≡ print_back flag_n offset lines n
unfolding show_back print_back count_non_empty
show_back-print_back flag_n offset [] n h le = refl
show_back-print_back flag_n offset (line ∷ lines) n h le =
    elim (Bool-cases (is_numbered flag_n line)) [
      | inl e ↦
          (let one : is_non_empty line ≡ true = ground arith in
            let le' : count_non_empty lines ≤ n - 1 = ground arith in
            let down : offset + n - 1 ≡ offset + (n - 1) = ground arith in
            rw (h.0, e, down, show_back-print_back flag_n offset lines (n - 1) h.1 le') refl)
      | inr e ↦
          (let le' : count_non_empty lines ≤ n = omega arith in
            rw (h.0, e, show_back-print_back flag_n offset lines n h.1 le') refl)
    ]

is_open-closed : (c : ℕ) (p : List ℕ) → is_open (c ∷ (p ++ newline ∷ [])) ≡ false
is_open-closed c [] = refl
is_open-closed c (d ∷ p) = is_open-closed d p

is_open-snoc : (xs : List ℕ) (c : ℕ) → is_open (xs ++ (c ∷ [])) ≡ not (c == newline)
is_open-snoc [] c = refl
is_open-snoc (x ∷ []) c = refl
is_open-snoc (x ∷ y ∷ xs) c = is_open-snoc (y ∷ xs) c

-- A newline at the end of an open line is printed anyway.
show_line-newline :
    (flag_n : Bool) (n c : ℕ) (p : List ℕ)
    → is_open (c ∷ p) ≡ true
    → show_line flag_n n (c ∷ p ++ newline ∷ []) ≡ show_line flag_n n (c ∷ p)
show_line-newline flag_n n c p h =
    let bytes : map byte (c ∷ (p ++ newline ∷ [])) ≡ map byte (c ∷ p) ++ byte newline ∷ [] =
      map-append byte (c ∷ p) (newline ∷ []) in
    let number : List Out = if is_numbered flag_n (c ∷ p) then num n ∷ [] else [] in
    rw (is_open-closed c p, h)
      (ap (λ (o : List Out). number ++ o) (append-nil (map byte (c ∷ (p ++ newline ∷ []))) ∙ bytes))

show_back-newline :
    (flag_n : Bool) (ys : List ℕ) (c : ℕ) (p : List ℕ) (n : ℕ)
    → is_open (c ∷ p) ≡ true
    → show_back flag_n (back_lines ys (c ∷ p ++ newline ∷ [])) n
      ≡ show_back flag_n (back_lines ys (c ∷ p)) n
unfolding show_back back_lines
show_back-newline flag_n [] c p n h = rw (show_line-newline flag_n n c p h) refl
show_back-newline flag_n (d ∷ ys) c p n h = elim (Bool-cases (d == newline)) [
  | inl e ↦ rw (e, show_line-newline flag_n n c p h) refl
  | inr e ↦ rw e (show_back-newline flag_n ys d (c ∷ p) n h)
]

pick :
    (a b : Rev) (test : Bool)
    → (let x : List Out × ℕ = if test then (a.out, a.line_num) else (b.out, b.line_num) in x.0)
      ≡ (if test then a else b).out
pick a b true = refl
pick a b false = refl

finish_out :
    (flag_n : Bool) (file : List ℕ) (r : Rev)
    → (finish flag_n file r).out ≡ (if ltb 0 r.line_end then emit flag_n file 0 r else r).out
unfolding finish
finish_out flag_n file r = refl

-- The whole function prints the lines of the body, if it is not empty.
chunked_lem :
    (flag_n : Bool) (file ys rest : List ℕ) (n : ℕ)
    → file ≡ reverse ys ++ rest
    → body_size file ≡ length ys
    → 0 < length ys
    → (print_reverse_chunked flag_n file n).0 ≡ show_back flag_n (back_lines ys []) n
unfolding print_reverse_chunked
chunked_lem flag_n file ys rest n e size pos =
    let start : Rev = record { line_end = length ys; line_num = n; out = [] } in
    let full : (length ys == 0) ≡ false = ground arith in
    let scan = scan-show flag_n file ys [] rest start e (omega arith) (omega arith) in
    let r = read_chunks flag_n file (length ys) (length ys) start in
    rw (size, full)
      (pick _ _ (ltb 0 r.line_end)
        ∙ sym (finish_out flag_n file r)
        ∙ ap (λ (q : Rev). (finish flag_n file q).out)
            (read_chunks-scan flag_n file (length ys) (length ys) start (omega arith))
        ∙ scan)

buffered_lem :
    (flag_n : Bool) (offset : ℕ) (file ys p : List ℕ)
    → file ≡ reverse ys ++ p
    → IsLine p
    → (print_reverse_buffered flag_n offset file).0
      ≡ show_back flag_n (back_lines ys p) (offset + count_non_empty (read_lines file))
unfolding print_reverse_buffered
buffered_lem flag_n offset file ys p e h =
    let lines : reverse (read_lines file) ≡ back_lines ys p = rw e (reverse-read_lines ys p h) in
    let count : count_non_empty (back_lines ys p) ≡ count_non_empty (read_lines file) =
      sym (ap count_non_empty lines) ∙ count_non_empty-reverse (read_lines file) in
    rw lines (
      sym (
        show_back-print_back flag_n offset (back_lines ys p) _ (back_lines-All ys p (line_nil p h))
          (omega (arith, count))))
  where
    line_nil : (p : List ℕ) → IsLine p → is_nil p ≡ false
    line_nil [] h = absurd h
    line_nil (c ∷ p) h = refl

-- An empty last line prints as a line of its newline.
show_back-empty :
    (flag_n : Bool) (d : ℕ) (ys : List ℕ) (n : ℕ)
    → (d == newline) ≡ true
    → show_back flag_n (back_lines (d ∷ ys) []) n
      ≡ show_back flag_n (back_lines (d ∷ ys) (newline ∷ [])) n
unfolding show_back back_lines
show_back-empty true d ys n h = rw h refl
show_back-empty false d ys n h = rw h refl

size_open :
    (ys : List ℕ) (c : ℕ) (file : List ℕ)
    → file ≡ reverse ys ++ (c ∷ [])
    → (c == newline) ≡ false
    → body_size file ≡ suc (length ys)
size_open ys c file e h =
    rw (e, is_open-snoc (reverse ys) c, h)
      (length-append (reverse ys) (c ∷ []) ∙ omega (arith, length-reverse ys))

size_closed :
    (ys : List ℕ) (c : ℕ) (file : List ℕ)
    → file ≡ reverse ys ++ (c ∷ [])
    → (c == newline) ≡ true
    → body_size file ≡ length ys
size_closed ys c file e h =
    rw (e, is_open-snoc (reverse ys) c, h)
      (omega (arith, length-append (reverse ys) (c ∷ []), length-reverse ys))

-- The claim, for a file and the lines in it.
abbrev SameOutput : Bool → List ℕ → ℕ → Type 0
SameOutput flag_n file offset =
    (print_reverse_chunked flag_n file (offset + count_non_empty (read_lines file))).0
    ≡ (print_reverse_buffered flag_n offset file).0

same_empty : (flag_n : Bool) (offset : ℕ) → SameOutput flag_n [] offset
unfolding print_reverse_chunked print_reverse_buffered
same_empty flag_n offset = refl

same_open :
    (flag_n : Bool) (file : List ℕ) (offset c : ℕ) (ys : List ℕ)
    → file ≡ reverse (c ∷ ys)
    → (c == newline) ≡ false
    → SameOutput flag_n file offset
same_open flag_n file offset c ys e h =
    let n = offset + count_non_empty (read_lines file) in
    let e' : file ≡ reverse ys ++ (c ∷ []) = e ∙ reverse-append (c ∷ []) ys in
    chunked_lem flag_n file (c ∷ ys) [] n (e ∙ sym (append-nil _)) (size_open ys c file e' h)
      (omega arith)
    ∙ ap (λ (ls : List (List ℕ)). show_back flag_n ls n) (back_lines-longer c ys [] h)
    ∙ sym (buffered_lem flag_n offset file ys (c ∷ []) e' tt)

same_closed :
    (flag_n : Bool) (file : List ℕ) (offset d : ℕ) (ys : List ℕ)
    → file ≡ reverse (newline ∷ d ∷ ys)
    → SameOutput flag_n file offset
same_closed flag_n file offset d ys e =
    let n = offset + count_non_empty (read_lines file) in
    let e' : file ≡ reverse (d ∷ ys) ++ (newline ∷ []) =
      e ∙ reverse-append (newline ∷ []) (d ∷ ys) in
    chunked_lem flag_n file (d ∷ ys) (newline ∷ []) n e' (size_closed (d ∷ ys) newline file e' refl)
      (omega arith)
    ∙ elim (Bool-cases (d == newline)) [
      | inl h ↦
          (show_back-empty flag_n d ys n h
            ∙ sym (buffered_lem flag_n offset file (d ∷ ys) (newline ∷ []) e' tt))
      | inr h ↦
          (let e2 = e' ∙ reverse-cons_append d ys (newline ∷ []) in
            let is_open_d : is_open (d ∷ []) ≡ true = rw h refl in
            ap (λ (ls : List (List ℕ)). show_back flag_n ls n) (back_lines-longer d ys [] h)
            ∙ sym (show_back-newline flag_n ys d [] n is_open_d)
            ∙ sym (buffered_lem flag_n offset file ys (d ∷ newline ∷ []) e2 (h, tt)))
    ]

-- The claim by the last byte of the file.
by_end :
    (flag_n : Bool) (file : List ℕ) (offset : ℕ)
    → file ≢ newline ∷ []
    → (zs : List ℕ) → file ≡ reverse zs
    → SameOutput flag_n file offset
by_end flag_n file offset ne [] e =
    subst (λ f. SameOutput flag_n f offset) (sym e) (same_empty flag_n offset)
by_end flag_n file offset ne (c ∷ []) e = elim (Bool-cases (c == newline)) [
  | inl h ↦ absurd (ne (e ∙ ap (λ (x : ℕ). x ∷ []) (ground arith)))
  | inr h ↦ same_open flag_n file offset c [] e h
]
by_end flag_n file offset ne (c ∷ d ∷ ys) e = elim (Bool-cases (c == newline)) [
  | inr h ↦ same_open flag_n file offset c (d ∷ ys) e h
  | inl h ↦
      (let eq : c ≡ newline = ground arith in
        same_closed flag_n file offset d ys (e ∙ ap (λ (x : ℕ). reverse (x ∷ d ∷ ys)) eq))
]

-- `peek -r` prints a file by chunks from its end as `print_reverse_buffered` prints it from memory, with
-- the same numbers, whatever its size and its lines, unless the file is a single newline.
pub chunked-buffered :
    (flag_n : Bool) (file : List ℕ) (offset : ℕ)
    → file ≢ newline ∷ []
    → (print_reverse_chunked flag_n file (offset + count_non_empty (read_lines file))).0
      ≡ (print_reverse_buffered flag_n offset file).0
chunked-buffered flag_n file offset ne =
    by_end flag_n file offset ne (reverse file) (sym (reverse-reverse file))
