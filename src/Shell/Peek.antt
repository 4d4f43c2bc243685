-- ===== src/Shell/Peek.antt =====
-- c-shell/src/peek.c: a file printed forwards, and backwards in two ways.
pub mod Scan
pub mod Lines
pub mod Reverse
pub mod Run
mod Tests
use mathlib.Core.List.{reverse}
use unix_c_shell.Common.{
  ℕ, zero, suc, ◌+◌, ◌-◌, Bool, true, false, not, ◌||◌, ◌&&◌, List, [], ◌∷◌, ◌++◌, map, ltb, leb,
  ◌==◌, if◌then◌else◌, length, get_or, take, drop, min,
}

-- What is printed: a byte of a line, or a line number and a space.
pub data Out : Type 0 where
  byte : ℕ → Out
  num : ℕ → Out

abbrev pub newline : ℕ
newline = 10

abbrev pub chunk_size : ℕ
chunk_size = 4096

-- `line[0] != '\n' && line[0] != '\r'`
abbrev pub is_non_empty : List ℕ → Bool
is_non_empty [] = true
is_non_empty (c ∷ _) = not (c == newline) && not (c == 13)

-- `line[len - 1] != '\n'`
abbrev pub is_open : List ℕ → Bool
is_open [] = true
is_open (c ∷ []) = not (c == newline)
is_open (_ ∷ d ∷ line) = is_open (d ∷ line)

join : ℕ → List (List ℕ) → List (List ℕ)
join c [] = (c ∷ []) ∷ []
join c (line ∷ rest) = (c ∷ line) ∷ rest

-- The lines that `getline` reads, each with its newline. The files have no NUL byte.
unfoldable pub read_lines : List ℕ → List (List ℕ)
unfolding join
read_lines [] = []
read_lines (c ∷ file) =
    let rest = read_lines file in if c == newline then (c ∷ []) ∷ rest else join c rest

abbrev pub is_numbered : Bool → List ℕ → Bool
is_numbered flag_n line = flag_n && is_non_empty line

-- The number, if the line has one, the line, and a newline if it ends with none.
abbrev pub show_line : Bool → ℕ → List ℕ → List Out
show_line flag_n n line =
    (if is_numbered flag_n line then num n ∷ [] else [])
    ++ (map byte line ++ (if is_open line then byte newline ∷ [] else []))

unfoldable pub count_non_empty : List (List ℕ) → ℕ
count_non_empty [] = 0
count_non_empty (line ∷ lines) = (if is_non_empty line then 1 else 0) + count_non_empty lines

-- The output and the next line number.
unfoldable pub print_lines : Bool → List (List ℕ) → ℕ → List Out × ℕ
print_lines flag_n [] n = ([], n)
print_lines flag_n (line ∷ lines) n =
    let (out, n') = print_lines flag_n lines (if is_numbered flag_n line then n + 1 else n) in
    (show_line flag_n n line ++ out, n')

unfoldable pub print_forward : Bool → List ℕ → ℕ → List Out × ℕ
unfolding print_lines read_lines
print_forward flag_n file line_num = print_lines flag_n (read_lines file) line_num

-- The loop of `print_reverse_buffered` over the lines that are left, the last one first.
unfoldable pub print_back : Bool → ℕ → List (List ℕ) → ℕ → List Out
print_back flag_n offset [] total_lines = []
print_back flag_n offset (line ∷ lines) total_lines =
    show_line flag_n (offset + total_lines) line
    ++ print_back flag_n offset lines
        (if is_numbered flag_n line then total_lines - 1 else total_lines)

-- The output and the number of numbered lines.
unfoldable pub print_reverse_buffered : Bool → ℕ → List ℕ → List Out × ℕ
unfolding print_back count_non_empty read_lines
print_reverse_buffered flag_n offset file =
    let lines = read_lines file in
    let total = count_non_empty lines in (print_back flag_n offset (reverse lines) total, total)

-- `line_end`, `*line_num` and what is printed so far
pub record Rev : Type 0 where
  pub line_end : ℕ
  pub line_num : ℕ
  pub out : List Out

module _ (flag_n : Bool) (file : List ℕ) where
  -- The line from `line_start` to `line_end`.
  unfoldable pub emit : ℕ → Rev → Rev
  emit line_start r =
      let line = take (r.line_end - line_start) (drop line_start file) in
      if ltb line_start r.line_end
      then record {
        line_end = line_start;
        line_num = if is_numbered flag_n line then r.line_num - 1 else r.line_num;
        out = r.out ++ show_line flag_n r.line_num line;
      }
      else record r { line_end = line_start; out = r.out ++ byte newline ∷ [] }

  -- The body of the inner loop at the byte in place `n` of the file.
  abbrev pub scan_byte : ℕ → Rev → Rev
  scan_byte n r = if get_or file n 0 == newline then emit (n + 1) r else r

  -- The inner loop, from `buf[i - 1]` down.
  unfoldable pub scan_chunk : (i pos : ℕ) → Rev → Rev
  scan_chunk zero pos r = r
  scan_chunk (suc i) pos r = scan_chunk i pos (scan_byte (pos + i) r)

  unfoldable pub read_chunks : (fuel pos : ℕ) → Rev → Rev
  unfolding scan_chunk
  read_chunks zero pos r = r
  read_chunks (suc fuel) pos r =
      let read_size = if ltb pos chunk_size then pos else chunk_size in
      let pos' = pos - read_size in
      let rest = read_chunks fuel pos' (scan_chunk read_size pos' r) in
      if ltb 0 pos then rest else r

-- The size without a newline at the end of the file.
abbrev pub body_size : List ℕ → ℕ
body_size file = if is_open file then length file else length file - 1

-- Each round of the outer loop reads at least a byte, so the size of the file is enough fuel.
unfoldable pub print_reverse_chunked : Bool → List ℕ → ℕ → List Out × ℕ
unfolding read_chunks emit
print_reverse_chunked flag_n file line_num =
    let filesize = body_size file in
    let start : Rev = record { line_end = filesize; line_num = line_num; out = [] } in
    let r = read_chunks flag_n file filesize filesize start in
    let last = emit flag_n file 0 r in
    if filesize == 0
    then ([], line_num)
    else if ltb 0 r.line_end
    then (last.out, last.line_num)
    else (r.out, r.line_num)
