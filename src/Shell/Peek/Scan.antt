-- ===== src/Shell/Peek/Scan.antt =====
-- The chunked reader: what it prints, line by line from the end of the file.
use mathlib.Core.List.{reverse, append_assoc, append-nil, reverse-append}
use unix_c_shell.Common.{
  ℕ, zero, suc, ◌+◌, ◌-◌, ◌<◌, ◌≤◌, ◌≡◌, refl, sym, ◌∙◌, ap, Bool, true, false, List, [], ◌∷◌, ◌++◌,
  ltb, ◌==◌, if◌then◌else◌, length, get_or, take, drop, arith, length-append, Bool-cases, inl, inr,
}
use unix_c_shell.Shell.Peek.{
  Out, byte, newline, chunk_size, is_numbered, show_line, Rev, emit, scan_byte, scan_chunk,
  read_chunks,
}

-- The lines before a position, the last one first, where `p` is what is read of the last one.
unfoldable pub back_lines : List ℕ → List ℕ → List (List ℕ)
back_lines [] p = p ∷ []
back_lines (c ∷ ys) p =
    let cut = p ∷ back_lines ys (c ∷ []) in
    let longer = back_lines ys (c ∷ p) in if c == newline then cut else longer

abbrev pub is_nil : List ℕ → Bool
is_nil [] = true
is_nil (_ ∷ _) = false

-- The output for lines from the last one on: an empty last line is a newline.
unfoldable pub show_back : Bool → List (List ℕ) → ℕ → List Out
show_back flag_n [] n = []
show_back flag_n (line ∷ lines) n =
    (if is_nil line then byte newline ∷ [] else show_line flag_n n line)
    ++ show_back flag_n lines
        (if is_nil line then n else if is_numbered flag_n line then n - 1 else n)

module _ {ℓ} {A : Type ℓ} where
  drop-append : (xs ys : List A) → drop (length xs) (xs ++ ys) ≡ ys
  drop-append [] ys = refl
  drop-append (x ∷ xs) ys = drop-append xs ys

  take-append : (xs ys : List A) → take (length xs) (xs ++ ys) ≡ xs
  take-append [] ys = refl
  take-append (x ∷ xs) ys = ap (λ (l : List A). x ∷ l) (take-append xs ys)

  get_or-append : (xs ys : List A) (x d : A) → get_or (xs ++ x ∷ ys) (length xs) d ≡ x
  get_or-append [] ys x d = refl
  get_or-append (y ∷ xs) ys x d = get_or-append xs ys x d

  pub reverse-cons_append :
      (c : A) (ys rest : List A) → reverse (c ∷ ys) ++ rest ≡ reverse ys ++ (c ∷ rest)
  reverse-cons_append c ys rest =
      ap (λ (l : List A). l ++ rest) (reverse-append (c ∷ []) ys)
      ∙ append_assoc (reverse ys) (c ∷ []) rest

  pub length-reverse : (xs : List A) → length (reverse xs) ≡ length xs
  length-reverse [] = refl
  length-reverse (x ∷ xs) =
      ap length (reverse-append (x ∷ []) xs)
      ∙ length-append (reverse xs) (x ∷ [])
      ∙ omega (arith, length-reverse xs)

module _ (flag_n : Bool) (file : List ℕ) where
  scan_chunk-add :
      (k pos : ℕ) (r : Rev)
      → scan_chunk flag_n file (pos + k) 0 r
        ≡ scan_chunk flag_n file pos 0 (scan_chunk flag_n file k pos r)
  unfolding scan_chunk
  scan_chunk-add zero pos r = let e : pos + 0 ≡ pos = omega arith in rw e refl
  scan_chunk-add (suc k) pos r =
      let e : pos + suc k ≡ suc (pos + k) = omega arith in
      let z : 0 + (pos + k) ≡ pos + k = omega arith in
      rw e (
        ap (λ (n : ℕ). scan_chunk flag_n file (pos + k) 0 (scan_byte flag_n file n r)) z
        ∙ scan_chunk-add k pos _)

  -- The chunks together are one scan.
  pub read_chunks-scan :
      (fuel pos : ℕ) (r : Rev)
      → pos ≤ fuel
      → read_chunks flag_n file fuel pos r ≡ scan_chunk flag_n file pos 0 r
  unfolding read_chunks scan_chunk
  read_chunks-scan zero pos r h = let e : pos ≡ 0 = omega arith in rw e refl
  read_chunks-scan (suc fuel) pos r h =
      let size = if ltb pos chunk_size then pos else chunk_size in
      elim (Bool-cases (ltb 0 pos)) [
        | inr e ↦ (let z : pos ≡ 0 = ground arith in rw z refl)
        | inl e ↦
            (let less : pos - size ≤ fuel = ground arith in
              let whole : pos - size + size ≡ pos = ground arith in
              rw e (
                read_chunks-scan fuel (pos - size) _ less
                ∙ sym (scan_chunk-add size (pos - size) r)
                ∙ ap (λ (n : ℕ). scan_chunk flag_n file n 0 r) whole))
      ]

-- The last piece.
unfoldable pub finish : Bool → List ℕ → Rev → Rev
finish flag_n file r = if ltb 0 r.line_end then emit flag_n file 0 r else r

-- The line from a place on.
abbrev emitted : Bool → List ℕ → ℕ → Rev → Rev
emitted flag_n p start r = record {
  line_end = start;
  line_num =
      if is_nil p then r.line_num else if is_numbered flag_n p then r.line_num - 1 else r.line_num;
  out = r.out ++ (if is_nil p then byte newline ∷ [] else show_line flag_n r.line_num p);
}

emit_lem :
    (flag_n : Bool) (file xs p rest : List ℕ) (r : Rev)
    → file ≡ xs ++ (p ++ rest)
    → r.line_end ≡ length xs + length p
    → emit flag_n file (length xs) r ≡ emitted flag_n p (length xs) r
unfolding emit
emit_lem flag_n file xs [] rest r e le =
    let empty : ltb (length xs) r.line_end ≡ false = ground arith in rw empty refl
emit_lem flag_n file xs (c ∷ p) rest r e le =
    let some_left : ltb (length xs) r.line_end ≡ true = ground arith in
    let size : r.line_end - length xs ≡ length (c ∷ p) = omega arith in
    let line : take (r.line_end - length xs) (drop (length xs) file) ≡ c ∷ p =
      rw (size, e)
        (ap (take (length (c ∷ p))) (drop-append xs (c ∷ p ++ rest)) ∙ take-append (c ∷ p) rest) in
    rw (some_left, line) refl

finish_lem :
    (flag_n : Bool) (file : List ℕ) (r : Rev)
    → 0 < r.line_end
    → finish flag_n file r ≡ emit flag_n file 0 r
unfolding finish
finish_lem flag_n file r h = let e : ltb 0 r.line_end ≡ true = ground arith in rw e refl

scan_step :
    (flag_n : Bool) (file : List ℕ) (i c : ℕ) (r r' : Rev)
    → scan_byte flag_n file i r ≡ r'
    → scan_chunk flag_n file (suc i) 0 r ≡ scan_chunk flag_n file i 0 r'
unfolding scan_chunk
scan_step flag_n file i c r r' h =
    let z : 0 + i ≡ i = omega arith in
    ap (λ (n : ℕ). scan_chunk flag_n file i 0 (scan_byte flag_n file n r)) z
    ∙ ap (scan_chunk flag_n file i 0) h

show_back-cons :
    (flag_n : Bool) (c : ℕ) (ys p : List ℕ) (n : ℕ)
    → c ≡ newline
    → show_back flag_n (back_lines (c ∷ ys) p) n
      ≡ (if is_nil p then byte newline ∷ [] else show_line flag_n n p)
        ++ show_back flag_n
            (back_lines ys (c ∷ []))
            (if is_nil p then n else if is_numbered flag_n p then n - 1 else n)
unfolding show_back back_lines
show_back-cons flag_n c ys p n h = let e : (c == newline) ≡ true = ground arith in rw e refl

pub back_lines-longer :
    (c : ℕ) (ys p : List ℕ) → (c == newline) ≡ false → back_lines (c ∷ ys) p ≡ back_lines ys (c ∷ p)
unfolding back_lines
back_lines-longer c ys p h = rw h refl

get_or-reverse :
    (file ys rest : List ℕ) (c : ℕ)
    → file ≡ reverse ys ++ (c ∷ rest)
    → get_or file (length ys) 0 ≡ c
get_or-reverse file ys rest c h = rw h (
    ap (λ (k : ℕ). get_or (reverse ys ++ (c ∷ rest)) k 0) (sym (length-reverse ys))
    ∙ get_or-append (reverse ys) rest c 0)

-- A scan prints the lines before it in the file, where the last one ends with what is read of it.
pub scan-show :
    (flag_n : Bool) (file ys p rest : List ℕ) (r : Rev)
    → file ≡ reverse ys ++ (p ++ rest)
    → r.line_end ≡ length ys + length p
    → 0 < length ys + length p
    → (finish flag_n file (scan_chunk flag_n file (length ys) 0 r)).out
      ≡ r.out ++ show_back flag_n (back_lines ys p) r.line_num
scan-show flag_n file [] p rest r e le pos =
    let last : finish flag_n file (scan_chunk flag_n file 0 0 r) ≡ emitted flag_n p 0 r =
      unfold scan_chunk in
      finish_lem flag_n file r (omega arith) ∙ emit_lem flag_n file [] p rest r e le in
    rw last (unfold show_back back_lines in ap (λ (o : List Out). r.out ++ o) (sym (append-nil _)))
scan-show flag_n file (c ∷ ys) p rest r e le pos =
    let here : file ≡ reverse ys ++ (c ∷ (p ++ rest)) = e ∙ reverse-cons_append c ys (p ++ rest) in
    let at = get_or-reverse file ys (p ++ rest) c here in
    elim (Bool-cases (c == newline)) [
      | inr other ↦
          (rw
            (
              scan_step flag_n file (length ys) c r r (rw (at, other) refl),
              back_lines-longer c ys p other,
            )
            (scan-show flag_n file ys (c ∷ p) rest r here (omega arith) (omega arith)))
      | inl found ↦
          (let size : length ys + 1 ≡ length (reverse (c ∷ ys)) =
              omega (arith, length-reverse (c ∷ ys)) in
            let cut =
              emit_lem flag_n file (reverse (c ∷ ys)) p rest r e
                (omega (arith, length-reverse (c ∷ ys))) in
            let step : scan_byte flag_n file (length ys) r ≡ emitted flag_n p (length ys + 1) r =
              rw (at, found) (rw size cut) in
            rw
              (
                scan_step flag_n file (length ys) c r _ step,
                show_back-cons flag_n c ys p r.line_num (ground arith),
              )
              (scan-show flag_n file ys (c ∷ []) (p ++ rest) (emitted flag_n p (length ys + 1) r)
                  here (omega arith) (omega arith)
                ∙ append_assoc r.out _ _))
    ]
