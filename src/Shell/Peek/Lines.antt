-- ===== src/Shell/Peek/Lines.antt =====
-- The lines that `getline` reads, taken from the last one on.
use mathlib.Core.List.{reverse, reverse-append}
use unix_c_shell.Common.{
  ℕ, ◌+◌, ◌≡◌, refl, ◌∙◌, ap, true, false, List, [], ◌∷◌, ◌++◌, ◌==◌, if◌then◌else◌, arith,
  Bool-cases, inl, inr,
}
use unix_c_shell.Shell.Peek.{newline, join, read_lines, count_non_empty}
use unix_c_shell.Shell.Peek.Scan.{back_lines, reverse-cons_append}

-- A line: at least a byte, and a newline at most at its end.
abbrev pub IsLine : List ℕ → Type 0
IsLine [] = ⊥
IsLine (c ∷ []) = Unit
IsLine (c ∷ d ∷ p) = ((c == newline) ≡ false) × IsLine (d ∷ p)

read_lines-line : (p : List ℕ) → IsLine p → read_lines p ≡ p ∷ []
unfolding read_lines
read_lines-line [] h = absurd h
read_lines-line (c ∷ []) h = elim (Bool-cases (c == newline)) [
  | inl e ↦ rw e refl
  | inr e ↦ rw e refl
]
read_lines-line (c ∷ d ∷ p) h = rw (h.0, read_lines-line (d ∷ p) h.1) refl

read_lines-cons :
    (c : ℕ) (xs : List ℕ)
    → (line : List ℕ) × (lines : List (List ℕ)) × (read_lines (c ∷ xs) ≡ line ∷ lines)
unfolding read_lines join
read_lines-cons c xs = elim (Bool-cases (c == newline)) [
  | inl e ↦ (c ∷ [], read_lines xs, rw e refl)
  | inr e ↦ joined (read_lines xs) e
]
  where
    joined :
        (rest : List (List ℕ))
        → (c == newline) ≡ false
        → (line : List ℕ) × (lines : List (List ℕ)) × ((if c == newline
              then (c ∷ []) ∷ rest
              else join c rest)
            ≡ line ∷ lines)
    joined [] e = (c ∷ [], [], rw e refl)
    joined (l ∷ rest) e = (c ∷ l, rest, rw e refl)

read_lines-snoc :
    (zs : List ℕ) (c : ℕ)
    → (line : List ℕ) × (lines : List (List ℕ)) × (read_lines (zs ++ (c ∷ [])) ≡ line ∷ lines)
read_lines-snoc [] c = read_lines-cons c []
read_lines-snoc (z ∷ zs) c = read_lines-cons z (zs ++ (c ∷ []))

-- A newline ends a line, whatever stands behind it.
read_lines-cut :
    (c : ℕ) (zs p : List ℕ)
    → (c == newline) ≡ true
    → read_lines (zs ++ (c ∷ p)) ≡ read_lines (zs ++ (c ∷ [])) ++ read_lines p
unfolding read_lines
read_lines-cut c [] p h = rw h refl
read_lines-cut c (z ∷ zs) p h =
    let (line, lines, e) = read_lines-snoc zs c in
    elim (Bool-cases (z == newline)) [
      | inl n ↦ rw (n, read_lines-cut c zs p h) refl
      | inr o ↦ rw (o, read_lines-cut c zs p h, e) (unfold join in refl)
    ]

-- Read from the end, the lines are the same.
pub reverse-read_lines :
    (ys p : List ℕ) → IsLine p → reverse (read_lines (reverse ys ++ p)) ≡ back_lines ys p
unfolding back_lines
reverse-read_lines [] p h = rw (read_lines-line p h) refl
reverse-read_lines (c ∷ ys) p h =
    rw (reverse-cons_append c ys p) (elim (Bool-cases (c == newline)) [
      | inr other ↦ rw other (reverse-read_lines ys (c ∷ p) (longer c p other h))
      | inl found ↦
          (rw
            (
              found,
              read_lines-cut c (reverse ys) p found,
              read_lines-line p h,
              reverse-append (read_lines (reverse ys ++ c ∷ [])) (p ∷ []),
            )
            (ap (λ (l : List (List ℕ)). p ∷ l) (reverse-read_lines ys (c ∷ []) tt)))
    ])
  where
    longer : (c : ℕ) (p : List ℕ) → (c == newline) ≡ false → IsLine p → IsLine (c ∷ p)
    longer c [] e h = absurd h
    longer c (d ∷ p) e h = (e, h)

pub count_non_empty-append :
    (xs ys : List (List ℕ)) → count_non_empty (xs ++ ys) ≡ count_non_empty xs + count_non_empty ys
unfolding count_non_empty
count_non_empty-append [] ys = omega arith
count_non_empty-append (x ∷ xs) ys = omega (arith, count_non_empty-append xs ys)

pub count_non_empty-reverse :
    (xs : List (List ℕ)) → count_non_empty (reverse xs) ≡ count_non_empty xs
unfolding count_non_empty
count_non_empty-reverse [] = refl
count_non_empty-reverse (x ∷ xs) =
    ap count_non_empty (reverse-append (x ∷ []) xs)
    ∙ count_non_empty-append (reverse xs) (x ∷ [])
    ∙ omega (arith, count_non_empty-reverse xs)
