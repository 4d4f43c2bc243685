-- ===== src/Shell/Peek/Run/Order.antt =====
-- The numbers of the lines, printed forwards and backwards.
use mathlib.Core.List.{reverse, append-nil, append_assoc, reverse-cons}
use unix_c_shell.Common.{
  ℕ, ◌+◌, ◌-◌, ◌≡◌, refl, sym, ◌∙◌, ap, true, List, [], ◌∷◌, ◌++◌, map, if◌then◌else◌, arith,
  Bool-cases, inl, inr,
}
use unix_c_shell.Shell.Peek.{Out, is_non_empty, show_line, count_non_empty, print_lines, print_back}
use unix_c_shell.Shell.Peek.Lines.{count_non_empty-reverse}

-- Whether a line takes a number.
abbrev pub bump : List ℕ → ℕ
bump line = if is_non_empty line then 1 else 0

-- Each line as it is printed, with its number from `n` on.
unfoldable pub numbered : List (List ℕ) → ℕ → List (List Out)
numbered [] n = []
numbered (line ∷ lines) n = show_line true n line ∷ numbered lines (n + bump line)

unfoldable pub flat : List (List Out) → List Out
flat [] = []
flat (x ∷ xs) = x ++ flat xs

unfoldable pub flat_all : List (List (List Out)) → List Out
unfolding flat
flat_all [] = []
flat_all (b ∷ bs) = flat b ++ flat_all bs

pub map-id : {A : Type 0} (xs : List A) → map (λ x. x) xs ≡ xs
map-id [] = refl
map-id (x ∷ xs) = ap (λ (l : List _). x ∷ l) (map-id xs)

pub flat-append : (xs ys : List (List Out)) → flat (xs ++ ys) ≡ flat xs ++ flat ys
unfolding flat
flat-append [] ys = refl
flat-append (x ∷ xs) ys =
    ap (λ (l : List Out). x ++ l) (flat-append xs ys) ∙ sym (append_assoc x (flat xs) (flat ys))

pub zero_add : (n : ℕ) → n ≡ n + 0
zero_add n = omega arith

next_num : (n : ℕ) (line : List ℕ) → (if is_non_empty line then n + 1 else n) ≡ n + bump line
next_num n line = elim (Bool-cases (is_non_empty line)) [
  | inl e ↦ rw e refl
  | inr e ↦ rw e (omega arith)
]

pub print_lines-numbered :
    (lines : List (List ℕ)) (n : ℕ)
    → print_lines true lines n ≡ (flat (numbered lines n), n + count_non_empty lines)
unfolding print_lines numbered flat count_non_empty
print_lines-numbered [] n = ap (λ (k : ℕ). ([], k)) (zero_add n)
print_lines-numbered (line ∷ lines) n =
    rw (next_num n line, print_lines-numbered lines (n + bump line))
      (ap (λ (k : ℕ). (show_line true n line ++ flat (numbered lines (n + bump line)), k))
        (let e : n + bump line + count_non_empty lines ≡ n + (bump line + count_non_empty lines) =
            omega arith in
          e))

-- The number of a line that takes none does not show.
show_line-bump :
    (n m : ℕ) (line : List ℕ)
    → (is_non_empty line ≡ true → n ≡ m)
    → show_line true n line ≡ show_line true m line
show_line-bump n m line h = elim (Bool-cases (is_non_empty line)) [
  | inl e ↦ rw (h e) refl
  | inr e ↦ rw e refl
]

less_one :
    (total c : ℕ) (line : List ℕ)
    → bump line + c ≡ total
    → c ≡ (if is_non_empty line then total - 1 else total)
less_one total c line h = elim (Bool-cases (is_non_empty line)) [
  | inl e ↦ (let g : 1 + c ≡ total = rw e at h in rw e (omega arith))
  | inr e ↦ (let g : 0 + c ≡ total = rw e at h in rw e (omega arith))
]

-- The last of the lines to print backwards.
print_back-snoc :
    (offset : ℕ) (xs : List (List ℕ)) (line : List ℕ)
    → print_back true offset (xs ++ line ∷ []) (count_non_empty xs + bump line)
      ≡ print_back true (offset + bump line) xs (count_non_empty xs)
        ++ show_line true (offset + 1) line
unfolding print_back count_non_empty
print_back-snoc offset [] line =
    append-nil (show_line true (offset + (0 + bump line)) line)
    ∙ show_line-bump (offset + (0 + bump line)) (offset + 1) line (λ e. rw e refl)
print_back-snoc offset (x ∷ xs) line =
    let c = count_non_empty xs in
    let t = bump x + c + bump line in
    let e1 = less_one t (c + bump line) x (omega arith) in
    let e2 = less_one (bump x + c) c x refl in
    let p = print_back true (offset + bump line) xs c in
    ap (λ (k : ℕ). show_line true (offset + t) x ++ print_back true offset (xs ++ line ∷ []) k)
      (sym e1)
    ∙ ap (λ (l : List Out). show_line true (offset + t) x ++ l) (print_back-snoc offset xs line)
    ∙ ap (λ (k : ℕ). show_line true k x ++ (p ++ show_line true (offset + 1) line))
        (let e : offset + t ≡ offset + bump line + (bump x + c) = omega arith in e)
    ∙ sym (
        append_assoc (show_line true (offset + bump line + (bump x + c)) x) p
          (show_line true (offset + 1) line))
    ∙ ap
        (λ (k : ℕ).
          (show_line true (offset + bump line + (bump x + c)) x
            ++ print_back true (offset + bump line) xs k)
          ++ show_line true (offset + 1) line)
        e2

-- Printed backwards, the lines have the numbers that they have forwards.
pub print_back-numbered :
    (lines : List (List ℕ)) (offset : ℕ)
    → print_back true offset (reverse lines) (count_non_empty lines)
      ≡ flat (reverse (numbered lines (offset + 1)))
unfolding numbered flat count_non_empty
print_back-numbered [] offset = unfold print_back in refl
print_back-numbered (line ∷ lines) offset =
    let c = count_non_empty lines in
    let same = count_non_empty-reverse lines in
    let shown = show_line true (offset + 1) line in
    let rest = numbered lines (offset + 1 + bump line) in
    ap (λ (l : List (List ℕ)). print_back true offset l (bump line + c)) (reverse-cons line lines)
    ∙ ap (λ (k : ℕ). print_back true offset (reverse lines ++ line ∷ []) k)
        (let e : bump line + c ≡ count_non_empty (reverse lines) + bump line =
            rw same (omega arith) in
          e)
    ∙ print_back-snoc offset (reverse lines) line
    ∙ ap (λ (k : ℕ). print_back true (offset + bump line) (reverse lines) k ++ shown) same
    ∙ ap (λ (l : List Out). l ++ shown) (print_back-numbered lines (offset + bump line))
    ∙ ap (λ (k : ℕ). flat (reverse (numbered lines k)) ++ shown)
        (let e : offset + bump line + 1 ≡ offset + 1 + bump line = omega arith in e)
    ∙ ap (λ (l : List Out). flat (reverse rest) ++ l) (sym (append-nil shown))
    ∙ sym (flat-append (reverse rest) (shown ∷ []))
    ∙ ap flat (sym (reverse-cons shown rest))
