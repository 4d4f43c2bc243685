-- ===== src/Fs/Path/Elements.antt =====
-- The elements of a path, and the names that `skipelem` leaves.
use unix_c_shell.Common.{
  ℕ, zero, suc, ◌+◌, ◌<◌, ◌≤◌, ◌≡◌, refl, sym, ◌∙◌, ap, Bool, true, false, List, [], ◌∷◌, ◌++◌, leb,
  ◌==◌, if◌then◌else◌, length, take, drop, arith, Bool-cases, inl, inr, All,
}
use unix_c_shell.Fs.Path.{dirsiz, slash, skip_slashes, cut_elem, copy_name, first, namecmp}

abbrev pub push : ℕ → List (List ℕ) → List (List ℕ)
push c [] = (c ∷ []) ∷ []
push c (e ∷ es) = (c ∷ e) ∷ es

-- The path cut at every slash.
pub split : List ℕ → List (List ℕ)
split [] = [] ∷ []
split (c ∷ path) = if c == slash then [] ∷ split path else push c (split path)

pub non_empty : List (List ℕ) → List (List ℕ)
non_empty [] = []
non_empty ([] ∷ es) = non_empty es
non_empty ((c ∷ e) ∷ es) = (c ∷ e) ∷ non_empty es

-- Its elements: what stands between slashes, where it is not empty.
unfoldable pub elements : List ℕ → List (List ℕ)
unfolding split non_empty
elements path = non_empty (split path)

-- The string in the first `n` bytes of a buffer.
unfoldable pub cname : ℕ → List ℕ → List ℕ
cname zero s = []
cname (suc n) s = let rest = cname n (drop 1 s) in if first s == 0 then [] else first s ∷ rest

unfoldable pub list_eq : List ℕ → List ℕ → Bool
list_eq [] [] = true
list_eq [] (_ ∷ _) = false
list_eq (_ ∷ _) [] = false
list_eq (a ∷ s) (b ∷ t) = let rest = list_eq s t in if a == b then rest else false

-- No byte is NUL.
abbrev pub IsText : List ℕ → Type 0
IsText path = All (λ c. (c == 0) ≡ false) path

-- `strncmp` compares the strings.
pub namecmp_lem : (n : ℕ) (s t : List ℕ) → namecmp n s t ≡ list_eq (cname n s) (cname n t)
unfolding namecmp cname list_eq
namecmp_lem zero s t = refl
namecmp_lem (suc n) s t = elim (Bool-cases (first s == 0)) [
  | inl e ↦ elim (Bool-cases (first t == 0)) [ inl f ↦ rw (e, f) refl | inr f ↦ rw (e, f) refl ]
  | inr e ↦ elim (Bool-cases (first t == 0)) [
    | inl f ↦ (let z : (first s == first t) ≡ false = ground arith in rw (e, f, z) refl)
    | inr f ↦
        rw (e, f)
          (elim (Bool-cases (first s == first t)) [
            | inl g ↦ rw g (namecmp_lem n (drop 1 s) (drop 1 t))
            | inr g ↦ rw g refl
          ])
  ]
]

cname-full :
    (n : ℕ) (e rest : List ℕ) → n ≤ length e → IsText e → cname n (take n e ++ rest) ≡ take n e
unfolding cname
cname-full zero e rest le h = refl
cname-full (suc n) [] rest le h = absurd (omega arith)
cname-full (suc n) (c ∷ e) rest le h = rw (h.0, cname-full n e rest (omega arith) h.1) refl

cname-short : (n : ℕ) (e rest : List ℕ) → length e < n → IsText e → cname n (e ++ 0 ∷ rest) ≡ e
unfolding cname
cname-short zero e rest le h = absurd (omega arith)
cname-short (suc n) [] rest le h = refl
cname-short (suc n) (c ∷ e) rest le h = rw (h.0, cname-short n e rest (omega arith) h.1) refl

take-all : (n : ℕ) (e : List ℕ) → length e < n → take n e ≡ e
take-all zero e h = absurd (omega arith)
take-all (suc n) [] h = refl
take-all (suc n) (c ∷ e) h = ap (λ (l : List ℕ). c ∷ l) (take-all n e (omega arith))

-- The buffer holds the element, cut to 14 bytes.
pub cname-copy_name : (e name : List ℕ) → IsText e → cname dirsiz (copy_name e name) ≡ take dirsiz e
cname-copy_name e name h = elim (Bool-cases (leb dirsiz (length e))) [
  | inl long ↦ rw long (cname-full dirsiz e (drop dirsiz name) (ground arith) h)
  | inr short ↦
      (let lt : length e < dirsiz = ground arith in
        rw short
          (cname-short dirsiz e (drop (length e + 1) name) lt h ∙ sym (take-all dirsiz e lt)))
]

-- What `cut_elem` leaves, as pieces.
abbrev behind : List ℕ → List (List ℕ)
behind [] = []
behind (_ ∷ rest) = split rest

split-cut : (path : List ℕ) → split path ≡ (cut_elem path).0 ∷ behind (cut_elem path).1
unfolding split cut_elem
split-cut [] = refl
split-cut (c ∷ path) = elim (Bool-cases (c == slash)) [
  | inl e ↦ rw e refl
  | inr e ↦ rw (e, split-cut path) refl
]

pub elements-skip : (path : List ℕ) → elements (skip_slashes path) ≡ elements path
unfolding elements skip_slashes
elements-skip [] = refl
elements-skip (c ∷ path) = elim (Bool-cases (c == slash)) [
  | inl e ↦ rw e (elements-skip path)
  | inr e ↦ rw (e, e) refl
]

behind-skip :
    (path : List ℕ)
    → non_empty (behind (cut_elem path).1) ≡ elements (skip_slashes (cut_elem path).1)
unfolding cut_elem elements skip_slashes
behind-skip [] = refl
behind-skip (c ∷ path) = elim (Bool-cases (c == slash)) [
  | inl e ↦ rw (e, e) (sym (elements-skip path))
  | inr e ↦ rw e (behind-skip path)
]

-- What `skipelem` cuts off is the first element.
pub elements-cut :
    (c : ℕ) (path : List ℕ)
    → (c == slash) ≡ false
    → elements (c ∷ path)
      ≡ (cut_elem (c ∷ path)).0 ∷ elements (skip_slashes (cut_elem (c ∷ path)).1)
unfolding elements cut_elem
elements-cut c path h =
    rw (h, split-cut path)
      (ap (λ (es : List (List ℕ)). (c ∷ (cut_elem path).0) ∷ es)
        (unfold elements in behind-skip path))

-- A path without leading slashes starts with no slash.
pub skip-head :
    (path : List ℕ) (c : ℕ) (rest : List ℕ) → skip_slashes path ≡ c ∷ rest → (c == slash) ≡ false
unfolding skip_slashes
skip-head [] c rest h = absurd (cc)
skip-head (d ∷ path) c rest h = elim (Bool-cases (d == slash)) [
  | inl e ↦ skip-head path c rest (rw e at h)
  | inr e ↦ (let g : d ∷ path ≡ c ∷ rest = rw e at h in let same : d ≡ c = cc in rw (sym same) e)
]

-- Each step leaves a shorter path, and text.
pub length-skip : (path : List ℕ) → length (skip_slashes path) ≤ length path
unfolding skip_slashes
length-skip [] = omega arith
length-skip (c ∷ path) = elim (Bool-cases (c == slash)) [
  | inl e ↦ rw e (omega (arith, length-skip path))
  | inr e ↦ rw e (omega arith)
]

pub length-cut : (path : List ℕ) → length (cut_elem path).0 + length (cut_elem path).1 ≡ length path
unfolding cut_elem
length-cut [] = omega arith
length-cut (c ∷ path) = elim (Bool-cases (c == slash)) [
  | inl e ↦ rw e (omega arith)
  | inr e ↦ rw e (omega (arith, length-cut path))
]

pub skip-IsText : (path : List ℕ) → IsText path → IsText (skip_slashes path)
unfolding skip_slashes
skip-IsText [] h = tt
skip-IsText (c ∷ path) h = elim (Bool-cases (c == slash)) [
  | inl e ↦ rw e (skip-IsText path h.1)
  | inr e ↦ rw e h
]

pub cut-IsText : (path : List ℕ) → IsText path → IsText (cut_elem path).0 × IsText (cut_elem path).1
unfolding cut_elem
cut-IsText [] h = (tt, tt)
cut-IsText (c ∷ path) h = elim (Bool-cases (c == slash)) [
  | inl e ↦ rw e (tt, h)
  | inr e ↦ rw e ((h.0, (cut-IsText path h.1).0), (cut-IsText path h.1).1)
]
