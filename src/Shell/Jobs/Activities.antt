-- ===== src/Shell/Jobs/Activities.antt =====
-- The order of the list of activities.
use unix_c_shell.Common.{
  ℕ, zero, suc, ◌+◌, ◌≤◌, ◌≡◌, refl, ap, List, [], ◌∷◌, arith, All, length, ltb, ◌==◌,
  if◌then◌else◌, Bool-cases, inl, inr,
}
use unix_c_shell.Shell.Jobs.{sift, sort}

abbrev pub Sorted : List ℕ → Type 0
Sorted [] = Unit
Sorted (x ∷ xs) = All (λ y. x ≤ y) xs × Sorted xs

abbrev pub count : ℕ → List ℕ → ℕ
count n [] = 0
count n (x ∷ xs) = (if x == n then 1 else 0) + count n xs

length-sift : (x : ℕ) (ys : List ℕ) → length (sift x ys).1 ≡ length ys
unfolding sift
length-sift x [] = refl
length-sift x (y ∷ ys) = ap suc (length-sift (if ltb y x then y else x) ys)

count-sift : (n x : ℕ) (ys : List ℕ) → count n ((sift x ys).0 ∷ (sift x ys).1) ≡ count n (x ∷ ys)
unfolding sift
count-sift n x [] = refl
count-sift n x (y ∷ ys) = ground (arith, count-sift n (if ltb y x then y else x) ys)

-- The number that `sift` brings to the front is the least.
sift_le : (x : ℕ) (ys : List ℕ) → ((sift x ys).0 ≤ x) × All (λ y. (sift x ys).0 ≤ y) (sift x ys).1
unfolding sift
sift_le x [] = (omega arith, tt)
sift_le x (y ∷ ys) =
    let r = sift_le (if ltb y x then y else x) ys in
    (ground (arith, r.0), (ground (arith, r.0), r.1))

All-sift {ℓ} :
    (P : ℕ → Type ℓ) (x : ℕ) (ys : List ℕ) → P x → All P ys → P (sift x ys).0 × All P (sift x ys).1
unfolding sift
All-sift P x [] p h = (p, tt)
All-sift P x (y ∷ ys) p h = elim (Bool-cases (ltb y x)) [
  | inl e ↦ rw (e, if◌then◌else◌) (let r = All-sift P y ys h.0 h.1 in (r.0, (p, r.1)))
  | inr e ↦ rw (e, if◌then◌else◌) (let r = All-sift P x ys p h.1 in (r.0, (h.0, r.1)))
]

All-sort {ℓ} : (P : ℕ → Type ℓ) (n : ℕ) (xs : List ℕ) → All P xs → All P (sort n xs)
unfolding sort
All-sort P zero xs h = h
All-sort P (suc n) [] h = tt
All-sort P (suc n) (x ∷ xs) h =
    let r = All-sift P x xs h.0 h.1 in (r.0, All-sort P n (sift x xs).1 r.1)

Sorted-rounds : (n : ℕ) (xs : List ℕ) → length xs ≤ n → Sorted (sort n xs)
unfolding sort
Sorted-rounds zero [] h = tt
Sorted-rounds zero (x ∷ xs) h = absurd (omega arith)
Sorted-rounds (suc n) [] h = tt
Sorted-rounds (suc n) (x ∷ xs) h = (
  All-sort (λ y. (sift x xs).0 ≤ y) n (sift x xs).1 (sift_le x xs).1,
  Sorted-rounds n (sift x xs).1 (omega (arith, length-sift x xs)),
)

count-sort : (k n : ℕ) (xs : List ℕ) → count k (sort n xs) ≡ count k xs
unfolding sort
count-sort k zero xs = refl
count-sort k (suc n) [] = refl
count-sort k (suc n) (x ∷ xs) = omega (arith, count-sort k n (sift x xs).1, count-sift k x xs)

-- With as many rounds as there are numbers the sort is in ascending order, and has every number as
-- often as it was given.
pub sort_lem :
    (xs : List ℕ) (k : ℕ)
    → Sorted (sort (length xs) xs) × (count k (sort (length xs) xs) ≡ count k xs)
sort_lem xs k = (Sorted-rounds (length xs) xs (omega arith), count-sort k (length xs) xs)
