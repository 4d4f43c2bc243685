-- ===== src/Shell/Jobs/Table.antt =====
-- The numbers of the job table.
use unix_c_shell.Common.{
  ℕ, zero, suc, ◌+◌, ◌<◌, ◌≡◌, ◌≢◌, refl, sym, ap, ◌∙◌, Bool, true, false, none, some, List, [],
  ◌∷◌, arith, All, length, set, get_elem?, ==_ne, if◌then◌else◌, Bool-cases, ◌⊎◌, inl, inr,
}
use unix_c_shell.Shell.Jobs.{Job, JobTable, find_from, has_number, used_numbers}

-- No number stands twice in a list.
abbrev pub NoDup : List ℕ → Type 0
NoDup [] = Unit
NoDup (n ∷ ns) = All (λ m. m ≢ n) ns × NoDup ns

-- The jobs in use have different numbers, all below the next one.
pub record IsValid (t : JobTable) : Type 0 where
  pub below : All (λ n. n < t.next_job_number) (used_numbers t.jobs)
  pub distinct : NoDup (used_numbers t.jobs)

All_if {ℓ} :
    (P : ℕ → Type ℓ) (b : Bool) (n : ℕ) (ns : List ℕ)
    → (b ≡ false) ⊎ P n
    → All P ns
    → All P (if b then n ∷ ns else ns)
All_if P true n ns (inl e) h = cc
All_if P true n ns (inr p) h = (p, h)
All_if P false n ns p h = h

All_if_inv {ℓ} :
    (P : ℕ → Type ℓ) (b : Bool) (n : ℕ) (ns : List ℕ)
    → All P (if b then n ∷ ns else ns)
    → All P ns × ((b ≡ false) ⊎ P n)
All_if_inv P true n ns h = (h.1, inr h.0)
All_if_inv P false n ns h = (h, inl refl)

NoDup-if :
    (b : Bool) (n : ℕ) (ns : List ℕ)
    → (b ≡ false) ⊎ All (λ m. m ≢ n) ns
    → NoDup ns
    → NoDup (if b then n ∷ ns else ns)
NoDup-if true n ns (inl e) h = cc
NoDup-if true n ns (inr p) h = (p, h)
NoDup-if false n ns p h = h

NoDup-if_inv :
    (b : Bool) (n : ℕ) (ns : List ℕ)
    → NoDup (if b then n ∷ ns else ns)
    → NoDup ns × ((b ≡ false) ⊎ All (λ m. m ≢ n) ns)
NoDup-if_inv true n ns h = (h.1, inr h.0)
NoDup-if_inv false n ns h = (h, inl refl)

-- A number that the table keeps, but for the entry that is replaced.
pub All-used_numbers-set {ℓ} :
    (P : ℕ → Type ℓ) (js : List Job) (i : ℕ) (j : Job)
    → (j.used ≡ false) ⊎ P j.job_number
    → All P (used_numbers js)
    → All P (used_numbers (set js i j))
unfolding used_numbers
All-used_numbers-set P [] i j p h = h
All-used_numbers-set P (k ∷ js) zero j p h = All_if P j.used _ _ p (All_if_inv P k.used _ _ h).0
All-used_numbers-set P (k ∷ js) (suc i) j p h =
    let q = All_if_inv P k.used _ _ h in
    All_if P k.used _ _ q.1 (All-used_numbers-set P js i j p q.0)

pub NoDup-used_numbers-set :
    (js : List Job) (i : ℕ) (j : Job)
    → (j.used ≡ false) ⊎ All (λ n. n ≢ j.job_number) (used_numbers js)
    → NoDup (used_numbers js)
    → NoDup (used_numbers (set js i j))
unfolding used_numbers
NoDup-used_numbers-set [] i j p h = h
NoDup-used_numbers-set (k ∷ js) zero j (inl e) h =
    NoDup-if j.used _ _ (inl e) (NoDup-if_inv k.used _ _ h).0
NoDup-used_numbers-set (k ∷ js) zero j (inr p) h =
    NoDup-if j.used _ _ (inr (All_if_inv (λ n. n ≢ j.job_number) k.used _ _ p).0)
      (NoDup-if_inv k.used _ _ h).0
NoDup-used_numbers-set (k ∷ js) (suc i) j (inl e) h =
    let q = NoDup-if_inv k.used _ _ h in
    NoDup-if k.used _ _ (other q.1) (NoDup-used_numbers-set js i j (inl e) q.0)
  where
    other :
        (k.used ≡ false) ⊎ All (λ m. m ≢ k.job_number) (used_numbers js)
        → (k.used ≡ false) ⊎ All (λ m. m ≢ k.job_number) (used_numbers (set js i j))
    other (inl u) = inl u
    other (inr a) = inr (All-used_numbers-set (λ m. m ≢ k.job_number) js i j (inl e) a)
NoDup-used_numbers-set (k ∷ js) (suc i) j (inr p) h =
    let q = NoDup-if_inv k.used _ _ h in
    let a = All_if_inv (λ n. n ≢ j.job_number) k.used _ _ p in
    NoDup-if k.used _ _ (other q.1 a.1) (NoDup-used_numbers-set js i j (inr a.0) q.0)
  where
    other :
        (k.used ≡ false) ⊎ All (λ m. m ≢ k.job_number) (used_numbers js)
        → (k.used ≡ false) ⊎ (k.job_number ≢ j.job_number)
        → (k.used ≡ false) ⊎ All (λ m. m ≢ k.job_number) (used_numbers (set js i j))
    other (inl u) b = inl u
    other (inr a) (inl u) = inl u
    other (inr a) (inr ne) =
        inr (All-used_numbers-set (λ m. m ≢ k.job_number) js i j (inr (λ e. ne (sym e))) a)

pub not_number : (n : ℕ) (j : Job) → (j.used ≡ false) ⊎ (j.job_number ≢ n) → has_number n j ≡ false
unfolding has_number
not_number n j (inl e) = rw e
not_number n j (inr ne) = elim (Bool-cases j.used) [
  | inl u ↦ rw (u, ==_ne j.job_number n ne)
  | inr u ↦ rw u
]

-- No used job has the number, and then the lookup finds the job that gets it.
pub find_from-set_fresh :
    (n k : ℕ) (js : List Job) (i : ℕ) (j : Job)
    → All (λ m. m ≢ n) (used_numbers js)
    → i < length js
    → has_number n j ≡ true
    → find_from (has_number n) k (set js i j) ≡ some (k + i)
unfolding find_from used_numbers
find_from-set_fresh n k [] i j h lt e = absurd (omega arith)
find_from-set_fresh n k (x ∷ js) zero j h lt e = rw e (ap some (omega arith))
find_from-set_fresh n k (x ∷ js) (suc i) j h lt e =
    let q = All_if_inv (λ m. m ≢ n) x.used _ _ h in
    rw (not_number n x q.1)
      (find_from-set_fresh n (k + 1) js i j q.0 (omega arith) e ∙ ap some (omega arith))

pub find_from-fresh :
    (n k : ℕ) (js : List Job)
    → All (λ m. m ≢ n) (used_numbers js)
    → find_from (has_number n) k js ≡ none
unfolding find_from used_numbers
find_from-fresh n k [] h = refl
find_from-fresh n k (x ∷ js) h =
    let q = All_if_inv (λ m. m ≢ n) x.used _ _ h in
    rw (not_number n x q.1) (find_from-fresh n (k + 1) js q.0)

-- A lookup does not see an entry replaced that fails its test before and after.
pub find_from-set_other :
    (test : Job → Bool) (k : ℕ) (js : List Job) (i : ℕ) (o j : Job)
    → get_elem? js i ≡ some o
    → test o ≡ false
    → test j ≡ false
    → find_from test k (set js i j) ≡ find_from test k js
unfolding find_from
find_from-set_other test k [] i o j g a b = refl
find_from-set_other test k (x ∷ js) zero o j g a b =
    let e : x ≡ o = cc in let c : test x ≡ false = ap test e ∙ a in rw (b, c)
find_from-set_other test k (x ∷ js) (suc i) o j g a b =
    ap (λ r. if test x then some k else r) (find_from-set_other test (k + 1) js i o j g a b)

-- What a lookup finds passes the test.
pub find_from-found :
    (test : Job → Bool) (k : ℕ) (js : List Job) (i : ℕ)
    → find_from test k js ≡ some i
    → (j : Job) × (p : ℕ) × (i ≡ k + p) × (get_elem? js p ≡ some j) × (test j ≡ true)
unfolding find_from
find_from-found test k [] i h = cc
find_from-found test k (x ∷ js) i h = elim (Bool-cases (test x)) [
  | inl e ↦ let q : some k ≡ some i = rw (e, if◌then◌else◌) at h in (x, 0, ground arith, refl, e)
  | inr e ↦
      let q : find_from test (k + 1) js ≡ some i = rw (e, if◌then◌else◌) at h in
      let (j, p, a, g, c) = find_from-found test (k + 1) js i q in (j, suc p, omega arith, g, c)
]

pub All-used_numbers-get {ℓ} :
    (P : ℕ → Type ℓ) (js : List Job) (i : ℕ) (j : Job)
    → All P (used_numbers js)
    → get_elem? js i ≡ some j
    → j.used ≡ true
    → P j.job_number
unfolding used_numbers
All-used_numbers-get P [] i j h g u = cc
All-used_numbers-get P (k ∷ js) zero j h g u =
    let e : k ≡ j = cc in let q : All P (used_numbers (j ∷ js)) = rw e at h in (rw u at q).0
All-used_numbers-get P (k ∷ js) (suc i) j h g u =
    All-used_numbers-get P js i j (All_if_inv P k.used _ _ h).0 g u

-- When a job leaves the table, no other has its number.
pub removed_fresh :
    (n : ℕ) (js : List Job) (i : ℕ) (j o : Job)
    → NoDup (used_numbers js)
    → get_elem? js i ≡ some j
    → j.used ≡ true
    → j.job_number ≡ n
    → o.used ≡ false
    → All (λ m. m ≢ n) (used_numbers (set js i o))
unfolding used_numbers
removed_fresh n [] i j o d g u e f = tt
removed_fresh n (k ∷ js) zero j o d g u e f =
    let q : NoDup (if j.used then j.job_number ∷ used_numbers js else used_numbers js) =
      rw same at d in
    All_if (λ m. m ≢ n) o.used _ _ (inl f) (rw e at (rw u at q).0)
  where
    same : k ≡ j
    same = cc
removed_fresh n (k ∷ js) (suc i) j o d g u e f =
    let q = NoDup-if_inv k.used _ _ d in
    All_if (λ m. m ≢ n) k.used _ _ (other q.1) (removed_fresh n js i j o q.0 g u e f)
  where
    other :
        (k.used ≡ false) ⊎ All (λ m. m ≢ k.job_number) (used_numbers js)
        → (k.used ≡ false) ⊎ (k.job_number ≢ n)
    other (inl x) = inl x
    other (inr a) = inr (λ y. All-used_numbers-get (λ m. m ≢ k.job_number) js i j a g u (e ∙ sym y))
