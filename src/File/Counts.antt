-- ===== src/File/Counts.antt =====
-- The reference counts of the table under each operation.
use unix_c_shell.Common.{
  ℕ, zero, suc, ◌+◌, ◌-◌, ◌<◌, ◌≡◌, refl, sym, ◌∙◌, ap, Bool, true, false, Option, none, some, List,
  [], ◌∷◌, ◌==◌, if◌then◌else◌, arith, inl, inr, Bool-cases, Option-cases, get_elem?, set, ltb,
  get_elem?-set_self, get_elem?-set_ne, get_elem?-lt,
}
use unix_c_shell.File.{fd_none, File, Closing, nothing, closing, filealloc, filedup, fileclose}

-- The count of the file in a place, 0 beyond the table.
unfoldable pub ref_of : List File → ℕ → ℕ
ref_of fs i = elim (get_elem? fs i) [ none ↦ 0 | some f ↦ f.ref ]

-- How many of the descriptors, in all processes, refer to a file.
unfoldable pub count : ℕ → List ℕ → ℕ
count i [] = 0
count i (j ∷ fds) = (if j == i then 1 else 0) + count i fds

-- One of them is closed.
pub remove : ℕ → List ℕ → List ℕ
remove i [] = []
remove i (j ∷ fds) = let rest = remove i fds in if j == i then fds else j ∷ rest

-- The table, the descriptors that refer to it, and all that was closed, the last first.
pub record Opened : Type 0 where
  pub table : List File
  pub fds : List ℕ
  pub closed : List Closing

-- The count of each file is the number of descriptors that refer to it.
abbrev pub IsCounted : Opened → Type 0
IsCounted o = (i : ℕ) → ref_of o.table i ≡ count i o.fds

-- The changes of the table that processes make.
pub data Step : Opened → Opened → Type 0 where
  open_file :
      (o : Opened) (i : ℕ) (table' : List File)
      → filealloc o.table ≡ (some i, table')
      → Step o (record o { table = table'; fds = i ∷ o.fds })
  -- its holders give a file its type and the other fields, but not its count
  fill_file :
      (o : Opened) (i : ℕ) (f g : File)
      → 0 < count i o.fds
      → get_elem? o.table i ≡ some f
      → g.ref ≡ f.ref
      → Step o (record o { table = set o.table i g })
  dup_file :
      (o : Opened) (i : ℕ) (table' : List File)
      → 0 < count i o.fds
      → filedup i o.table ≡ some table'
      → Step o (record o { table = table'; fds = i ∷ o.fds })
  close_file :
      (o : Opened) (i : ℕ) (c : Closing) (table' : List File)
      → 0 < count i o.fds
      → fileclose i o.table ≡ some (c, table')
      → Step o (record { table = table'; fds = remove i o.fds; closed = c ∷ o.closed })

if_zero : {b : Bool} {n : ℕ} → b ≡ false → 0 < (if b then 1 else 0) + n → 0 < n
if_zero e h = ground arith

some_inj : {x y : ℕ} → ◌≡◌ {A = Option ℕ} (some x) (some y) → x ≡ y
some_inj h = cc

not_some : {x : ℕ} → ◌≡◌ {A = Option ℕ} none (some x) → ⊥
not_some h = cc

pub count-remove :
    (i j : ℕ) (fds : List ℕ)
    → 0 < count i fds
    → count j (remove i fds) + (if i == j then 1 else 0) ≡ count j fds
unfolding count remove
count-remove i j [] h = absurd (omega arith)
count-remove i j (k ∷ fds) h = elim (Bool-cases (k == i)) [
  | inl e ↦ (let eq : k ≡ i = ground arith in rw e (rw eq (omega arith)))
  | inr e ↦
      (let more : 0 < count i fds = omega (arith, if_zero e h) in
        rw e (omega (arith, count-remove i j fds more)))
]

first_ref :
    (f : File) (fs : List File) (j : ℕ)
    → ref_of (record f { ref = 1 } ∷ fs) j ≡ (if 0 == j then 1 else ref_of (f ∷ fs) j)
unfolding ref_of
first_ref f fs zero = refl
first_ref f fs (suc j) = let e : (0 == suc j) ≡ false = ground arith in rw e refl

next_ref :
    (f : File) (fs : List File) (k j : ℕ)
    → ((j : ℕ) → ref_of (filealloc fs).1 j ≡ (if k == j then 1 else ref_of fs j))
    → ref_of (f ∷ (filealloc fs).1) j ≡ (if suc k == j then 1 else ref_of (f ∷ fs) j)
unfolding ref_of
next_ref f fs k zero h = let e : (suc k == 0) ≡ false = ground arith in rw e refl
next_ref f fs k (suc j) h = let e : (suc k == suc j) ≡ (k == j) = ground arith in rw e (h j)

-- `filealloc` adds a reference to a file that had none, and no other.
alloc_refs :
    (fs : List File) (i : ℕ)
    → (filealloc fs).0 ≡ some i
    → (ref_of fs i ≡ 0)
      × ((j : ℕ) → ref_of (filealloc fs).1 j ≡ (if i == j then 1 else ref_of fs j))
unfolding filealloc ref_of
alloc_refs [] i h = absurd (cc)
alloc_refs (f ∷ fs) i h = elim (Bool-cases (f.ref == 0)) [
  | inl e ↦
      (let first : 0 ≡ i = some_inj (rw e at h) in
        rw (sym first, e) (ground arith, λ j. first_ref f fs j))
  | inr e ↦ elim (Option-cases (filealloc fs).0) [
    | inl full ↦ absurd (not_some (rw (e, full) at h))
    | inr (k, found) ↦
        (let next : suc k ≡ i = some_inj (rw (e, found) at h) in
          let ih = alloc_refs fs k found in rw (sym next, e) (ih.0, λ j. next_ref f fs k j ih.1))
  ]
]

pub filealloc_lem :
    (fs fs' : List File) (i : ℕ)
    → filealloc fs ≡ (some i, fs')
    → (ref_of fs i ≡ 0) × ((j : ℕ) → ref_of fs' j ≡ (if i == j then 1 else ref_of fs j))
filealloc_lem fs fs' i h =
    let a = alloc_refs fs i (ap (λ (r : Option ℕ × List File). r.0) h) in
    (a.0, λ j. sym (ap (λ (r : Option ℕ × List File). ref_of r.1 j) h) ∙ a.1 j)

-- A write to a file in the table.
pub set_ref :
    (fs : List File) (i : ℕ) (f g : File) (j : ℕ)
    → get_elem? fs i ≡ some f
    → ref_of (set fs i g) j ≡ (if i == j then g.ref else ref_of fs j)
unfolding ref_of
set_ref fs i f g j h = elim (Bool-cases (i == j)) [
  | inl e ↦
      (let same : i ≡ j = ground arith in
        rw (e, sym same) (rw (get_elem?-set_self fs i g (get_elem?-lt fs i f h), ref_of) refl))
  | inr e ↦ rw e (rw (get_elem?-set_ne fs i j g (ground arith), ref_of) refl)
]

-- A file with references is in the table.
pub ref_of_pos :
    (fs : List File) (i : ℕ)
    → 0 < ref_of fs i
    → (f : File) × (get_elem? fs i ≡ some f) × (f.ref ≡ ref_of fs i)
unfolding ref_of
ref_of_pos fs i h = elim (Option-cases (get_elem? fs i)) [
  | inl e ↦ absurd (ground arith)
  | inr (f, e) ↦ (f, e, rw (e, ref_of) refl)
]

-- `filedup` of a file with references does not panic, and adds one.
pub filedup_lem :
    (fs : List File) (i : ℕ)
    → 0 < ref_of fs i
    → (fs' : List File) × (filedup i fs ≡ some fs')
      × ((j : ℕ) → ref_of fs' j ≡ (if i == j then ref_of fs i + 1 else ref_of fs j))
unfolding filedup
filedup_lem fs i h =
    let (f, e, r) = ref_of_pos fs i h in
    let held : ltb f.ref 1 ≡ false = ground arith in
    (
      set fs i (record f { ref = f.ref + 1 }),
      rw (e, filedup) (rw held refl),
      λ j.
          set_ref fs i f (record f { ref = f.ref + 1 }) j e
          ∙ ap (λ (n : ℕ). if i == j then n + 1 else ref_of fs j) r,
    )

-- `fileclose` of a file with references does not panic and takes one; what the file stands for is
-- closed exactly if it was the last.
pub fileclose_lem :
    (fs : List File) (i : ℕ)
    → 0 < ref_of fs i
    → (f : File) × (c : Closing) × (fs' : List File) × (get_elem? fs i ≡ some f)
      × (fileclose i fs ≡ some (c, fs'))
      × (c ≡ (if ref_of fs i == 1 then closing f else nothing))
      × ((j : ℕ) → ref_of fs' j ≡ (if i == j then ref_of fs i - 1 else ref_of fs j))
unfolding fileclose
fileclose_lem fs i h =
    let (f, e, r) = ref_of_pos fs i h in
    let held : ltb f.ref 1 ≡ false = ground arith in
    elim (Bool-cases (ltb 0 (f.ref - 1))) [
      | inl more ↦
          (let many : (ref_of fs i == 1) ≡ false = ground arith in
            (
              f,
              nothing,
              set fs i (record f { ref = f.ref - 1 }),
              e,
              rw (e, fileclose) (rw (held, more) refl),
              rw many refl,
              λ j.
                  set_ref fs i f (record f { ref = f.ref - 1 }) j e
                  ∙ ap (λ (n : ℕ). if i == j then n - 1 else ref_of fs j) r,
            ))
      | inr last ↦
          (let one : (ref_of fs i == 1) ≡ true = ground arith in
            let zero_left : 0 ≡ ref_of fs i - 1 = ground arith in
            (
              f,
              closing f,
              set fs i (record f { ref = 0; type = fd_none }),
              e,
              rw (e, fileclose) (rw (held, last) refl),
              rw one refl,
              λ j.
                  set_ref fs i f (record f { ref = 0; type = fd_none }) j e
                  ∙ ap (λ (n : ℕ). if i == j then n else ref_of fs j) zero_left,
            ))
    ]
