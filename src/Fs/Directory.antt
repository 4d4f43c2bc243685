-- ===== src/Fs/Directory.antt =====
-- fs.c: `dirlookup` and `dirlink` on the entries of a directory.
mod Tests
use unix_c_shell.Common.{
  ℕ, zero, suc, ◌-◌, ◌%◌, ◌^◌, ◌<◌, ◌≡◌, ◌≢◌, refl, sym, ◌∙◌, ap, Bool, true, false, Option, none,
  some, List, [], ◌∷◌, ◌++◌, ◌==◌, if◌then◌else◌, ==_ne, ==_refl, drop, length, arith, Bool-cases,
  Option-cases, inl, inr, ◌⊎◌,
}
use unix_c_shell.Fs.Path.{dirsiz, first, Dirent, find_entry}
use unix_c_shell.Fs.Path.Elements.{cname, list_eq}
use unix_c_shell.Fs.Path.Resolve.{entry_of, find_entry_lem}

-- `strncpy`: the string, padded with NUL bytes to `n`.
pub strncpy : ℕ → List ℕ → List ℕ
strncpy zero s = []
strncpy (suc n) s = if first s == 0 then 0 ∷ strncpy n [] else first s ∷ strncpy n (drop 1 s)

-- The entry is written over the first one that is not in use, or behind the last one.
unfoldable pub put_entry : List Dirent → Dirent → List Dirent
put_entry [] new = new ∷ []
put_entry (de ∷ entries) new =
    let rest = put_entry entries new in if de.inum == 0 then new ∷ entries else de ∷ rest

-- `dirlink`; `de.inum` is a `ushort`; `written` says whether `writei` writes the whole entry, and `none` is -1.
unfoldable pub dirlink :
    (entries : List Dirent) (name : List ℕ) (inum : ℕ) (written : Bool) → Option (List Dirent)
unfolding put_entry strncpy
dirlink entries name inum written = elim (find_entry entries name) [
  | some _ ↦ none
  | none ↦
      if written
      then some (put_entry entries (record { inum = inum % 2 ^ 16; name = strncpy dirsiz name }))
      else none
]

list_eq→eq : (s t : List ℕ) → list_eq s t ≡ true → s ≡ t
unfolding list_eq
list_eq→eq [] [] h = refl
list_eq→eq [] (b ∷ t) h = absurd (cc)
list_eq→eq (a ∷ s) [] h = absurd (cc)
list_eq→eq (a ∷ s) (b ∷ t) h = elim (Bool-cases (a == b)) [
  | inl e ↦ (let eq : a ≡ b = ground arith in let g = list_eq→eq s t (rw e at h) in λ i. eq i ∷ g i)
  | inr e ↦ absurd (let g : false ≡ true = rw e at h in cc)
]

list_eq_refl : (s : List ℕ) → list_eq s s ≡ true
unfolding list_eq
list_eq_refl [] = refl
list_eq_refl (a ∷ s) = rw (==_refl a, list_eq_refl s) refl

-- Where a name is found in no entry, it is not that of the first entry in use.
entry_apart :
    (de : Dirent) (entries : List Dirent) (e : List ℕ)
    → (de.inum == 0) ≡ false
    → entry_of (de ∷ entries) e ≡ none
    → (list_eq e (cname dirsiz de.name) ≡ false) × (entry_of entries e ≡ none)
unfolding entry_of
entry_apart de entries e used h = elim (Bool-cases (list_eq e (cname dirsiz de.name))) [
  | inl t ↦ absurd (let g : ◌≡◌ {A = Option ℕ} (some de.inum) none = rw (used, t) at h in cc)
  | inr f ↦ (f, rw (used, f) at h)
]

-- The copy of a name is the same string.
cname-strncpy : (n : ℕ) (s : List ℕ) → cname n (strncpy n s) ≡ cname n s
unfolding cname strncpy
cname-strncpy zero s = refl
cname-strncpy (suc n) s = elim (Bool-cases (first s == 0)) [
  | inl e ↦ rw e refl
  | inr e ↦ rw e (rw (e, cname-strncpy n (drop 1 s)) refl)
]

absurd_bool : true ≡ false → ⊥
absurd_bool x = cc

-- A new entry is found under its name, if no other has it, and the others under theirs.
entry_of-put_entry :
    (entries : List Dirent) (new : Dirent) (e : List ℕ)
    → new.inum ≢ 0
    → entry_of entries (cname dirsiz new.name) ≡ none
    → entry_of (put_entry entries new) e
      ≡ (if list_eq e (cname dirsiz new.name) then some new.inum else entry_of entries e)
unfolding entry_of put_entry
entry_of-put_entry [] new e h free = rw (==_ne new.inum 0 h) refl
entry_of-put_entry (de ∷ entries) new e h free = elim (Bool-cases (de.inum == 0)) [
  | inl unused ↦ rw unused (rw (==_ne new.inum 0 h) refl)
  | inr used ↦
      (let apart = entry_apart de entries (cname dirsiz new.name) used free in
        elim (Bool-cases (list_eq e (cname dirsiz de.name))) [
          | inr other ↦ rw used (rw (used, other) (entry_of-put_entry entries new e h apart.1))
          | inl this ↦ rw used (rw (used, this, not_new this apart.0) refl)
        ])
]
  where
    not_new :
        list_eq e (cname dirsiz de.name) ≡ true
        → list_eq (cname dirsiz new.name) (cname dirsiz de.name) ≡ false
        → list_eq e (cname dirsiz new.name) ≡ false
    not_new this other = elim (Bool-cases (list_eq e (cname dirsiz new.name))) [
      | inr f ↦ f
      | inl t ↦
          (let same = sym (list_eq→eq _ _ t) ∙ list_eq→eq _ _ this in
            let g = rw same at other in absurd (absurd_bool (sym (list_eq_refl _) ∙ g)))
    ]

-- For an inode number other than 0 that has 16 bits, as an entry holds it: `dirlink` of a name that is in
-- no entry in use, when the entry is written, makes that name lead to the inode and leaves what every
-- other name leads to; where the name is there already it fails.
pub dirlink_lem :
    (entries : List Dirent) (name : List ℕ) (inum : ℕ)
    → inum ≢ 0
    → inum < 2 ^ 16
    → ((dirlink entries name inum true ≡ none)
        × ((n : ℕ) × (entry_of entries (cname dirsiz name) ≡ some n)))
      ⊎ ((entries' : List Dirent) × (dirlink entries name inum true ≡ some entries')
          × (entry_of entries (cname dirsiz name) ≡ none)
          × ((e : List ℕ)
              → entry_of entries' e
                ≡ (if list_eq e (cname dirsiz name) then some inum else entry_of entries e)))
unfolding dirlink
dirlink_lem entries name inum h lt =
    let fits : inum % 2 ^ 16 ≡ inum = omega arith in
    let found = find_entry_lem entries name (cname dirsiz name) refl in
    elim (Option-cases (entry_of entries (cname dirsiz name))) [
      | inr (n, e) ↦ inl (rw (found, dirlink) (rw e refl), (n, e))
      | inl e ↦ inr (
        put_entry entries (record { inum = inum; name = strncpy dirsiz name }),
        rw (found, dirlink) (rw (e, fits) refl),
        e,
        λ k.
            (let same = cname-strncpy dirsiz name in
              rw same at (
                entry_of-put_entry entries (record { inum = inum; name = strncpy dirsiz name }) k h
                  (rw same e))),
      )
    ]
