-- ===== src/Fs/Path/Resolve.antt =====
-- `namex` resolves the elements of the path, one after another.
use unix_c_shell.Common.{
  ℕ, zero, suc, ◌+◌, ◌<◌, ◌≤◌, ◌≡◌, refl, sym, ◌∙◌, ap, Bool, true, false, not, Option, none, some,
  List, [], ◌∷◌, leb, ◌==◌, if◌then◌else◌, length, take, arith, Bool-cases, Option-cases, inl, inr,
  ◌&&◌, ◌||◌, ◌⊎◌,
}
use unix_c_shell.Fs.Path.{
  dirsiz, slash, skip_slashes, cut_elem, copy_name, first, skip_from, skipelem, Dirent, Inode,
  find_entry, namex_loop, namex,
}
use unix_c_shell.Fs.Path.Elements.{
  elements, cname, list_eq, IsText, namecmp_lem, cname-copy_name, elements-skip, elements-cut,
  skip-head, length-skip, length-cut, skip-IsText, cut-IsText,
}

-- The entry in use with a name.
unfoldable pub entry_of : List Dirent → List ℕ → Option ℕ
entry_of [] e = none
entry_of (de ∷ entries) e =
    let rest = entry_of entries e in
    if de.inum == 0 then rest else if list_eq e (cname dirsiz de.name) then some de.inum else rest

module _ (inode : ℕ → Inode) where
  -- The directory in which an element is looked up must be a directory with links.
  abbrev pub is_open_dir : ℕ → Bool
  is_open_dir ip = (inode ip).is_dir && not ((inode ip).nlink == 0)

  -- The inode that the elements lead to.
  unfoldable pub resolve : List (List ℕ) → ℕ → Option ℕ
  resolve [] ip = some ip
  resolve (e ∷ es) ip =
      if is_open_dir ip
      then (elim (entry_of (inode ip).entries (take dirsiz e)) [
        | none ↦ none
        | some next ↦ resolve es next
      ])
      else none

  -- The directory that the elements but the last lead to, and the last one.
  unfoldable pub resolve_parent : List (List ℕ) → ℕ → Option (ℕ × List ℕ)
  resolve_parent [] ip = none
  resolve_parent (e ∷ []) ip = if is_open_dir ip then some (ip, take dirsiz e) else none
  resolve_parent (e ∷ f ∷ es) ip =
      if is_open_dir ip
      then (elim (entry_of (inode ip).entries (take dirsiz e)) [
        | none ↦ none
        | some next ↦ resolve_parent (f ∷ es) next
      ])
      else none

pub find_entry_lem :
    (entries : List Dirent) (name e : List ℕ)
    → cname dirsiz name ≡ e
    → find_entry entries name ≡ entry_of entries e
unfolding find_entry entry_of
find_entry_lem [] name e h = refl
find_entry_lem (de ∷ entries) name e h =
    rw (namecmp_lem dirsiz name de.name, h, find_entry_lem entries name e h) refl

-- The cases of `skipelem`.
record Cut (path name : List ℕ) : Type 0 where
  elem : List ℕ
  path' : List ℕ
  name' : List ℕ
  cut : skipelem path name ≡ some (path', name')
  named : cname dirsiz name' ≡ take dirsiz elem
  left : elements path ≡ elem ∷ elements path'
  shorter : length path' < length path
  text : IsText path'
  trimmed : skip_slashes path' ≡ path'

skip-skip : (path : List ℕ) → skip_slashes (skip_slashes path) ≡ skip_slashes path
unfolding skip_slashes
skip-skip [] = refl
skip-skip (c ∷ path) = elim (Bool-cases (c == slash)) [
  | inl e ↦ rw e (skip-skip path)
  | inr e ↦ rw (e, e) refl
]

skipelem-stops : (path name : List ℕ) → skip_slashes path ≡ [] → skipelem path name ≡ none
unfolding skipelem skip_from
skipelem-stops path name e = rw e refl

skipelem-goes :
    (path name : List ℕ) (c : ℕ) (p : List ℕ)
    → skip_slashes path ≡ c ∷ p
    → skipelem path name
      ≡ some (skip_slashes (cut_elem (c ∷ p)).1, copy_name (cut_elem (c ∷ p)).0 name)
unfolding skipelem skip_from
skipelem-goes path name c p e = rw e refl

elements_nil : elements [] ≡ []
unfolding elements
elements_nil = refl

cut_pos : (c : ℕ) (p : List ℕ) → (c == slash) ≡ false → 0 < length (cut_elem (c ∷ p)).0
unfolding cut_elem
cut_pos c p h = rw h (omega arith)

skip-Cut :
    (path name : List ℕ) (c : ℕ) (p : List ℕ)
    → IsText path
    → skip_slashes path ≡ c ∷ p
    → Cut path name
skip-Cut path name c p h e =
    let head = skip-head path c p e in
    let text : IsText (c ∷ p) = rw e at (skip-IsText path h) in
    let texts = cut-IsText (c ∷ p) text in
    let rest = (cut_elem (c ∷ p)).1 in
    let len : length (c ∷ p) ≤ length path = rw e at (length-skip path) in
    record {
      elem = (cut_elem (c ∷ p)).0;
      path' = skip_slashes rest;
      name' = copy_name (cut_elem (c ∷ p)).0 name;
      cut = skipelem-goes path name c p e;
      named = cname-copy_name (cut_elem (c ∷ p)).0 name texts.0;
      left = sym (elements-skip path) ∙ ap elements e ∙ elements-cut c p head;
      shorter = omega (arith, length-skip rest, length-cut (c ∷ p), cut_pos c p head, len);
      text = skip-IsText rest texts.1;
      trimmed = skip-skip rest;
    }

skipelem_cases :
    (path name : List ℕ)
    → IsText path
    → ((skipelem path name ≡ none) × (elements path ≡ [])) ⊎ Cut path name
skipelem_cases path name h = by_skip (skip_slashes path) refl
  where
    by_skip :
        (p : List ℕ)
        → skip_slashes path ≡ p
        → ((skipelem path name ≡ none) × (elements path ≡ [])) ⊎ Cut path name
    by_skip [] e =
        inl (skipelem-stops path name e, sym (elements-skip path) ∙ ap elements e ∙ elements_nil)
    by_skip (c ∷ p) e = inr (skip-Cut path name c p h e)

abbrev pub inode_of : Option (ℕ × List ℕ) → Option ℕ
inode_of none = none
inode_of (some (ip, _)) = some ip

-- The string in the name that comes back.
abbrev pub named_of : Option (ℕ × List ℕ) → Option (ℕ × List ℕ)
named_of none = none
named_of (some (ip, name)) = some (ip, cname dirsiz name)

-- After `skipelem` the path is empty exactly if no element is left.
end_cases :
    (path : List ℕ)
    → skip_slashes path ≡ path
    → ((leb (length path) 0 ≡ true) × (elements path ≡ []))
      ⊎ ((leb (length path) 0 ≡ false)
          × ((f : List ℕ) × (es : List (List ℕ)) × (elements path ≡ f ∷ es)))
end_cases [] h = inl (refl, elements_nil)
end_cases (c ∷ path) h =
    inr (ground arith, (_, _, elements-cut c path (skip-head (c ∷ path) c path h)))

module _ (inode : ℕ → Inode) where
  dir_test :
      (ip : ℕ) → (not (inode ip).is_dir || (inode ip).nlink == 0) ≡ not (is_open_dir inode ip)
  dir_test ip = ground arith

  loop-resolve :
      (fuel : ℕ) (path name : List ℕ) (ip : ℕ)
      → IsText path
      → length path < fuel
      → inode_of (namex_loop inode fuel path false name ip) ≡ resolve inode (elements path) ip
  unfolding namex_loop resolve
  loop-resolve zero path name ip h lt = absurd (omega arith)
  loop-resolve (suc fuel) path name ip h lt = elim (skipelem_cases path name h) [
    | inl (e, f) ↦ rw (e, namex_loop) (rw f refl)
    | inr c ↦
        rw (c.cut, namex_loop)
          (rw (c.left, dir_test ip)
            (elim (Bool-cases (is_open_dir inode ip)) [
              | inr shut ↦ rw shut refl
              | inl dir ↦
                  rw (dir, find_entry_lem (inode ip).entries c.name' (take dirsiz c.elem) c.named)
                    (elim (Option-cases (entry_of (inode ip).entries (take dirsiz c.elem))) [
                      | inl missing ↦ rw missing refl
                      | inr (next, found) ↦
                          rw found (
                            loop-resolve fuel c.path' c.name' next c.text
                              (omega (arith, c.shorter)))
                    ])
            ]))
  ]

  -- With an element left the walk goes on.
  parent_step :
      (e f : List ℕ) (es : List (List ℕ)) (ip : ℕ)
      → resolve_parent inode (e ∷ f ∷ es) ip ≡ (
          if is_open_dir inode ip
          then (elim (entry_of (inode ip).entries (take dirsiz e)) [
            | none ↦ none
            | some next ↦ resolve_parent inode (f ∷ es) next
          ])
          else none)
  unfolding resolve_parent
  parent_step e f es ip = refl

  loop-resolve_parent :
      (fuel : ℕ) (path name : List ℕ) (ip : ℕ)
      → IsText path
      → length path < fuel
      → named_of (namex_loop inode fuel path true name ip) ≡ resolve_parent inode (elements path) ip
  unfolding namex_loop resolve_parent
  loop-resolve_parent zero path name ip h lt = absurd (omega arith)
  loop-resolve_parent (suc fuel) path name ip h lt = elim (skipelem_cases path name h) [
    | inl (e, f) ↦ rw (e, namex_loop) (rw f refl)
    | inr c ↦ elim (end_cases c.path' c.trimmed) [
      | inl (last, nothing) ↦
          rw (c.cut, namex_loop)
            (rw (c.left, nothing, dir_test ip, last)
              (elim (Bool-cases (is_open_dir inode ip)) [
                | inr shut ↦ rw shut refl
                | inl dir ↦ rw (dir, c.named) refl
              ]))
      | inr (more, (f, es, there)) ↦
          rw (c.cut, namex_loop)
            (rw (c.left, there, dir_test ip, more)
              (elim (Bool-cases (is_open_dir inode ip)) [
                | inr shut ↦ rw shut refl
                | inl dir ↦
                    rw (dir, find_entry_lem (inode ip).entries c.name' (take dirsiz c.elem) c.named)
                      (elim (Option-cases (entry_of (inode ip).entries (take dirsiz c.elem))) [
                        | inl missing ↦ rw missing refl
                        | inr (next, found) ↦ rw found (
                            loop-resolve_parent fuel c.path' c.name' next c.text
                              (omega (arith, c.shorter))
                            ∙ ap (λ (l : List (List ℕ)). resolve_parent inode l next) there)
                      ])
              ]))
    ]
  ]

-- A path of bytes other than NUL resolves, from the root or the current directory, to the inode that its
-- elements lead to, each cut to 14 bytes; `namex` fails exactly where there is none.
pub namex-resolve :
    (inode : ℕ → Inode) (root cwd : ℕ) (path name : List ℕ)
    → IsText path
    → inode_of (namex inode root cwd path false name)
      ≡ resolve inode (elements path) (if first path == slash then root else cwd)
unfolding namex
namex-resolve inode root cwd path name h =
    loop-resolve inode (length path + 1) path name (if first path == slash then root else cwd) h
      (omega arith)

-- For such a path, `nameiparent` gives the directory that all elements but the last lead to, and leaves
-- the last one, cut to 14 bytes, in the caller's buffer; it fails exactly where there is none.
pub namex-resolve_parent :
    (inode : ℕ → Inode) (root cwd : ℕ) (path name : List ℕ)
    → IsText path
    → named_of (namex inode root cwd path true name)
      ≡ resolve_parent inode (elements path) (if first path == slash then root else cwd)
unfolding namex
namex-resolve_parent inode root cwd path name h =
    loop-resolve_parent inode (length path + 1) path name
      (if first path == slash then root else cwd) h (omega arith)
