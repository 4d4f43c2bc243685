-- ===== src/File/References.antt =====
-- The reference counts of the table, over any history of opens, duplicates and closes.
use unix_c_shell.Common.{
  ℕ, ◌+◌, ◌-◌, ◌<◌, ◌≡◌, refl, sym, ◌∙◌, ap, Option, some, List, ◌∷◌, ◌==◌, if◌then◌else◌, arith,
  inl, inr, Bool, true, false, ◌≢◌, ==_ne, Bool-cases, get_elem?,
}
use mathlib.Core.Path.{subst}
use unix_c_shell.File.{
  File, fd_none, fd_pipe, fd_inode, fd_device, Closing, nothing, close_pipe, put_inode, closing,
  filealloc, filedup, fileclose,
}
use unix_c_shell.File.Counts.{
  open_file, fill_file, dup_file, close_file, set_ref, ref_of, count, remove, Opened, IsCounted,
  Step, count-remove, filealloc_lem, filedup_lem, fileclose_lem,
}

-- A descriptor more.
count-cons : (i j : ℕ) (fds : List ℕ) → count j (i ∷ fds) ≡ (if i == j then 1 else 0) + count j fds
unfolding count
count-cons i j fds = refl

one_more :
    (i j r c n : ℕ)
    → r ≡ (if i == j then c + 1 else n)
    → (i ≡ j → c ≡ n)
    → r ≡ (if i == j then 1 else 0) + n
one_more i j r c n h same = elim (Bool-cases (i == j)) [
  | inl e ↦ (let g : r ≡ c + 1 = rw e at h in let k = same (ground arith) in rw e (omega arith))
  | inr e ↦ (let g : r ≡ n = rw e at h in rw e (omega arith))
]

one_less :
    (i j r c n n' : ℕ)
    → r ≡ (if i == j then c - 1 else n)
    → (i ≡ j → c ≡ n)
    → n' + (if i == j then 1 else 0) ≡ n
    → r ≡ n'
one_less i j r c n n' h same k = elim (Bool-cases (i == j)) [
  | inl e ↦
      (let g : r ≡ c - 1 = rw e at h in
        let g' : n' + 1 ≡ n = rw e at k in let s = same (ground arith) in omega arith)
  | inr e ↦ (let g : r ≡ n = rw e at h in let g' : n' + 0 ≡ n = rw e at k in omega arith)
]

some_eq : {A : Type 0} {x y : A} → ◌≡◌ {A = Option A} (some x) (some y) → x ≡ y
some_eq h = cc

-- Every step keeps the counts.
pub Step-IsCounted : {o o' : Opened} → Step o o' → IsCounted o → IsCounted o'
Step-IsCounted (open_file o i table' e) h j =
    let (zero_refs, refs) = filealloc_lem o.table table' i e in
    one_more i j (ref_of table' j) 0 (count j o.fds)
      (refs j ∙ ap (λ (n : ℕ). if i == j then 1 else n) (h j))
      (λ s. sym zero_refs ∙ h i ∙ ap (λ (k : ℕ). count k o.fds) s)
    ∙ sym (count-cons i j o.fds)
Step-IsCounted (fill_file o i f g held at same) h j =
    set_ref o.table i f g j at ∙ filled (i == j) refl ∙ h j
  where
    filled : (b : Bool) → (i == j) ≡ b → (if b then g.ref else ref_of o.table j) ≡ ref_of o.table j
    filled false e = refl
    filled true e =
        let here : i ≡ j = ground arith in
        let r : ref_of o.table i ≡ f.ref = unfold ref_of in rw (at, ref_of) refl in
        same ∙ sym r ∙ ap (ref_of o.table) here
Step-IsCounted (dup_file o i table' held e) h j =
    let (fs', f, refs) = filedup_lem o.table i (rw (h i) held) in
    let same : fs' ≡ table' = some_eq (sym f ∙ e) in
    one_more i j (ref_of table' j) (ref_of o.table i) (count j o.fds)
      (ap (λ (l : List File). ref_of l j) (sym same)
        ∙ refs j
        ∙ ap (λ (n : ℕ). if i == j then ref_of o.table i + 1 else n) (h j))
      (λ s. h i ∙ ap (λ (k : ℕ). count k o.fds) s)
    ∙ sym (count-cons i j o.fds)
Step-IsCounted (close_file o i c table' held e) h j =
    let (f, c', fs', at, r, what, refs) = fileclose_lem o.table i (rw (h i) held) in
    let same : (c', fs') ≡ (c, table') = some_eq (sym r ∙ e) in
    one_less i j (ref_of table' j) (ref_of o.table i) (count j o.fds) (count j (remove i o.fds))
      (ap (λ (l : Closing × List File). ref_of l.1 j) (sym same)
        ∙ refs j
        ∙ ap (λ (n : ℕ). if i == j then ref_of o.table i - 1 else n) (h j))
      (λ s. h i ∙ ap (λ (k : ℕ). count k o.fds) s) (count-remove i j o.fds held)

pub data Reach (o : Opened) : Opened → Type 0 where
  here : Reach o o
  next : {p q : Opened} → Reach o p → Step p q → Reach o q

pub Reach-IsCounted : {o p : Opened} → IsCounted o → Reach o p → IsCounted p
Reach-IsCounted h here = h
Reach-IsCounted h (next r s) = Step-IsCounted s (Reach-IsCounted h r)

-- What the last close of a file lets go of: the end of the pipe that the file is, or the inode of a file
-- or a device.
abbrev pub Releases : File → Closing → Type 0
Releases f c =
    (f.type ≡ fd_pipe → c ≡ close_pipe f.pipe f.writable)
    × (f.type ≡ fd_inode → c ≡ put_inode f.ip)
    × (f.type ≡ fd_device → c ≡ put_inode f.ip)
    × (f.type ≡ fd_none → c ≡ nothing)

last_one :
    (f : File) (c : Closing) {n : ℕ}
    → n ≡ 1
    → c ≡ (if n == 1 then closing f else nothing)
    → c ≡ closing f
last_one f c {n} e h = rw e at h

not_last :
    (f : File) (c : Closing) {n : ℕ}
    → n ≢ 1
    → c ≡ (if n == 1 then closing f else nothing)
    → c ≡ nothing
not_last f c {n} ne h = rw (==_ne n 1 ne) at h

closing-Releases : (f : File) → Releases f (closing f)
closing-Releases f = (λ e. rw e refl, λ e. rw e refl, λ e. rw e refl, λ e. rw e refl)

-- Start from counts that are right, as in a table without references and no descriptor. After any
-- history of opens, of writes to the fields of open files other than their counts, of duplicates and of
-- closes, no open takes a file that a descriptor refers to, and for a file that a descriptor refers to
-- neither filedup nor fileclose panics. If it is the last descriptor, fileclose closes the end of
-- the pipe or puts the inode that the file stands for, and nothing for a file without a type; if it
-- is not, nothing is closed.
pub opened_sound :
    {o p : Opened} (i : ℕ)
    → IsCounted o
    → Reach o p
    → ((fs' : List File) → filealloc p.table ≡ (some i, fs') → count i p.fds ≡ 0)
      × (0 < count i p.fds
          → ((fs' : List File) × (filedup i p.table ≡ some fs'))
            × ((f : File) × (fs' : List File) × (get_elem? p.table i ≡ some f)
                × ((c : Closing) × (fileclose i p.table ≡ some (c, fs'))
                    × (count i p.fds ≡ 1 → Releases f c)
                    × (count i p.fds ≢ 1 → c ≡ nothing))))
opened_sound {p = p} i h r =
    let c = Reach-IsCounted h r in
    (
      λ fs' e. sym (c i) ∙ (filealloc_lem p.table fs' i e).0,
      λ held.
          (let pos : 0 < ref_of p.table i = rw (c i) held in
            let (fs1, e1, _) = filedup_lem p.table i pos in
            let (f, what, fs2, at, e2, w, _) = fileclose_lem p.table i pos in
            (
              (fs1, e1),
              (
                f,
                fs2,
                at,
                (
                  what,
                  e2,
                  λ last.
                      subst (Releases f)
                        (sym (
                          last_one f what last
                            (w ∙ ap (λ (n : ℕ). if n == 1 then closing f else nothing) (c i))))
                        (closing-Releases f),
                  λ more.
                      not_last f what more
                        (w ∙ ap (λ (n : ℕ). if n == 1 then closing f else nothing) (c i)),
                ),
              ),
            )),
    )
