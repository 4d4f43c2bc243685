-- ===== src/Pipe/Loops.antt =====
-- The loops of `pipewrite` and `piperead`.
use mathlib.Core.List.{append_assoc, append-nil}
use mathlib.Core.Path.{subst}
use unix_c_shell.Common.{
  ℕ, zero, suc, ◌+◌, ◌≡◌, refl, sym, ap, ◌∙◌, Bool, true, not, ◌&&◌, ◌||◌, Option, none, some, List,
  [], ◌∷◌, ◌++◌, map, ◌==◌, if◌then◌else◌, length, arith, ◌⊎◌, inl, inr, Bool-cases,
}
use unix_c_shell.Pipe.{
  Pipe, pipesize, is_full, is_empty, Outcome, put_byte, next_byte, drop_byte, write_loop, read_loop,
  piperead,
}
use unix_c_shell.Pipe.Fifo.{IsValid, used, contents, put_byte_lem, drop_byte_lem, is_full_iff}

-- What a run of the loop of `pipewrite` did: it stored a prefix of the bytes and counted them; it
-- sleeps only on a full pipe with a reader.
pub record Wrote (cs : List (Option ℕ)) (i : ℕ) (pi : Pipe)
    (r : Outcome × List (Option ℕ) × ℕ × Pipe) : Type 0 where
  pub stored : List ℕ
  pub prefix : cs ≡ map some stored ++ r.1
  pub count : r.2 ≡ i + length stored
  pub valid : IsValid r.3
  pub holds : contents r.3 ≡ contents pi ++ stored
  pub full : r.0 ≡ Outcome.sleeps → (used r.3 ≡ pipesize) × (r.3.readopen ≡ true)

-- A run that stops at once.
stopped :
    (cs : List (Option ℕ)) (i : ℕ) (pi : Pipe) (o : Outcome)
    → IsValid pi
    → (o ≡ Outcome.sleeps → (used pi ≡ pipesize) × (pi.readopen ≡ true))
    → Wrote cs i pi (o, cs, i, pi)
stopped cs i pi o v full = record {
  stored = [];
  prefix = refl;
  count = omega arith;
  valid = v;
  holds = sym (append-nil (contents pi));
  full = full;
}

-- A run that stores a byte first.
stores :
    (ch : ℕ) (cs : List (Option ℕ)) (i : ℕ) (pi : Pipe) (r : Outcome × List (Option ℕ) × ℕ × Pipe)
    → contents (put_byte ch pi) ≡ contents pi ++ (ch ∷ [])
    → Wrote cs (i + 1) (put_byte ch pi) r
    → Wrote (some ch ∷ cs) i pi r
stores ch cs i pi r e w = record {
  stored = ch ∷ w.stored;
  prefix = ap (λ l. some ch ∷ l) w.prefix;
  count = omega (arith, w.count);
  valid = w.valid;
  holds = w.holds ∙ ap (λ l. l ++ w.stored) e ∙ append_assoc (contents pi) (ch ∷ []) w.stored;
  full = w.full;
}

pub write_loop-Wrote :
    (killed : Bool) (cs : List (Option ℕ)) (i : ℕ) (pi : Pipe)
    → IsValid pi
    → Wrote cs i pi (write_loop killed cs i pi)
unfolding write_loop
write_loop-Wrote killed [] i pi v = stopped [] i pi (Outcome.returned i) v (λ e. cc)
write_loop-Wrote killed (none ∷ cs) i pi v = elim (Bool-cases (not pi.readopen || killed)) [
  | inl e ↦ rw e (stopped _ i pi Outcome.failed v (λ e. cc))
  | inr e ↦ elim (Bool-cases (is_full pi)) [
    | inl f ↦ rw (e, f) (stopped _ i pi Outcome.sleeps v (λ _. ground (arith, is_full_iff pi v)))
    | inr f ↦ rw (e, f) (stopped _ i pi _ v (λ s. ground arith))
  ]
]
write_loop-Wrote killed (some ch ∷ cs) i pi v = elim (Bool-cases (not pi.readopen || killed)) [
  | inl e ↦ rw e (stopped _ i pi Outcome.failed v (λ e. cc))
  | inr e ↦ elim (Bool-cases (is_full pi)) [
    | inl f ↦ rw (e, f) (stopped _ i pi Outcome.sleeps v (λ _. ground (arith, is_full_iff pi v)))
    | inr f ↦
        let p = put_byte_lem ch pi v f in
        rw (e, f)
          (stores ch cs i pi _ p.1 (write_loop-Wrote killed cs (i + 1) (put_byte ch pi) p.0))
  ]
]

-- What a run of `piperead` did: the bytes that it handed out are the oldest ones.
pub record Read (pi : Pipe) (r : List ℕ × Outcome × Pipe) : Type 0 where
  pub valid : IsValid r.2
  pub takes : contents pi ≡ r.0 ++ contents r.2

read_loop-Read :
    (n : ℕ) (oks : ℕ → Bool) (i : ℕ) (pi : Pipe) → IsValid pi → Read pi (read_loop n oks i pi)
unfolding read_loop
read_loop-Read zero oks i pi v = record { valid = v; takes = refl }
read_loop-Read (suc n) oks i pi v = elim (Bool-cases (is_empty pi)) [
  | inl e ↦ rw e (record { valid = v; takes = refl })
  | inr e ↦ elim (Bool-cases (oks i)) [
    | inl o ↦
        let d = drop_byte_lem pi v e in
        let r = read_loop-Read n oks (i + 1) (drop_byte pi) d.0 in
        rw (e, o) (record { valid = r.valid; takes = d.1 ∙ ap (λ l. next_byte pi ∷ l) r.takes })
    | inr o ↦ rw (e, o) (record { valid = v; takes = refl })
  ]
]

pub piperead-Read :
    (killed : Bool) (n : ℕ) (oks : ℕ → Bool) (pi : Pipe)
    → IsValid pi
    → Read pi (piperead killed n oks pi)
unfolding piperead
piperead-Read killed n oks pi v = elim (Bool-cases (is_empty pi && pi.writeopen)) [
  | inl e ↦ elim (Bool-cases killed) [
    | inl k ↦ rw (e, k) (record { valid = v; takes = refl })
    | inr k ↦ rw (e, k) (record { valid = v; takes = refl })
  ]
  | inr e ↦ rw e (read_loop-Read n oks 0 pi v)
]

-- The loop returns the number of bytes that it handed out, or fails before the first.
read_loop_count :
    (n : ℕ) (oks : ℕ → Bool) (i : ℕ) (pi : Pipe)
    → let (bytes, out, _) = read_loop n oks i pi in
      (out ≡ Outcome.returned (i + length bytes)) ⊎ (out ≡ Outcome.failed) × (bytes ≡ []) × (i ≡ 0)
unfolding read_loop
read_loop_count zero oks i pi = inl (ap Outcome.returned (omega arith))
read_loop_count (suc n) oks i pi = elim (Bool-cases (is_empty pi)) [
  | inl e ↦ rw e (inl (ap Outcome.returned (omega arith)))
  | inr e ↦ elim (Bool-cases (oks i)) [
    | inl o ↦ elim (read_loop_count n oks (i + 1) (drop_byte pi)) [
      | inl c ↦ rw (e, o) (inl (c ∙ ap Outcome.returned (omega arith)))
      | inr (_, _, z) ↦ absurd (omega arith)
    ]
    | inr o ↦ rw (e, o) (stops i)
  ]
]
  where
    stops :
        (l : ℕ)
        → ((if l == 0 then Outcome.failed else Outcome.returned l) ≡ Outcome.returned (l + 0))
          ⊎ ((if l == 0 then Outcome.failed else Outcome.returned l) ≡ Outcome.failed)
            × (◌≡◌ {A = List ℕ} [] [])
            × (l ≡ 0)
    stops l = ground arith

-- A read that does not sleep returns the number of bytes that it handed out, or fails with none; it
-- sleeps on an empty pipe with a writer only, and hands out nothing then.
pub piperead_count :
    (killed : Bool) (n : ℕ) (oks : ℕ → Bool) (pi : Pipe)
    → let (bytes, out, pi') = piperead killed n oks pi in
      (out ≡ Outcome.returned (length bytes))
      ⊎ (out ≡ Outcome.failed) × (bytes ≡ [])
      ⊎ (out ≡ Outcome.sleeps)
        × (bytes ≡ [])
        × (is_empty pi ≡ true)
        × (pi.writeopen ≡ true)
        × (pi' ≡ pi)
unfolding piperead
piperead_count killed n oks pi = elim (Bool-cases (is_empty pi && pi.writeopen)) [
  | inl e ↦ elim (Bool-cases killed) [
    | inl k ↦ rw (e, k) (inr (inl (refl, refl)))
    | inr k ↦ rw (e, k) (inr (inr (refl, refl, ground arith, ground arith, refl)))
  ]
  | inr e ↦ rw e (loop (read_loop_count n oks 0 pi))
]
  where
    loop :
        {bytes : List ℕ} {out : Outcome} {P : Type 0}
        → (out ≡ Outcome.returned (0 + length bytes))
          ⊎ (out ≡ Outcome.failed) × (bytes ≡ []) × (◌≡◌ {A = ℕ} 0 0)
        → (out ≡ Outcome.returned (length bytes)) ⊎ (out ≡ Outcome.failed) × (bytes ≡ []) ⊎ P
    loop (inl e) = inl (e ∙ ap Outcome.returned (omega arith))
    loop (inr (f, b, _)) = inr (inl (f, b))

-- A write to a valid pipe that sleeps has stored a prefix of its bytes and left the pipe full, with a reader.
pub write_loop_sleeps :
    (killed : Bool) (cs rest : List (Option ℕ)) (i i' : ℕ) (pi pi' : Pipe)
    → IsValid pi
    → write_loop killed cs i pi ≡ (Outcome.sleeps, rest, i', pi')
    → (used pi' ≡ pipesize)
      × (pi'.readopen ≡ true)
      × ((ws : List ℕ) × (cs ≡ map some ws ++ rest) × (i' ≡ i + length ws))
write_loop_sleeps killed cs rest i i' pi pi' v e = at_end (subst (Wrote cs i pi) e w)
  where
    w : Wrote cs i pi (write_loop killed cs i pi)
    w = write_loop-Wrote killed cs i pi v

    at_end :
        Wrote cs i pi (Outcome.sleeps, rest, i', pi')
        → (used pi' ≡ pipesize)
          × (pi'.readopen ≡ true)
          × ((ws : List ℕ) × (cs ≡ map some ws ++ rest) × (i' ≡ i + length ws))
    at_end x = let f = x.full refl in (f.0, f.1, (x.stored, x.prefix, x.count))
