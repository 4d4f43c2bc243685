-- ===== src/Shell/Hop/Frecency.antt =====
-- `frecency_lookup` finds the directory of the highest score.
use unix_c_shell.Common.{
  ℕ, ◌<◌, ◌≤◌, ◌≡◌, refl, sym, ◌∙◌, ap, Bool, true, false, ◌&&◌, Option, none, some, List, [], ◌∷◌,
  ◌++◌, ltb, if◌then◌else◌, arith, Bool-cases, inl, inr, All,
}
use mathlib.Core.List.{append_assoc, append-nil}
use mathlib.Core.Path.{subst}
use unix_c_shell.Shell.Hop.{Entry, is_candidate, score, beats, best_from, frecency_lookup}

module _ (is_dir : List ℕ → Bool) (now : ℕ) (name : List ℕ) where
  -- No entry is a candidate.
  abbrev pub NoneFits : List Entry → Type 0
  NoneFits entries = All (λ e. is_candidate is_dir now name e ≡ false) entries

  -- Every candidate has at most the score `s`, or less than `s`.
  abbrev pub AtMost : ℕ → List Entry → Type 0
  AtMost s entries =
      All (λ e. is_candidate is_dir now name e ≡ true → score is_dir now e ≤ s) entries

  abbrev pub Below : ℕ → List Entry → Type 0
  Below s entries =
      All (λ e. is_candidate is_dir now name e ≡ true → score is_dir now e < s) entries

  -- The first of the candidates with the highest score.
  pub record Best (entries : List Entry) (e : Entry) : Type 0 where
    pub before : List Entry
    pub after : List Entry
    pub place : entries ≡ before ++ (e ∷ after)
    pub fits : is_candidate is_dir now name e ≡ true
    pub highest : AtMost (score is_dir now e) after
    pub first : Below (score is_dir now e) before

  abbrev pub IsBest : List Entry → Option Entry → Type 0
  IsBest entries none = NoneFits entries
  IsBest entries (some e) = Best entries e

absurd_bool : {A : Type 0} → true ≡ false → A
absurd_bool h = absurd (cc)

All-append : (P : Entry → Type 0) (xs ys : List Entry) → All P xs → All P ys → All P (xs ++ ys)
All-append P [] ys h g = g
All-append P (x ∷ xs) ys h g = (h.0, All-append P xs ys h.1 g)

All-weaken :
    (P Q : Entry → Type 0) (xs : List Entry) → ((e : Entry) → P e → Q e) → All P xs → All Q xs
All-weaken P Q [] f h = tt
All-weaken P Q (x ∷ xs) f h = (f x h.0, All-weaken P Q xs f h.1)

module _ (is_dir : List ℕ → Bool) (now : ℕ) (name : List ℕ) where
  -- A last entry that is no better.
  keep_best :
      (done : List Entry) (b e : Entry)
      → (is_candidate is_dir now name e ≡ true → score is_dir now e ≤ score is_dir now b)
      → Best is_dir now name done b
      → Best is_dir now name (done ++ e ∷ []) b
  keep_best done b e h s = record {
    before = s.before;
    after = s.after ++ e ∷ [];
    place =
        ap (λ (l : List Entry). l ++ e ∷ []) s.place ∙ append_assoc s.before (b ∷ s.after) (e ∷ []);
    fits = s.fits;
    highest = All-append _ s.after (e ∷ []) s.highest (h, tt);
    first = s.first;
  }

  take_best :
      (done : List Entry) (e : Entry)
      → is_candidate is_dir now name e ≡ true
      → Below is_dir now name (score is_dir now e) done
      → Best is_dir now name (done ++ e ∷ []) e
  take_best done e c h = record {
    before = done;
    after = [];
    place = refl;
    fits = c;
    highest = tt;
    first = h;
  }

  below_better :
      (done : List Entry) (b e : Entry)
      → score is_dir now b < score is_dir now e
      → Best is_dir now name done b
      → Below is_dir now name (score is_dir now e) done
  below_better done b e lt s =
      let fine = λ (x : Entry).
        is_candidate is_dir now name x ≡ true → score is_dir now x < score is_dir now e in
      subst (All fine) (sym s.place) (
        All-append fine s.before (b ∷ s.after)
          (All-weaken _ fine s.before (λ x g c. omega (arith, g c)) s.first)
          (λ _. lt, All-weaken _ fine s.after (λ x g c. omega (arith, g c)) s.highest))

  IsBest-step :
      (done : List Entry) (best : Option Entry) (e : Entry)
      → IsBest is_dir now name done best
      → IsBest is_dir now name
          (done ++ e ∷ [])
          (if is_candidate is_dir now name e && beats is_dir now e best then some e else best)
  IsBest-step done none e h = elim (Bool-cases (is_candidate is_dir now name e)) [
    | inl c ↦ rw c (take_best done e c (All-weaken _ _ done (λ x g c'. absurd_bool (sym c' ∙ g)) h))
    | inr c ↦ rw c (All-append _ done (e ∷ []) h (c, tt))
  ]
  IsBest-step done (some b) e h = elim (Bool-cases (is_candidate is_dir now name e)) [
    | inr c ↦ rw c (keep_best done b e (λ c'. absurd_bool (sym c' ∙ c)) h)
    | inl c ↦ elim (Bool-cases (ltb (score is_dir now b) (score is_dir now e))) [
      | inl better ↦ rw (c, better) (take_best done e c (below_better done b e (ground arith) h))
      | inr worse ↦ rw (c, worse) (keep_best done b e (λ _. ground arith) h)
    ]
  ]

  best_from-IsBest :
      (done : List Entry) (best : Option Entry) (entries : List Entry)
      → IsBest is_dir now name done best
      → IsBest is_dir now name (done ++ entries) (best_from is_dir now name best entries)
  unfolding best_from
  best_from-IsBest done best [] h =
      subst (λ (l : List Entry). IsBest is_dir now name l best) (sym (append-nil done)) h
  best_from-IsBest done best (e ∷ entries) h =
      subst
        (λ (l : List Entry).
          IsBest is_dir now name l (best_from is_dir now name best (e ∷ entries)))
        (append_assoc done (e ∷ []) entries)
        (best_from-IsBest (done ++ e ∷ []) _ entries (IsBest-step done best e h))

-- `frecency_lookup` finds nothing exactly where no entry is a directory whose path contains the name, and
-- otherwise the first of those with the highest score.
pub frecency_lookup-IsBest :
    (is_dir : List ℕ → Bool) (now : ℕ) (name : List ℕ) (entries : List Entry)
    → IsBest is_dir now name entries (frecency_lookup is_dir now name entries)
unfolding frecency_lookup
frecency_lookup-IsBest is_dir now name entries = best_from-IsBest is_dir now name [] none entries tt
