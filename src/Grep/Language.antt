-- ===== src/Grep/Language.antt =====
-- The matcher finds the texts of the language of its pattern.
use unix_c_shell.Common.{
  ℕ, ◌≡◌, refl, sym, ◌∙◌, ap, Bool, true, false, ◌||◌, List, [], ◌∷◌, ◌++◌, ◌==◌, if◌then◌else◌,
  arith, Bool-cases, inl, inr, ◌↔◌,
}
use unix_c_shell.Grep.{match, match_from, matchhere, matchstar, match_one, is_end}
use unix_c_shell.Grep.Items.{
  one, star, nothing, letter, stop, repeat, Item, items, fits, Spells, Starts,
}

fits_star : (c t : ℕ) → (t == c || c == b'.') ≡ fits c t
fits_star c t = ground arith

fits_one :
    (c t : ℕ) (b : Bool) → (if fits c t then b else false) ≡ true → (fits c t ≡ true) × (b ≡ true)
fits_one c t b h = ground arith

true_or : (b : Bool) → (if b then true else true) ≡ true
true_or b = ground arith

module _ (here : List ℕ → Bool) (is : List Item) (end : Bool) (c : ℕ) where
  star-Starts :
      (text : List ℕ)
      → ((t : List ℕ) → here t ≡ true → Starts is end t)
      → matchstar here c text ≡ true
      → Starts (star c ∷ is) end text
  unfolding matchstar
  star-Starts text sound h = go text h
    where
      now : (text : List ℕ) → here text ≡ true → Starts (star c ∷ is) end text
      now text e =
          let s = sound text e in
          record {
            word = s.word;
            rest = s.rest;
            cut = s.cut;
            spells = stop c is s.word s.spells;
            at_end = s.at_end;
          }

      go : (text : List ℕ) → matchstar here c text ≡ true → Starts (star c ∷ is) end text
      go [] h = now [] h
      go (t ∷ text) h = elim (Bool-cases (here (t ∷ text))) [
        | inl e ↦ now (t ∷ text) e
        | inr e ↦
            (let g : (if fits c t then matchstar here c text else false) ≡ true =
                rw (e, fits_star c t) at h in
              let (f, more) = fits_one c t (matchstar here c text) g in
              let s = go text more in
              record {
                word = t ∷ s.word;
                rest = s.rest;
                cut = ap (λ (l : List ℕ). t ∷ l) s.cut;
                spells = repeat c t is s.word f s.spells;
                at_end = s.at_end;
              })
      ]

  matchstar-stop : (text : List ℕ) → here text ≡ true → matchstar here c text ≡ true
  unfolding matchstar
  matchstar-stop [] h = h
  matchstar-stop (t ∷ text) h = rw h refl

  matchstar-repeat :
      (t : ℕ) (text : List ℕ)
      → fits c t ≡ true
      → matchstar here c text ≡ true
      → matchstar here c (t ∷ text) ≡ true
  unfolding matchstar
  matchstar-repeat t text f h = rw (fits_star c t, f, h) (true_or (here (t ∷ text)))

  matchstar-Spells :
      (rest w : List ℕ)
      → ((w : List ℕ) → Spells is w → here (w ++ rest) ≡ true)
      → Spells (star c ∷ is) w
      → matchstar here c (w ++ rest) ≡ true
  matchstar-Spells rest w complete (stop _ _ _ s) = matchstar-stop (w ++ rest) (complete w s)
  matchstar-Spells rest w complete (repeat _ t _ w' f s) =
      matchstar-repeat t (w' ++ rest) f (matchstar-Spells rest w' complete s)

-- The first letter of a text.
letter_inv :
    (c : ℕ) (is : List Item) (w : List ℕ)
    → Spells (one c ∷ is) w
    → (t : ℕ) × (w' : List ℕ) × (w ≡ t ∷ w') × (fits c t ≡ true) × Spells is w'
letter_inv c is w (letter _ t _ w' f s) = (t, w', refl, f, s)

nothing_inv : (w : List ℕ) → Spells [] w → w ≡ []
nothing_inv w nothing = refl

one-Starts :
    (here : List ℕ → Bool) (is : List Item) (end : Bool) (c : ℕ) (text : List ℕ)
    → ((t : List ℕ) → here t ≡ true → Starts is end t)
    → match_one here c text ≡ true
    → Starts (one c ∷ is) end text
one-Starts here is end c [] sound h = absurd (cc)
one-Starts here is end c (t ∷ text) sound h =
    let (f, more) = fits_one c t (here text) h in
    let s = sound text more in
    record {
      word = t ∷ s.word;
      rest = s.rest;
      cut = ap (λ (l : List ℕ). t ∷ l) s.cut;
      spells = letter c t is s.word f s.spells;
      at_end = s.at_end;
    }

match_one-Spells :
    (here : List ℕ → Bool) (is : List Item) (c : ℕ) (rest w : List ℕ)
    → ((w : List ℕ) → Spells is w → here (w ++ rest) ≡ true)
    → Spells (one c ∷ is) w
    → match_one here c (w ++ rest) ≡ true
match_one-Spells here is c rest w complete (letter _ t _ w' f s) = rw (f, complete w' s) refl

Starts-nothing : (text : List ℕ) → Starts [] false text
Starts-nothing text = record {
  word = [];
  rest = text;
  cut = refl;
  spells = nothing;
  at_end = λ e. absurd (cc);
}

is_end-Starts : (text : List ℕ) → is_end text ≡ true → Starts [] true text
is_end-Starts [] h = record {
  word = [];
  rest = [];
  cut = refl;
  spells = nothing;
  at_end = λ _. refl;
}
is_end-Starts (_ ∷ _) h = absurd (cc)

is_end_lem : (rest w : List ℕ) → w ≡ [] → rest ≡ [] → is_end (w ++ rest) ≡ true
is_end_lem rest w e f = rw (e, f) refl

-- `matchhere` says whether the text starts with a text of the pattern.
matchhere-Starts :
    (re text : List ℕ) → matchhere re text ≡ true → Starts (items re).0 (items re).1 text
unfolding matchhere items
matchhere-Starts [] text h = Starts-nothing text
matchhere-Starts (c ∷ []) text h = elim (Bool-cases (c == b'$')) [
  | inl e ↦ rw e (is_end-Starts text (rw e at h))
  | inr e ↦ rw e (one-Starts (matchhere []) [] false c text (matchhere-Starts []) (rw e at h))
]
matchhere-Starts (c ∷ d ∷ re) text h = elim (Bool-cases (d == b'*')) [
  | inl e ↦ rw e (
      star-Starts (matchhere re) (items re).0 (items re).1 c text (matchhere-Starts re) (rw e at h))
  | inr e ↦ rw e (
      one-Starts (matchhere (d ∷ re)) (items (d ∷ re)).0 (items (d ∷ re)).1 c text
        (matchhere-Starts (d ∷ re)) (rw e at h))
]

matchhere-Spells :
    (re rest w : List ℕ)
    → ((items re).1 ≡ true → rest ≡ [])
    → Spells (items re).0 w
    → matchhere re (w ++ rest) ≡ true
unfolding matchhere items
matchhere-Spells [] rest w h s = refl
matchhere-Spells (c ∷ []) rest w h s = elim (Bool-cases (c == b'$')) [
  | inl e ↦
      (let s' : Spells [] w = rw e at s in
        let h' : true ≡ true → rest ≡ [] = rw e at h in
        rw e (is_end_lem rest w (nothing_inv w s') (h' refl)))
  | inr e ↦ rw e (match_one-Spells (matchhere []) [] c rest w (λ v _. refl) (rw e at s))
]
matchhere-Spells (c ∷ d ∷ re) rest w h s = elim (Bool-cases (d == b'*')) [
  | inl e ↦ rw e (
      matchstar-Spells (matchhere re) (items re).0 (items re).1 c rest w
        (λ v t. matchhere-Spells re rest v (rw e at h) t) (rw e at s))
  | inr e ↦ rw e (
      match_one-Spells (matchhere (d ∷ re)) (items (d ∷ re)).0 c rest w
        (λ v t. matchhere-Spells (d ∷ re) rest v (rw e at h) t) (rw e at s))
]

abbrev pub starts_with_hat : List ℕ → Bool
starts_with_hat [] = false
starts_with_hat (c ∷ _) = c == b'^'

-- The text has such a start at some place.
abbrev pub Occurs : List ℕ → List ℕ → Type 0
Occurs re text =
    (before rest : List ℕ) × (before ++ rest ≡ text) × Starts (items re).0 (items re).1 rest

match_from_sound : (re text : List ℕ) → match_from re text ≡ true → Occurs re text
unfolding match_from
match_from_sound re [] h = ([], [], refl, matchhere-Starts re [] h)
match_from_sound re (t ∷ text) h = elim (Bool-cases (matchhere re (t ∷ text))) [
  | inl e ↦ ([], t ∷ text, refl, matchhere-Starts re (t ∷ text) e)
  | inr e ↦
      (let (before, rest, cut, s) = match_from_sound re text (rw e at h) in
        (t ∷ before, rest, ap (λ (l : List ℕ). t ∷ l) cut, s))
]

match_from_complete :
    (re before text : List ℕ) → matchhere re text ≡ true → match_from re (before ++ text) ≡ true
unfolding match_from
match_from_complete re [] [] h = h
match_from_complete re [] (t ∷ text) h = rw h refl
match_from_complete re (b ∷ before) text h =
    rw (match_from_complete re before text h) (true_or (matchhere re (b ∷ (before ++ text))))

matchhere_complete :
    (re text : List ℕ) → Starts (items re).0 (items re).1 text → matchhere re text ≡ true
matchhere_complete re text s =
    ap (matchhere re) (sym s.cut) ∙ matchhere-Spells re s.rest s.word s.at_end s.spells

match_hat : (re text : List ℕ) → match (b'^' ∷ re) text ≡ matchhere re text
unfolding match
match_hat re text = refl

match_no_hat : (re text : List ℕ) → starts_with_hat re ≡ false → match re text ≡ match_from re text
unfolding match
match_no_hat [] text h = refl
match_no_hat (c ∷ re) text h = rw h refl

-- `match` finds a pattern that starts with `^` exactly where the text starts with one of the texts
-- of the rest of the pattern, and any other pattern exactly where this holds at some place of the
-- text: a letter stands for itself, a dot for any byte, a letter or dot with a star for any number of
-- them, and `$` at the end for the end of the text.
pub match_iff :
    (re text : List ℕ)
    → ((match (b'^' ∷ re) text ≡ true) ↔ Starts (items re).0 (items re).1 text)
      × (starts_with_hat re ≡ false → (match re text ≡ true) ↔ Occurs re text)
match_iff re text = (
  (
    λ h. matchhere-Starts re text (sym (match_hat re text) ∙ h),
    λ s. match_hat re text ∙ matchhere_complete re text s,
  ),
  λ no_hat. (
    λ h. match_from_sound re text (sym (match_no_hat re text no_hat) ∙ h),
    λ (before, rest, cut, s).
        match_no_hat re text no_hat
        ∙ ap (match_from re) (sym cut)
        ∙ match_from_complete re before rest (matchhere_complete re rest s),
  ),
)
