-- ===== src/Shell/Resume/Asks.antt =====
-- What the words of `resume` ask for.
use unix_c_shell.Common.{
  ℕ, ◌≡◌, refl, sym, ap, ◌∙◌, Bool, true, false, none, some, List, [], ◌∷◌, arith, ◌==◌,
  if◌then◌else◌, Bool-cases, Option-cases, inl, inr, ◌⊎◌,
}
use unix_c_shell.Shell.Resume.{
  Request, strtol, int_of, streq, timeout_word, seconds, mode, parse_timeout, parse_resume,
}

abbrev pub fg_word : List ℕ
fg_word = b'f' ∷ b'g' ∷ []

abbrev pub bg_word : List ℕ
bg_word = b'b' ∷ b'g' ∷ []

-- `%` and a number, `fg` or `bg`, and after `fg` perhaps `--timeout` and a number that is not negative.
pub data Asks (tokens : List (List ℕ)) (r : Request) : Type 0 where
  in_background :
      (value : List ℕ) (k : Bool × ℕ)
      → strtol value ≡ some k
      → tokens ≡ (b'%' ∷ value) ∷ bg_word ∷ []
      → r ≡ record { job_number = int_of k; is_fg = false; timeout = none }
      → Asks tokens r
  in_foreground :
      (value : List ℕ) (k : Bool × ℕ)
      → strtol value ≡ some k
      → tokens ≡ (b'%' ∷ value) ∷ fg_word ∷ []
      → r ≡ record { job_number = int_of k; is_fg = true; timeout = none }
      → Asks tokens r
  with_timeout :
      (value time : List ℕ) (k : Bool × ℕ) (n : ℕ)
      → strtol value ≡ some k
      → seconds (strtol time) ≡ some n
      → tokens ≡ (b'%' ∷ value) ∷ fg_word ∷ timeout_word ∷ time ∷ []
      → r ≡ record { job_number = int_of k; is_fg = true; timeout = some n }
      → Asks tokens r

streq-same : (a b : List ℕ) → streq a b ≡ true → a ≡ b
unfolding streq
streq-same [] [] h = refl
streq-same [] (_ ∷ _) h = cc
streq-same (_ ∷ _) [] h = cc
streq-same (c ∷ a) (d ∷ b) h = elim (Bool-cases (c == d)) [
  | inl e ↦
      let same : c ≡ d = ground arith in
      let rest = streq-same a b (rw (e, if◌then◌else◌) at h) in cc
  | inr e ↦ let bad : false ≡ true = rw (e, if◌then◌else◌) at h in cc
]

mode_word :
    (word : List ℕ) (b : Bool)
    → mode word ≡ some b
    → ((b ≡ true) × (word ≡ fg_word)) ⊎ ((b ≡ false) × (word ≡ bg_word))
mode_word word b h = elim (Bool-cases (streq word fg_word)) [
  | inl e ↦
      let q : some true ≡ some b = rw (e, if◌then◌else◌) at h in inl (cc, streq-same word fg_word e)
  | inr e ↦ elim (Bool-cases (streq word bg_word)) [
    | inl f ↦
        let q : some false ≡ some b = rw (e, f, if◌then◌else◌) at h in
        inr (cc, streq-same word bg_word f)
    | inr f ↦ let q : none ≡ some b = rw (e, f, if◌then◌else◌) at h in cc
  ]
]

-- Nothing follows, or `--timeout` and a number in the foreground.
timeout_words :
    (n : ℕ) (is_fg : Bool) (tokens : List (List ℕ)) (r : Request)
    → parse_timeout n is_fg tokens ≡ some r
    → ((tokens ≡ []) × (r ≡ record { job_number = n; is_fg = is_fg; timeout = none }))
      ⊎ ((time : List ℕ) × (k : ℕ) × (is_fg ≡ true)
          × (seconds (strtol time) ≡ some k)
          × (tokens ≡ timeout_word ∷ time ∷ [])
          × (r ≡ record { job_number = n; is_fg = true; timeout = some k }))
unfolding parse_timeout
timeout_words n is_fg [] r h = inl (refl, cc)
timeout_words n is_fg (word ∷ []) r h = cc
timeout_words n true (word ∷ value ∷ []) r h = elim (Bool-cases (streq word timeout_word)) [
  | inr e ↦ let q : none ≡ some r = rw (e, if◌then◌else◌) at h in cc
  | inl e ↦ elim (Option-cases (seconds (strtol value))) [
    | inl f ↦ let q : none ≡ some r = rw (e, f, if◌then◌else◌) at h in cc
    | inr (k, f) ↦
        let q : some (record { job_number = n; is_fg = true; timeout = some k }) ≡ some r =
          rw (e, f, if◌then◌else◌) at h in
        let same = streq-same word timeout_word e in
        inr (value, k, refl, f, ap (λ w. w ∷ value ∷ []) same, cc)
  ]
]
timeout_words n false (word ∷ value ∷ []) r h = cc
timeout_words n is_fg (word ∷ value ∷ _ ∷ _) r h = cc

-- The parser accepts only words that ask.
pub parse_resume-Asks :
    (tokens : List (List ℕ)) (r : Request) → parse_resume tokens ≡ some r → Asks tokens r
unfolding parse_resume
parse_resume-Asks [] r h = cc
parse_resume-Asks ([] ∷ _) r h = cc
parse_resume-Asks ((c ∷ value) ∷ []) r h = cc
parse_resume-Asks ((c ∷ value) ∷ word ∷ tokens) r h = elim (Bool-cases (c == b'%')) [
  | inr e ↦ let q : none ≡ some r = rw (e, if◌then◌else◌) at h in cc
  | inl e ↦ elim (Option-cases (strtol value)) [
    | inl f ↦ let q : none ≡ some r = rw (e, f, if◌then◌else◌) at h in cc
    | inr (k, f) ↦ elim (Option-cases (mode word)) [
      | inl g ↦ let q : none ≡ some r = rw (e, f, g, if◌then◌else◌) at h in cc
      | inr (b, g) ↦
          let q : parse_timeout (int_of k) b tokens ≡ some r = rw (e, f, g, if◌then◌else◌) at h in
          let here : c ≡ b'%' = ground arith in
          asked c value word tokens k b r f here (mode_word word b g)
            (timeout_words (int_of k) b tokens r q)
    ]
  ]
]
  where
    asked :
        (c : ℕ) (value word : List ℕ) (tokens : List (List ℕ)) (k : Bool × ℕ) (b : Bool)
        (r : Request)
        → strtol value ≡ some k
        → c ≡ b'%'
        → ((b ≡ true) × (word ≡ fg_word)) ⊎ ((b ≡ false) × (word ≡ bg_word))
        → ((tokens ≡ []) × (r ≡ record { job_number = int_of k; is_fg = b; timeout = none }))
          ⊎ ((time : List ℕ) × (n : ℕ) × (b ≡ true)
              × (seconds (strtol time) ≡ some n)
              × (tokens ≡ timeout_word ∷ time ∷ [])
              × (r ≡ record { job_number = int_of k; is_fg = true; timeout = some n }))
        → Asks ((c ∷ value) ∷ word ∷ tokens) r
    asked c value word tokens k b r f e (inl (t, w)) (inl (none_left, q)) =
        Asks.in_foreground value k f (cc) (cc)
    asked c value word tokens k b r f e (inr (t, w)) (inl (none_left, q)) =
        Asks.in_background value k f (cc) (cc)
    asked c value word tokens k b r f e (inl (t, w)) (inr (time, n, t', s, ts, q)) =
        Asks.with_timeout value time k n f s (cc) q
    asked c value word tokens k b r f e (inr (t, w)) (inr (time, n, t', s, ts, q)) = cc

-- And it accepts all of them.
pub Asks-parse_resume :
    (tokens : List (List ℕ)) (r : Request) → Asks tokens r → parse_resume tokens ≡ some r
unfolding parse_resume
Asks-parse_resume tokens r (Asks.in_background value k f e q) =
    ap parse_resume e ∙ rw f (ap some (sym q))
Asks-parse_resume tokens r (Asks.in_foreground value k f e q) =
    ap parse_resume e ∙ rw f (ap some (sym q))
Asks-parse_resume tokens r (Asks.with_timeout value time k n f s e q) =
    ap parse_resume e ∙ rw (f, s) (ap some (sym q))
