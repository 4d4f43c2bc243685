-- ===== src/Shell/Outputs.antt =====
-- c-shell/src/redirection.c, the output registry. The copy of a temporary file to its targets is
-- recorded in `copies`.
use unix_c_shell.Common.{
  ℕ, ◌+◌, Bool, true, false, not, ◌&&◌, Option, none, some, List, [], ◌∷◌, ◌++◌, ◌==◌,
  if◌then◌else◌, take, set, get_elem?,
}

abbrev pub outreg_max : ℕ
outreg_max = 128

abbrev pub outreg_files_max : ℕ
outreg_files_max = 16

pub record OutSpec : Type 0 where
  pub used : Bool
  pub pid : ℕ
  pub out_files : List (List ℕ)

pub record Outputs : Type 0 where
  pub registry : List OutSpec
  pub copies : List (ℕ × List (List ℕ))

unfoldable pub slot_from : (OutSpec → Bool) → (i : ℕ) → List OutSpec → Option ℕ
slot_from test i [] = none
slot_from test i (s ∷ ss) = if test s then some i else slot_from test (i + 1) ss

-- Where the registry is full, nothing is registered.
unfoldable pub outreg_register : (pid : ℕ) → (out_files : List (List ℕ)) → Outputs → Outputs
unfolding slot_from
outreg_register pid [] o = o
outreg_register pid (f ∷ fs) o = elim (slot_from (λ (s : OutSpec). not s.used) 0 o.registry) [
  | none ↦ o
  | some slot ↦ record o {
    registry =
        set o.registry slot
          (record { used = true; pid = pid; out_files = take outreg_files_max (f ∷ fs) });
  }
]

-- The first entry for the pid is written out and freed.
unfoldable pub finalize_at : (pid : ℕ) → Option ℕ → Outputs → Outputs
finalize_at pid none o = o
finalize_at pid (some i) o = elim (get_elem? o.registry i) [
  | none ↦ o
  | some s ↦ record {
    registry = set o.registry i (record s { used = false });
    copies = o.copies ++ (pid, s.out_files) ∷ [];
  }
]

unfoldable pub outreg_finalize : (pid : ℕ) → Outputs → Outputs
unfolding slot_from finalize_at
outreg_finalize pid o =
    finalize_at pid (slot_from (λ (s : OutSpec). s.used && s.pid == pid) 0 o.registry) o
