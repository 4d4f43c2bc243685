-- ===== src/Bytes/Overlap.antt =====
-- Copies between overlapping areas.
use unix_c_shell.Common.{
  ℕ, zero, suc, ◌+◌, ◌-◌, ◌≤◌, ◌<◌, ◌≡◌, ◌∙◌, ◌&&◌, arith, ltb, leb, ◌==◌, if◌then◌else◌,
  Bool-cases, inl, inr, ◌⊎◌,
}
use unix_c_shell.Bytes.{Memory, store, copy_down, copy_up, memmove}

-- The memory after `n` bytes at `src` are copied to `dst` at once.
abbrev pub copied : (dst src n : ℕ) → Memory → Memory
copied dst src n m x = if leb dst x && ltb x (dst + n) then m (src + (x - dst)) else m x

-- Bytes that are copied one after the other.
copied_first :
    (d s n x : ℕ) (m : Memory)
    → (d ≤ s) ⊎ (s + suc n ≤ d)
    → copied (d + 1) (s + 1) n (store m d (m s)) x ≡ copied d s (suc n) m x
unfolding store
copied_first d s n x m h = grind arith

copied_last :
    (d s n x : ℕ) (m : Memory)
    → s < d
    → copied d s n (store m (d + n) (m (s + n))) x ≡ copied d s (suc n) m x
unfolding store
copied_last d s n x m h = grind arith

copy_up_lem :
    (d s n x : ℕ) (m : Memory) → (d ≤ s) ⊎ (s + n ≤ d) → copy_up d s n m x ≡ copied d s n m x
unfolding copy_up store
copy_up_lem d s zero x m h = ground arith
copy_up_lem d s (suc n) x m h =
    copy_up_lem (d + 1) (s + 1) n x (store m d (m s)) (ground arith) ∙ copied_first d s n x m h

copy_down_lem : (d s n x : ℕ) (m : Memory) → s < d → copy_down d s n m x ≡ copied d s n m x
unfolding copy_down store
copy_down_lem d s zero x m h = ground arith
copy_down_lem d s (suc n) x m h =
    copy_down_lem d s n x (store m (d + n) (m (s + n))) h ∙ copied_last d s n x m h

-- `memmove` copies as if all the bytes were read before the first is written, however the areas overlap.
pub memmove_lem : (dst src n x : ℕ) (m : Memory) → memmove dst src n m x ≡ copied dst src n m x
unfolding memmove
memmove_lem dst src n x m = elim (Bool-cases (n == 0)) [
  | inl e ↦ rw (e, if◌then◌else◌) (ground arith)
  | inr e ↦
      rw (e, if◌then◌else◌)
        (elim (Bool-cases (ltb src dst && ltb dst (src + n))) [
          | inl c ↦ rw (c, if◌then◌else◌) (copy_down_lem dst src n x m (ground arith))
          | inr c ↦ rw (c, if◌then◌else◌) (copy_up_lem dst src n x m (ground arith))
        ])
]
