-- ===== src/Pipe/Fifo.antt =====
-- A pipe holds the bytes written and not yet read, in order, also when its counters wrap.
use mathlib.Core.Path.{ap₂}
use unix_c_shell.Common.{
  ℕ, zero, suc, ◌+◌, ◌-◌, ◌%◌, ◌^◌, ◌≤◌, ◌<◌, ◌≡◌, ◌≢◌, refl, ap, ◌∙◌, true, false, List, [], ◌∷◌,
  ◌++◌, get_or, set, get_or-set_self, get_or-set_ne, length, length-set, arith, ◌⊎◌,
}
use unix_c_shell.Pipe.{
  Pipe, pipesize, is_full, is_empty, fresh_pipe, put_byte, next_byte, drop_byte,
}

-- The number of bytes in the pipe.
abbrev pub used : Pipe → ℕ
used pi = (pi.nwrite + 2 ^ 32 - pi.nread) % 2 ^ 32

pub record IsValid (pi : Pipe) : Type 0 where
  pub storage : length pi.buf ≡ pipesize
  pub reads : pi.nread < 2 ^ 32
  pub writes : pi.nwrite < 2 ^ 32
  pub fits : used pi ≤ pipesize

-- The `n` bytes from counter `r` on.
abbrev pub window : List ℕ → ℕ → ℕ → List ℕ
window buf r zero = []
window buf r (suc n) = get_or buf (r % pipesize) 0 ∷ window buf ((r + 1) % 2 ^ 32) n

abbrev pub contents : Pipe → List ℕ
contents pi = window pi.buf pi.nread (used pi)

-- A write just behind a window extends it by the byte.
window-set :
    (buf : List ℕ) (ch n r w : ℕ)
    → length buf ≡ pipesize
    → r < 2 ^ 32
    → n < pipesize
    → w ≡ (r + n) % 2 ^ 32
    → window (set buf (w % pipesize) ch) r (suc n) ≡ window buf r n ++ (ch ∷ [])
window-set buf ch zero r w size hr hn e =
    let same : w % pipesize ≡ r % pipesize = omega arith in
    ap (λ x. x ∷ []) (rw same (get_or-set_self buf (r % pipesize) ch 0 (omega arith)))
window-set buf ch (suc n) r w size hr hn e =
    let far : w % pipesize ≢ r % pipesize = omega arith in
    ap₂ ◌∷◌ (get_or-set_ne buf (w % pipesize) (r % pipesize) ch 0 far)
      (window-set buf ch n ((r + 1) % 2 ^ 32) w size (omega arith) (omega arith) (omega arith))

-- The tests of the code for an empty and for a full pipe say what they mean.
pub is_empty_iff :
    (pi : Pipe)
    → IsValid pi
    → (is_empty pi ≡ true) × (used pi ≡ 0) ⊎ (is_empty pi ≡ false) × (0 < used pi)
is_empty_iff pi v = grind arith

pub is_full_iff :
    (pi : Pipe)
    → IsValid pi
    → (is_full pi ≡ true) × (used pi ≡ pipesize) ⊎ (is_full pi ≡ false) × (used pi < pipesize)
is_full_iff pi v = grind arith

put_byte-IsValid : (ch : ℕ) (pi : Pipe) → IsValid pi → used pi < pipesize → IsValid (put_byte ch pi)
unfolding put_byte
put_byte-IsValid ch pi v room = record {
  storage = length-set pi.buf (pi.nwrite % pipesize) ch ∙ v.storage;
  reads = v.reads;
  writes = omega arith;
  fits = omega arith;
}

-- Writing to a pipe that is not full appends the byte and keeps the pipe valid.
pub put_byte_lem :
    (ch : ℕ) (pi : Pipe)
    → IsValid pi
    → is_full pi ≡ false
    → IsValid (put_byte ch pi) × (contents (put_byte ch pi) ≡ contents pi ++ (ch ∷ []))
unfolding put_byte
put_byte_lem ch pi v h =
    let room : used pi < pipesize = ground (arith, is_full_iff pi v) in
    let more : (((pi.nwrite + 1) % 2 ^ 32 + 2 ^ 32 - pi.nread) % 2 ^ 32) ≡ suc (used pi) =
      omega arith in
    (
      put_byte-IsValid ch pi v room,
      ap (window (put_byte ch pi).buf pi.nread) more
          ∙ window-set pi.buf ch (used pi) pi.nread pi.nwrite v.storage v.reads room (omega arith),
    )

-- Reading from a pipe that is not empty takes the oldest byte and keeps the pipe valid.
pub drop_byte_lem :
    (pi : Pipe)
    → IsValid pi
    → is_empty pi ≡ false
    → IsValid (drop_byte pi) × (contents pi ≡ next_byte pi ∷ contents (drop_byte pi))
unfolding drop_byte next_byte
drop_byte_lem pi v h =
    let some_left : 0 < used pi = ground (arith, is_empty_iff pi v) in
    let less : used pi ≡ suc ((pi.nwrite + 2 ^ 32 - (pi.nread + 1) % 2 ^ 32) % 2 ^ 32) =
      omega arith in
    (
      record { storage = v.storage; reads = omega arith; writes = v.writes; fits = omega arith },
      ap (window pi.buf pi.nread) less,
    )

-- A new pipe is valid and empty, whatever its page held.
pub fresh_pipe_lem :
    (junk : List ℕ)
    → length junk ≡ pipesize
    → IsValid (fresh_pipe junk) × (contents (fresh_pipe junk) ≡ [])
unfolding fresh_pipe
fresh_pipe_lem junk h =
    (record { storage = h; reads = omega arith; writes = omega arith; fits = omega arith }, refl)
