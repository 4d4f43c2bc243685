-- ===== src/Pipe/Steps.antt =====
-- Any interleaving of calls on a pipe.
use mathlib.Core.List.{append_assoc}
use mathlib.Core.Path.{ap₂}
use unix_c_shell.Common.{
  ℕ, zero, suc, ◌-◌, ◌≡◌, refl, sym, ap, ◌∙◌, Bool, true, false, Option, none, some, List, [], ◌∷◌,
  ◌++◌, map, length, arith,
}
use unix_c_shell.Pipe.{Pipe, pipesize, write_loop, piperead, pipeclose, fresh_pipe}
use unix_c_shell.Pipe.Fifo.{IsValid, contents, fresh_pipe_lem}
use unix_c_shell.Pipe.Loops.{write_loop-Wrote, piperead-Read}

-- A call on the pipe, by whichever process: what `copyin` and `copyout` would answer comes with it.
pub data Call : Type 0 where
  write : (killed : Bool) (cs : List (Option ℕ)) (i : ℕ) → Call
  read : (killed : Bool) (n : ℕ) (oks : ℕ → Bool) → Call
  close : (writable : Bool) → Call

-- The pipe, and all bytes taken from the writers and handed to the readers so far.
pub record History : Type 0 where
  pub pipe : Pipe
  pub written : List ℕ
  pub read_out : List ℕ

-- The first `n` bytes of what `copyin` found.
abbrev first_bytes : ℕ → List (Option ℕ) → List ℕ
first_bytes zero cs = []
first_bytes (suc n) [] = []
first_bytes (suc n) (none ∷ cs) = []
first_bytes (suc n) (some c ∷ cs) = c ∷ first_bytes n cs

first_bytes-append :
    (ws : List ℕ) (rest : List (Option ℕ)) → first_bytes (length ws) (map some ws ++ rest) ≡ ws
first_bytes-append [] rest = refl
first_bytes-append (w ∷ ws) rest = ap (λ l. w ∷ l) (first_bytes-append ws rest)

unfoldable pub step : Call → History → History
unfolding write_loop piperead pipeclose
step (write killed cs i) h =
    let (_, _, i', pi) = write_loop killed cs i h.pipe in
    record h { pipe = pi; written = h.written ++ first_bytes (i' - i) cs }
step (read killed n oks) h =
    let (bytes, _, pi) = piperead killed n oks h.pipe in
    record h { pipe = pi; read_out = h.read_out ++ bytes }
step (close writable) h = record h { pipe = (pipeclose writable h.pipe).0 }

unfoldable pub run : List Call → History → History
unfolding step
run [] h = h
run (c ∷ cs) h = run cs (step c h)

-- What was read and what the pipe holds make up what was written.
pub record IsFifo (h : History) : Type 0 where
  pub valid : IsValid h.pipe
  pub order : h.written ≡ h.read_out ++ contents h.pipe

-- The invariant says nothing of the open ends.
reopened :
    {pi : Pipe} {r w : Bool} → IsValid pi → IsValid (record pi { readopen = r; writeopen = w })
reopened v = record { storage = v.storage; reads = v.reads; writes = v.writes; fits = v.fits }

step-IsFifo : (c : Call) (h : History) → IsFifo h → IsFifo (step c h)
unfolding step
step-IsFifo (write killed cs i) h f =
    let w = write_loop-Wrote killed cs i h.pipe f.valid in
    let n : (write_loop killed cs i h.pipe).2 - i ≡ length w.stored = omega (arith, w.count) in
    let bytes =
      ap₂ first_bytes n w.prefix ∙ first_bytes-append w.stored (write_loop killed cs i h.pipe).1 in
    record {
      valid = w.valid;
      order =
          ap₂ ◌++◌ f.order bytes
          ∙ append_assoc h.read_out (contents h.pipe) w.stored
          ∙ ap (λ l. h.read_out ++ l) (sym w.holds);
    }
step-IsFifo (read killed n oks) h f =
    let r = piperead-Read killed n oks h.pipe f.valid in
    record {
      valid = r.valid;
      order =
          f.order
          ∙ ap (λ l. h.read_out ++ l) r.takes
          ∙ sym (append_assoc h.read_out (piperead killed n oks h.pipe).0 _);
    }
step-IsFifo (close true) h f = record { valid = reopened f.valid; order = f.order }
step-IsFifo (close false) h f = record { valid = reopened f.valid; order = f.order }

-- Any interleaving of reads, writes and closes on a new pipe, whatever faults and kills they meet,
-- hands out the bytes in the order in which they were written, none lost and none twice.
pub run-IsFifo :
    (calls : List Call) (junk : List ℕ)
    → length junk ≡ pipesize
    → IsFifo (run calls (record { pipe = fresh_pipe junk; written = []; read_out = [] }))
unfolding run
run-IsFifo calls junk size = go calls _ start
  where
    start : IsFifo (record { pipe = fresh_pipe junk; written = []; read_out = [] })
    start = let f = fresh_pipe_lem junk size in record { valid = f.0; order = sym f.1 }

    go : (cs : List Call) (h : History) → IsFifo h → IsFifo (run cs h)
    go [] h f = f
    go (c ∷ cs) h f = go cs (step c h) (step-IsFifo c h f)
