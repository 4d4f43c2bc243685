-- ===== src/Pipe/Tests.antt =====
-- The pipe on concrete calls.
use unix_c_shell.Common.{
  ℕ, zero, suc, ◌≡◌, refl, true, false, none, some, List, [], ◌∷◌, length, arith,
}
use unix_c_shell.Pipe.{Pipe, fresh_pipe}
use unix_c_shell.Pipe.Fifo.{IsValid}
use unix_c_shell.Pipe.Steps.{Call, run, IsFifo, run-IsFifo}

abbrev zeros : ℕ → List ℕ
zeros zero = []
zeros (suc n) = 0 ∷ zeros n

length-zeros : (n : ℕ) → length (zeros n) ≡ n
length-zeros zero = refl
length-zeros (suc n) = omega (arith, length-zeros n)

abbrev empty_pipe : Pipe
empty_pipe = record { buf = zeros 512; nread = 0; nwrite = 0; readopen = true; writeopen = true }

-- A write of two bytes, a read of one, a write whose second byte faults, and a read of the rest.
abbrev calls : List Call
calls =
    Call.write false (some 1 ∷ some 2 ∷ []) 0
    ∷ Call.read false 1 (λ _. true)
    ∷ Call.write false (some 3 ∷ none ∷ []) 0
    ∷ Call.read false 9 (λ _. true)
    ∷ []

run-IsFifo_example :
    IsFifo (run calls (record { pipe = fresh_pipe (zeros 512); written = []; read_out = [] }))
run-IsFifo_example = run-IsFifo calls (zeros 512) (length-zeros 512)

-- A full pipe whose bytes were all written in one go.
abbrev full_pipe : Pipe
full_pipe = record { buf = zeros 512; nread = 0; nwrite = 512; readopen = true; writeopen = true }

full_pipe-IsValid : IsValid full_pipe
full_pipe-IsValid = record {
  storage = length-zeros 512;
  reads = omega arith;
  writes = omega arith;
  fits = omega arith;
}
