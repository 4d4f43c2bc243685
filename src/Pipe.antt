-- ===== src/Pipe.antt =====
-- xv6/kernel/pipe.c: a ring of 512 bytes with free-running 32-bit counters. A call that would sleep
-- is cut at that point: a step of the call is what happens in one critical section on `pi->lock`.
pub mod Fifo
pub mod Loops
pub mod Steps
mod Tests
use unix_c_shell.Common.{
  ℕ, zero, suc, ◌+◌, ◌%◌, ◌^◌, Bool, true, false, not, ◌&&◌, ◌||◌, Option, none, some, List, [],
  ◌∷◌, ◌==◌, if◌then◌else◌, get_or, set,
}

abbrev pub pipesize : ℕ
pipesize = 512

pub record Pipe : Type 0 where
  pub buf : List ℕ
  pub nread : ℕ
  pub nwrite : ℕ
  pub readopen : Bool
  pub writeopen : Bool

-- `pipealloc`, the fields that it sets in the page from `kalloc`, whose bytes are `junk`.
unfoldable pub fresh_pipe : List ℕ → Pipe
fresh_pipe junk = record { buf = junk; nread = 0; nwrite = 0; readopen = true; writeopen = true }

-- The test of a full pipe, in unsigned 32-bit arithmetic.
abbrev pub is_full : Pipe → Bool
is_full pi = pi.nwrite == ((pi.nread + pipesize) % 2 ^ 32)

abbrev pub is_empty : Pipe → Bool
is_empty pi = pi.nread == pi.nwrite

-- `pi->data[pi->nwrite++ % PIPESIZE] = ch`
unfoldable pub put_byte : ℕ → Pipe → Pipe
put_byte ch pi = record pi {
  buf = set pi.buf (pi.nwrite % pipesize) ch;
  nwrite = (pi.nwrite + 1) % 2 ^ 32;
}

-- `pi->data[pi->nread % PIPESIZE]`
unfoldable pub next_byte : Pipe → ℕ
next_byte pi = get_or pi.buf (pi.nread % pipesize) 0

unfoldable pub drop_byte : Pipe → Pipe
drop_byte pi = record pi { nread = (pi.nread + 1) % 2 ^ 32 }

-- How a critical section ends: the call returns a value, -1, or sleeps and goes on later.
pub data Outcome : Type 0 where
  returned : ℕ → Outcome
  failed : Outcome
  sleeps : Outcome

-- The loop of `pipewrite` until it sleeps or ends. The list is what `copyin` finds from `addr + i`
-- on, `none` where it fails; the result has the bytes left, the count `i` and the pipe.
unfoldable pub write_loop :
    (killed : Bool) → List (Option ℕ) → ℕ → Pipe → Outcome × List (Option ℕ) × ℕ × Pipe
unfolding put_byte
write_loop killed [] i pi = (Outcome.returned i, [], i, pi)
write_loop killed (c ∷ cs) i pi =
    let store = λ (ch : ℕ). write_loop killed cs (i + 1) (put_byte ch pi) in
    if not pi.readopen || killed
    then (Outcome.failed, c ∷ cs, i, pi)
    else if is_full pi
    then (Outcome.sleeps, c ∷ cs, i, pi)
    else (elim c [
      | none ↦ (if i == 0 then Outcome.failed else Outcome.returned i, none ∷ cs, i, pi)
      | some ch ↦ store ch
    ])

-- The `for` loop of `piperead`: `n` bytes more, with `copyout` answering from the list `oks`.
unfoldable pub read_loop : (n : ℕ) → (oks : ℕ → Bool) → ℕ → Pipe → List ℕ × Outcome × Pipe
unfolding next_byte drop_byte
read_loop zero oks i pi = ([], Outcome.returned i, pi)
read_loop (suc n) oks i pi =
    let (bytes, out, pi') = read_loop n oks (i + 1) (drop_byte pi) in
    if is_empty pi
    then ([], Outcome.returned i, pi)
    else if oks i
    then (next_byte pi ∷ bytes, out, pi')
    else ([], if i == 0 then Outcome.failed else Outcome.returned i, pi)

-- A pass of `piperead`: the wait on an empty pipe with a writer, then the copy.
unfoldable pub piperead : (killed : Bool) → ℕ → (ℕ → Bool) → Pipe → List ℕ × Outcome × Pipe
unfolding read_loop
piperead killed n oks pi =
    if is_empty pi && pi.writeopen
    then (if killed then ([], Outcome.failed, pi) else ([], Outcome.sleeps, pi))
    else read_loop n oks 0 pi

-- `pipeclose`: the pipe, and whether its page is freed.
unfoldable pub pipeclose : (writable : Bool) → Pipe → Pipe × Bool
pipeclose writable pi =
    let pi' =
      if writable then record pi { writeopen = false } else record pi { readopen = false } in
    (pi', not pi'.readopen && not pi'.writeopen)
