-- ===== src/Bytes.antt =====
-- xv6/kernel/string.c on a memory: a function from addresses to bytes. `n` is the `uint` count.
pub mod Overlap
pub mod Strings
mod Tests
use unix_c_shell.Common.{
  ℕ, zero, suc, ◌+◌, ◌-◌, ◌%◌, Bool, true, false, not, ◌&&◌, ◌||◌, ltb, ◌==◌, if◌then◌else◌,
}

abbrev pub Memory : Type 0
Memory = ℕ → ℕ

-- `*a = v`
unfoldable pub store : Memory → (a v : ℕ) → Memory
store m a v x = if x == a then v else m x

-- The loop of `memset` from `i` on; the byte is `c` modulo 256.
unfoldable pub memset_from : (i n dst c : ℕ) → Memory → Memory
unfolding store
memset_from i zero dst c m = m
memset_from i (suc n) dst c m = memset_from (i + 1) n dst c (store m (dst + i) (c % 256))

unfoldable pub memset : (dst c n : ℕ) → Memory → Memory
unfolding memset_from
memset dst c n m = memset_from 0 n dst c m

-- `while (n-- > 0) *--d = *--s;` where `d` and `s` start at the ends.
unfoldable pub copy_down : (d s n : ℕ) → Memory → Memory
unfolding store
copy_down d s zero m = m
copy_down d s (suc n) m = copy_down d s n (store m (d + n) (m (s + n)))

-- `while (n-- > 0) *d++ = *s++;`
unfoldable pub copy_up : (d s n : ℕ) → Memory → Memory
unfolding store
copy_up d s zero m = m
copy_up d s (suc n) m = copy_up (d + 1) (s + 1) n (store m d (m s))

unfoldable pub memmove : (dst src n : ℕ) → Memory → Memory
unfolding copy_down copy_up
memmove dst src n m =
    if n == 0
    then m
    else if ltb src dst && ltb dst (src + n)
    then copy_down dst src n m
    else copy_up dst src n m

unfoldable pub memcpy : (dst src n : ℕ) → Memory → Memory
unfolding memmove
memcpy dst src n m = memmove dst src n m

-- The sign of the result of `memcmp` and `strncmp`.
pub data Sign : Type 0 where
  equal less greater : Sign

-- `*s1 - *s2`
unfoldable pub difference : ℕ → ℕ → Sign
difference a b = if ltb a b then Sign.less else if ltb b a then Sign.greater else Sign.equal

unfoldable pub memcmp : (v1 v2 n : ℕ) → Memory → Sign
unfolding difference
memcmp v1 v2 zero m = Sign.equal
memcmp v1 v2 (suc n) m =
    if m v1 == m v2 then memcmp (v1 + 1) (v2 + 1) n m else difference (m v1) (m v2)

unfoldable pub strncmp : (p q n : ℕ) → Memory → Sign
unfolding difference
strncmp p q zero m = Sign.equal
strncmp p q (suc n) m =
    if not (m p == 0) && (m p == m q) then strncmp (p + 1) (q + 1) n m else difference (m p) (m q)

-- `while (n-- > 0) *s++ = 0;`
unfoldable pub zero_fill : (s n : ℕ) → Memory → Memory
unfolding store
zero_fill s zero m = m
zero_fill s (suc n) m = zero_fill (s + 1) n (store m s 0)

unfoldable pub strncpy : (s t n : ℕ) → Memory → Memory
unfolding zero_fill store
strncpy s t zero m = m
strncpy s t (suc n) m =
    if m t == 0
    then zero_fill (s + 1) n (store m s 0)
    else strncpy (s + 1) (t + 1) n (store m s (m t))

-- `safestrcpy`: the loop runs while `--n > 0`.
unfoldable pub safestrcpy : (s t n : ℕ) → Memory → Memory
unfolding store
safestrcpy s t zero m = m
safestrcpy s t (suc zero) m = store m s 0
safestrcpy s t (suc (suc n)) m =
    if m t == 0
    then store (store m s 0) (s + 1) 0
    else safestrcpy (s + 1) (t + 1) (suc n) (store m s (m t))
