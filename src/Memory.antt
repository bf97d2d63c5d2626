-- ===== src/Memory.antt =====
-- Memory read and written through a pointer, and the functions of <string.h> that the ring buffer
-- calls: memmove, memcmp (only its test for 0) and memchr.
pub mod Find
mod Tests
use native.Mathlib.Decide.{ℕ_discrete}
use chan_svistok.Base.{
  ℕ, zero, suc, ◌+◌, ◌-◌, ◌≤◌, ◌<◌, ◌≡◌, refl, subst, ◌≢◌, ◌⊎◌, inl, inr, Bool, true, false, ◌&&◌,
  ◌||◌, Option, none, some, List, tabulate, ltb, leb, ◌==◌, if◌then◌else◌, Bool-cases, arith,
}

-- The bytes from a pointer on, by their offset.
abbrev pub Bytes : Type 0
Bytes = ℕ → ℕ

-- The pointer `p + n`.
abbrev pub shift : Bytes → ℕ → Bytes
shift p n = λ i. p (n + i)

-- The memory `m` after `memmove (m + dst, src, n)`.
unfoldable pub memmove : Bytes → ℕ → Bytes → ℕ → Bytes
memmove m dst src n = λ i. if leb dst i && ltb i (dst + n) then src (i - dst) else m i

-- Whether `memcmp (a, b, n) == 0`.
unfoldable pub memcmp_zero : Bytes → Bytes → ℕ → Bool
memcmp_zero a b zero = true
memcmp_zero a b (suc n) = a n == b n && memcmp_zero a b n

-- `memchr (p, c, n)`: the offset of the first byte `c` among `n`, searched from offset `i` on.
memchr_from : ℕ → Bytes → ℕ → ℕ → Option ℕ
memchr_from zero p c i = none
memchr_from (suc n) p c i =
    let rest = memchr_from n p c (i + 1) in if p i == c then some i else rest

unfoldable pub memchr : Bytes → ℕ → ℕ → Option ℕ
unfolding memchr_from
memchr p c n = memchr_from n p c 0

-- The loop of memmem.c from offset `i` on, over the offsets that are left.
memmem_from : ℕ → Bytes → Bytes → ℕ → ℕ → Option ℕ
memmem_from zero l s s_len i = none
memmem_from (suc n) l s s_len i =
    let rest = memmem_from n l s s_len (i + 1) in
    if l i == s 0 && memcmp_zero (shift l i) s s_len then some i else rest

-- `memmem (l, l_len, s, s_len)` of memmem.c: the offset of the first occurrence of `s` in `l`.
unfoldable pub memmem : Bytes → ℕ → Bytes → ℕ → Option ℕ
unfolding memmem_from
memmem l l_len s s_len =
    if l_len == 0 || s_len == 0
    then none
    else (if ltb l_len s_len
        then none
        else (if s_len == 1
            then memchr l (s 0) l_len
            else memmem_from (l_len - s_len + 1) l s s_len 0))

abbrev pub Agree : Bytes → Bytes → ℕ → Type 0
Agree a b n = (k : ℕ) → k < n → a k ≡ b k

pub memcmp_zero_sound : (a b : Bytes) (n : ℕ) → memcmp_zero a b n ≡ true → Agree a b n
unfolding memcmp_zero
memcmp_zero_sound a b zero h k l = absurd (omega arith)
memcmp_zero_sound a b (suc n) h k l = ground (arith, memcmp_zero_sound a b n (ground arith) k)

pub memcmp_zero_complete : (a b : Bytes) (n : ℕ) → Agree a b n → memcmp_zero a b n ≡ true
unfolding memcmp_zero
memcmp_zero_complete a b zero h = refl
memcmp_zero_complete a b (suc n) h =
    ground (arith, h n (omega arith), memcmp_zero_complete a b n (λ k l. h k (omega arith)))
