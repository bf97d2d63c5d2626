-- ===== src/Memory/Find.antt =====
-- What memchr and memmem.c find: the first occurrence, and nothing only if there is none.
use native.Mathlib.Decide.{ℕ_discrete, dec_lt}
use mathlib.Core.Option
use native.Mathlib.Nat.{add-zero, add-suc}
use chan_svistok.Base.{
  ℕ, zero, suc, ◌+◌, ◌-◌, ◌≤◌, ◌<◌, ◌≡◌, refl, subst, ap, sym, ◌∙◌, ==→eq, inl, inr, true, false,
  ◌&&◌, Option, none, some, ◌==◌, Bool-cases, arith,
}
use chan_svistok.Memory.{
  Bytes, shift, memcmp_zero, memchr, memchr_from, memmem, memmem_from, Agree, memcmp_zero_sound,
  memcmp_zero_complete,
}

-- Comparing in two parts.
pub memcmp_zero-append :
    (a b : Bytes) (n m : ℕ)
    → memcmp_zero a b (n + m) ≡ (memcmp_zero a b n && memcmp_zero (shift a n) (shift b n) m)
unfolding memcmp_zero
memcmp_zero-append a b n zero = rw (add-zero) (ground arith)
memcmp_zero-append a b n (suc m) = rw (add-suc) (ground (arith, memcmp_zero-append a b n m))

-- Comparing what is the same below `n`.
pub memcmp_zero_ext :
    (a a' b : Bytes) (n : ℕ) → Agree a a' n → memcmp_zero a b n ≡ memcmp_zero a' b n
unfolding memcmp_zero
memcmp_zero_ext a a' b zero h = refl
memcmp_zero_ext a a' b (suc n) h =
    ground (arith, h n (omega arith), memcmp_zero_ext a a' b n (λ k l. h k (omega arith)))

-- What a search for the first index below `n` with `P` may answer: none of them has it, or `p` has
-- it and none before.
abbrev pub FirstOf : (ℕ → Type 0) → ℕ → Option ℕ → Type 0
FirstOf P n none = (k : ℕ) → k < n → ¬ P k
FirstOf P n (some p) = (p < n) × P p × ((k : ℕ) → k < p → ¬ P k)

-- Equivalent predicates have the same first index.
pub FirstOf-ext :
    (P Q : ℕ → Type 0) (n : ℕ) (o : Option ℕ)
    → ((k : ℕ) → k < n → P k → Q k)
    → ((k : ℕ) → k < n → Q k → P k)
    → FirstOf P n o
    → FirstOf Q n o
FirstOf-ext P Q n none to from h = λ k l q. h k l (from k l q)
FirstOf-ext P Q n (some p) to from h =
    (h.0, to p h.0 h.1, λ k l q. h.2 k l (from k (omega arith) q))

-- What is found among the first `n` is the first of more.
pub FirstOf-left :
    (P : ℕ → Type 0) (n m p : ℕ) → n ≤ m → FirstOf P n (some p) → FirstOf P m (some p)
FirstOf-left P n m p l h = (omega arith, h.1, h.2)

-- A search that goes on behind the first `n`.
pub FirstOf-join :
    (P : ℕ → Type 0) (n m : ℕ) (o : Option ℕ)
    → FirstOf P n none
    → FirstOf (λ k. P (n + k)) m o
    → FirstOf P (n + m) (Option.map (λ p. n + p) o)
FirstOf-join P n m none a b = λ k l p. elim (dec_lt k n) [
  | yes i ↦ a k i p
  | no i ↦ b (k - n) (omega arith) (subst P (omega arith) p)
]
FirstOf-join P n m (some q) a b = (
  omega arith,
  b.1,
  λ k l p. elim (dec_lt k n) [
    | yes i ↦ a k i p
    | no i ↦ b.2 (k - n) (omega arith) (subst P (omega arith) p)
  ],
)

-- The same, of the indices from `i` on.
abbrev FirstFrom : (ℕ → Type 0) → ℕ → ℕ → Option ℕ → Type 0
FirstFrom P i n none = (k : ℕ) → i ≤ k → k < i + n → ¬ P k
FirstFrom P i n (some p) = (i ≤ p) × (p < i + n) × P p × ((k : ℕ) → i ≤ k → k < p → ¬ P k)

FirstFrom-here : (P : ℕ → Type 0) (i n : ℕ) → P i → FirstFrom P i (suc n) (some i)
FirstFrom-here P i n h = (omega arith, omega arith, h, λ k a b. absurd (omega arith))

FirstFrom-next :
    (P : ℕ → Type 0) (i n : ℕ) (o : Option ℕ)
    → ¬ P i
    → FirstFrom P (i + 1) n o
    → FirstFrom P i (suc n) o
FirstFrom-next P i n none no_i h = λ k a b p. elim (ℕ_discrete k i) [
  | yes e ↦ no_i (subst P e p)
  | no ne ↦ h k (omega arith) (omega arith) p
]
FirstFrom-next P i n (some q) no_i h = (
  omega arith,
  omega arith,
  h.2,
  λ k a b p. elim (ℕ_discrete k i) [
    | yes e ↦ no_i (subst P e p)
    | no ne ↦ h.3 k (omega arith) (omega arith) p
  ],
)

FirstFrom-zero : (P : ℕ → Type 0) (n : ℕ) (o : Option ℕ) → FirstFrom P 0 n o → FirstOf P n o
FirstFrom-zero P n none h = λ k l. h k (omega arith) (omega arith)
FirstFrom-zero P n (some p) h = (omega arith, h.2, λ k l. h.3 k (omega arith) l)

memchr_from_lem : (n : ℕ) (p : Bytes) (c i : ℕ) → FirstFrom (λ k. p k ≡ c) i n (memchr_from n p c i)
unfolding memchr_from
memchr_from_lem zero p c i = λ k a b. absurd (omega arith)
memchr_from_lem (suc n) p c i = elim (Bool-cases (p i == c)) [
  | inl e ↦ rw e (FirstFrom-here (λ k. p k ≡ c) i n (ground arith))
  | inr e ↦ rw e (
      FirstFrom-next (λ k. p k ≡ c) i n (memchr_from n p c (i + 1)) (ground arith)
        (memchr_from_lem n p c (i + 1)))
]

-- `memchr` finds the first `c` among `n` bytes, and none only if there is none.
pub memchr_lem : (p : Bytes) (c n : ℕ) → FirstOf (λ k. p k ≡ c) n (memchr p c n)
unfolding memchr
memchr_lem p c n = FirstFrom-zero (λ k. p k ≡ c) n (memchr_from n p c 0) (memchr_from_lem n p c 0)

pub memchr_zero : (p : Bytes) (c : ℕ) → memchr p c 0 ≡ none
unfolding memchr memchr_from
memchr_zero p c = refl

-- The string `s` of `len` bytes stands at offset `k` of `l`.
abbrev pub OccursAt : Bytes → Bytes → ℕ → ℕ → Type 0
OccursAt l s len k = Agree (shift l k) s len

-- The test of the loop of memmem.c decides whether the string stands there.
memmem_test-true :
    (l s : Bytes) (s_len i : ℕ)
    → (l i == s 0 && memcmp_zero (shift l i) s s_len) ≡ true
    → OccursAt l s s_len i
memmem_test-true l s s_len i h = memcmp_zero_sound (shift l i) s s_len (ground arith)

memmem_test-false :
    (l s : Bytes) (s_len i : ℕ)
    → 0 < s_len
    → (l i == s 0 && memcmp_zero (shift l i) s s_len) ≡ false
    → ¬ OccursAt l s s_len i
memmem_test-false l s s_len i h e o =
    let first : l i ≡ s 0 = ap l (omega arith) ∙ o 0 h in
    ground (arith, first, memcmp_zero_complete (shift l i) s s_len o)

memmem_from_lem :
    (n : ℕ) (l s : Bytes) (s_len i : ℕ)
    → 0 < s_len
    → FirstFrom (OccursAt l s s_len) i n (memmem_from n l s s_len i)
unfolding memmem_from
memmem_from_lem zero l s s_len i h = λ k a b. absurd (omega arith)
memmem_from_lem (suc n) l s s_len i h =
    elim (Bool-cases (l i == s 0 && memcmp_zero (shift l i) s s_len)) [
      | inl e ↦ rw e (FirstFrom-here (OccursAt l s s_len) i n (memmem_test-true l s s_len i e))
      | inr e ↦ rw e (
          FirstFrom-next (OccursAt l s s_len) i n (memmem_from n l s s_len (i + 1))
            (memmem_test-false l s s_len i h e) (memmem_from_lem n l s s_len (i + 1) h))
    ]

-- A one-byte string stands where its byte does.
FirstOf-byte :
    (l s : Bytes) (n : ℕ) (o : Option ℕ)
    → FirstOf (λ k. l k ≡ s 0) n o
    → FirstOf (OccursAt l s 1) n o
FirstOf-byte l s n none h = λ k b o. h k b (ap l (omega arith) ∙ o 0 (omega arith))
FirstOf-byte l s n (some p) h = (
  h.0,
  λ k b. ap l (omega arith) ∙ h.1 ∙ ap s (omega arith),
  λ k b o. h.2 k b (ap l (omega arith) ∙ o 0 (omega arith)),
)

memmem_many :
    (l : Bytes) (l_len : ℕ) (s : Bytes) (s_len : ℕ)
    → 0 < s_len
    → s_len ≤ l_len
    → (s_len == 1) ≡ false
    → memmem l l_len s s_len ≡ memmem_from (l_len - s_len + 1) l s s_len 0
unfolding memmem
memmem_many l l_len s s_len h b e = ground arith

memmem_one :
    (l : Bytes) (l_len : ℕ) (s : Bytes) → 0 < l_len → memmem l l_len s 1 ≡ memchr l (s 0) l_len
unfolding memmem
memmem_one l l_len s h = ground arith

-- For a string of at least one byte that is no longer than the memory, `memmem` finds the first
-- place at which all of the string fits, and none only if there is none.
pub memmem_lem :
    (l : Bytes) (l_len : ℕ) (s : Bytes) (s_len : ℕ)
    → 0 < s_len
    → s_len ≤ l_len
    → FirstOf (OccursAt l s s_len) (l_len - s_len + 1) (memmem l l_len s s_len)
memmem_lem l l_len s s_len h b = elim (Bool-cases (s_len == 1)) [
  | inl e ↦
      let one : s_len ≡ 1 = ==→eq s_len 1 e in
      subst (λ m. FirstOf (OccursAt l s m) (l_len - m + 1) (memmem l l_len s m)) (sym one)
        (rw (memmem_one l l_len s (omega arith)) (
          subst (λ m. FirstOf (OccursAt l s 1) m (memchr l (s 0) l_len)) {x = l_len} (omega arith)
            (FirstOf-byte l s l_len (memchr l (s 0) l_len) (memchr_lem l (s 0) l_len))))
  | inr e ↦ rw (memmem_many l l_len s s_len h b e) (
      FirstFrom-zero (OccursAt l s s_len) (l_len - s_len + 1)
        (memmem_from (l_len - s_len + 1) l s s_len 0)
        (memmem_from_lem (l_len - s_len + 1) l s s_len 0 h))
]

-- One more index.
pub FirstOf-snoc : (P : ℕ → Type 0) (n : ℕ) → FirstOf P n none → P n → FirstOf P (n + 1) (some n)
FirstOf-snoc P n h p = (omega arith, p, h)

pub FirstOf-snoc_none : (P : ℕ → Type 0) (n : ℕ) → FirstOf P n none → ¬ P n → FirstOf P (n + 1) none
FirstOf-snoc_none P n h no_n =
    λ k l p. elim (dec_lt k n) [ yes i ↦ h k i p | no i ↦ no_n (subst P (omega arith) p) ]
