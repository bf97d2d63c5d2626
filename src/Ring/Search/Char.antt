-- ===== src/Ring/Search/Char.antt =====
-- `rb_memcmp` and `rb_read_until_char_iov` against the contents of the ring.
use mathlib.Core.Option
use native.Mathlib.Decide.{dec_lt}
use chan_svistok.Base.{
  ℕ, ◌+◌, ◌-◌, ◌≤◌, ◌<◌, ◌≡◌, sym, ◌∙◌, ◌==◌, if◌then◌else◌, arith, add_size, sub_size, inl, inr,
  subst, Option, none, some, Option-cases,
}
use chan_svistok.Memory.{Bytes, shift, memchr}
use chan_svistok.Memory.Find.{
  FirstOf, FirstOf-ext, FirstOf-join, FirstOf-left, memchr_lem, memchr_zero,
}
use chan_svistok.Ring.{RingBuffer, IoVecs, wrap}
use chan_svistok.Ring.Inv.{IsValid}
use chan_svistok.Ring.Search.{rb_read_until_char_iov}

-- The bytes that are held, from a pointer on.
abbrev pub view : RingBuffer → Bytes
view rb = λ k. rb.buffer (wrap rb.size (rb.read + k))

-- The length that a caller adds up from the vectors, or none for the result 0.
abbrev pub total : ℕ × IoVecs → Option ℕ
total (count, iov) = if count == 0 then none else some (iov.len0 + iov.len1)

-- Where the byte `k` of the ring lies.
pub view-back :
    (rb : RingBuffer) (k : ℕ) → rb.read + k < rb.size → view rb k ≡ rb.buffer (rb.read + k)
unfolding wrap
view-back rb k h = ground arith

pub view-front :
    (rb : RingBuffer) (k : ℕ) → rb.read < rb.size → view rb ((rb.size - rb.read) + k) ≡ rb.buffer k
unfolding wrap
view-front rb k h = ground arith

-- Searching the stretch at the back of the buffer is searching the first bytes that are held.
pub FirstOf-back :
    (rb : RingBuffer) (n c : ℕ) (o : Option ℕ)
    → rb.read + n ≤ rb.size
    → FirstOf (λ k. shift rb.buffer rb.read k ≡ c) n o
    → FirstOf (λ k. view rb k ≡ c) n o
FirstOf-back rb n c o h =
    FirstOf-ext (λ k. shift rb.buffer rb.read k ≡ c) (λ k. view rb k ≡ c) n o
      (λ k l e. view-back rb k (omega arith) ∙ e) (λ k l e. sym (view-back rb k (omega arith)) ∙ e)

module _ (rb : RingBuffer) (iov : IoVecs) (c : ℕ) (v : IsValid rb) where
  char_plain :
      rb.read + rb.used ≤ rb.size
      → total (rb_read_until_char_iov rb iov c) ≡ memchr (shift rb.buffer rb.read) c rb.used
  unfolding rb_read_until_char_iov add_size sub_size
  char_plain w = ground (arith, memchr_zero (shift rb.buffer rb.read) c)

  char_back :
      (p : ℕ)
      → rb.size < rb.read + rb.used
      → memchr (shift rb.buffer rb.read) c (rb.size - rb.read) ≡ some p
      → total (rb_read_until_char_iov rb iov c) ≡ some p
  unfolding rb_read_until_char_iov add_size sub_size
  char_back p w e = ground arith

  char_front :
      rb.size < rb.read + rb.used
      → memchr (shift rb.buffer rb.read) c (rb.size - rb.read) ≡ none
      → total (rb_read_until_char_iov rb iov c)
        ≡ Option.map
            (λ p. (rb.size - rb.read) + p)
            (memchr rb.buffer c (rb.used - (rb.size - rb.read)))
  unfolding rb_read_until_char_iov add_size sub_size
  char_front w e = ground arith

  -- On a valid ring `rb_read_until_char_iov` finds the first byte `c` that is held: the lengths of
  -- the vectors add up to its place, and the result is 0 only if there is none.
  pub rb_read_until_char_iov_lem :
      FirstOf (λ k. view rb k ≡ c) rb.used (total (rb_read_until_char_iov rb iov c))
  rb_read_until_char_iov_lem = elim (dec_lt rb.size (rb.read + rb.used)) [
    | no w ↦ rw (char_plain (omega arith)) (
        FirstOf-back rb rb.used c (memchr (shift rb.buffer rb.read) c rb.used) (omega arith)
          (memchr_lem (shift rb.buffer rb.read) c rb.used))
    | yes w ↦ elim (Option-cases (memchr (shift rb.buffer rb.read) c (rb.size - rb.read))) [
      | inl e ↦ rw (char_front w e) (
          subst
            (λ n.
              FirstOf (λ k. view rb k ≡ c) n
                (Option.map (λ p. (rb.size - rb.read) + p)
                  (memchr rb.buffer c (rb.used - (rb.size - rb.read)))))
            {x = (rb.size - rb.read) + (rb.used - (rb.size - rb.read))} (omega arith)
            (FirstOf-join (λ k. view rb k ≡ c) (rb.size - rb.read) (rb.used - (rb.size - rb.read))
              (memchr rb.buffer c (rb.used - (rb.size - rb.read)))
              (FirstOf-back rb (rb.size - rb.read) c none (omega arith) (
                subst (FirstOf (λ k. shift rb.buffer rb.read k ≡ c) (rb.size - rb.read)) e
                  (memchr_lem (shift rb.buffer rb.read) c (rb.size - rb.read))))
              (FirstOf-ext (λ k. rb.buffer k ≡ c) (λ k. view rb ((rb.size - rb.read) + k) ≡ c)
                (rb.used - (rb.size - rb.read)) (memchr rb.buffer c (rb.used - (rb.size - rb.read)))
                (λ k l q. view-front rb k v.read_in ∙ q)
                (λ k l q. sym (view-front rb k v.read_in) ∙ q)
                (memchr_lem rb.buffer c (rb.used - (rb.size - rb.read))))))
      | inr (p, e) ↦ rw (char_back p w e) (
          FirstOf-left (λ k. view rb k ≡ c) (rb.size - rb.read) rb.used p (omega arith)
            (FirstOf-back rb (rb.size - rb.read) c (some p) (omega arith) (
              subst (FirstOf (λ k. shift rb.buffer rb.read k ≡ c) (rb.size - rb.read)) e
                (memchr_lem (shift rb.buffer rb.read) c (rb.size - rb.read)))))
    ]
  ]
