-- ===== src/Ring/Search/Mem.antt =====
-- `rb_read_until_mem_iov` against the contents of the ring.
use chan_svistok.Base.{
  ℕ, zero, suc, ◌+◌, ◌-◌, ◌≤◌, ◌<◌, ◌≡◌, sym, ap, ◌∙◌, ◌↔◌, true, false, arith, add_size, sub_size,
  inl, inr, Option, none, Bool-cases,
}
use chan_svistok.Memory.{Bytes, shift, memcmp_zero, memmem, Agree, memcmp_zero_sound}
use chan_svistok.Memory.Find.{FirstOf, FirstOf-ext, OccursAt, memmem_lem}
use chan_svistok.Ring.{RingBuffer, IoVecs}
use chan_svistok.Ring.Inv.{IsValid}
use chan_svistok.Ring.Search.{
  found, stop, straddle_loop, read_until_straddle, rb_read_until_mem_iov,
}
use chan_svistok.Ring.Search.Char.{view, view-back, view-front, total}

-- A string stands at the same places of the ring and of the stretch at the back of the buffer.
pub OccursAt-back :
    (rb : RingBuffer) (mem : Bytes) (len k : ℕ)
    → rb.read + (k + len) ≤ rb.size
    → OccursAt (shift rb.buffer rb.read) mem len k ↔ OccursAt (view rb) mem len k
OccursAt-back rb mem len k h = (
  λ o j l. view-back rb (k + j) (omega arith) ∙ o j l,
  λ o j l. sym (view-back rb (k + j) (omega arith)) ∙ o j l,
)

pub OccursAt-front :
    (rb : RingBuffer) (mem : Bytes) (len k : ℕ)
    → rb.read < rb.size
    → OccursAt rb.buffer mem len k ↔ OccursAt (view rb) mem len ((rb.size - rb.read) + k)
OccursAt-front rb mem len k h = (λ o j l. at j ∙ o j l, λ o j l. sym (at j) ∙ o j l)
  where
    at : (j : ℕ) → view rb ((rb.size - rb.read) + k + j) ≡ rb.buffer (k + j)
    at j = ap (view rb) (omega arith) ∙ view-front rb (k + j) h

pub FirstOf-back :
    (rb : RingBuffer) (mem : Bytes) (len n : ℕ) (o : Option ℕ)
    → rb.read + (n + len) ≤ rb.size + 1
    → FirstOf (OccursAt (shift rb.buffer rb.read) mem len) n o
    → FirstOf (OccursAt (view rb) mem len) n o
FirstOf-back rb mem len n o h =
    FirstOf-ext (OccursAt (shift rb.buffer rb.read) mem len) (OccursAt (view rb) mem len) n o
      (λ k l. (OccursAt-back rb mem len k (omega arith)).0)
      (λ k l. (OccursAt-back rb mem len k (omega arith)).1)

-- One round of the loop.
straddle-stop :
    (rounds : ℕ) (rb : RingBuffer) (len0 : ℕ) (mem : Bytes) (len base1 i : ℕ)
    → 0 < rounds
    → memcmp_zero rb.buffer (shift mem i) i ≡ false
    → rb.used ≡ add_size len0 i
    → straddle_loop rounds rb len0 mem len base1 i ≡ stop base1
unfolding straddle_loop
straddle-stop zero rb len0 mem len base1 i h e u = absurd (omega arith)
straddle-stop (suc rounds) rb len0 mem len base1 i h e u = ground arith

straddle-found :
    (rounds : ℕ) (rb : RingBuffer) (len0 : ℕ) (mem : Bytes) (len base1 i : ℕ)
    → 0 < rounds
    → memcmp_zero (shift rb.buffer base1) mem (sub_size len i) ≡ true
    → memcmp_zero rb.buffer (shift mem i) i ≡ true
    → straddle_loop rounds rb len0 mem len base1 i ≡ found base1
unfolding straddle_loop
straddle-found zero rb len0 mem len base1 i h e f = absurd (omega arith)
straddle-found (suc rounds) rb len0 mem len base1 i h e f = ground arith

module _ (rb : RingBuffer) (iov : IoVecs) (mem : Bytes) (len : ℕ) (v : IsValid rb) where
  mem_plain :
      1 < len
      → len ≤ rb.used
      → rb.read + rb.used ≤ rb.size
      → total (rb_read_until_mem_iov rb iov mem len)
        ≡ memmem (shift rb.buffer rb.read) rb.used mem len
  unfolding rb_read_until_mem_iov add_size sub_size
  mem_plain p h w = ground arith

  -- If the bytes held do not go round the end of the buffer, `rb_read_until_mem_iov` with a string of
  -- at least two bytes finds its first occurrence, and the result is 0 only if there is none.
  pub rb_read_until_mem_iov_plain :
      1 < len
      → len ≤ rb.used
      → rb.read + rb.used ≤ rb.size
      → FirstOf
          (OccursAt (view rb) mem len)
          (rb.used - len + 1)
          (total (rb_read_until_mem_iov rb iov mem len))
  rb_read_until_mem_iov_plain p h w = rw (mem_plain p h w) (
      FirstOf-back rb mem len (rb.used - len + 1) (memmem (shift rb.buffer rb.read) rb.used mem len)
        (omega arith) (memmem_lem (shift rb.buffer rb.read) rb.used mem len (omega arith) h))

  -- A valid ring holds exactly a string of more than one byte, and the string goes round the end
  -- of the buffer with `i = len - (size - read)` bytes at the front. If the `i` bytes of the
  -- string from `i` on, with which the code compares the front, are not its last `i` bytes,
  -- `rb_read_until_mem_iov` finds nothing.
  pub rb_read_until_mem_iov_misses :
      1 < len
      → rb.used ≡ len
      → rb.size < rb.read + rb.used
      → Agree (view rb) mem len
      → ¬ Agree
          (shift mem (rb.size - rb.read))
          (shift mem (len - (rb.size - rb.read)))
          (len - (rb.size - rb.read))
      → total (rb_read_until_mem_iov rb iov mem len) ≡ none
  unfolding rb_read_until_mem_iov read_until_straddle sub_size add_size
  rb_read_until_mem_iov_misses p u w occurs differ =
      elim (Bool-cases (memcmp_zero rb.buffer (shift mem i) i)) [
        | inl e ↦ absurd (
            differ (λ k l.
              sym (occurs ((rb.size - rb.read) + k) (omega arith))
              ∙ view-front rb k v.read_in
              ∙ memcmp_zero_sound rb.buffer (shift mem i) i e k l))
        | inr e ↦
            ground
              (arith, straddle-stop (sub_size len i) rb (rb.size - rb.read) mem len rb.read i, e)
      ]
    where
      i : ℕ
      i = len - (rb.size - rb.read)
