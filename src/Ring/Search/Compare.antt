-- ===== src/Ring/Search/Compare.antt =====
-- `rb_memcmp` against the contents of the ring.
use native.Mathlib.Decide.{dec_lt}
use chan_svistok.Base.{
  ℕ, ◌+◌, ◌-◌, ◌≤◌, ◌<◌, ◌≡◌, refl, ap, ap₂, ◌∙◌, ◌↔◌, ◌&&◌, if◌then◌else◌, arith, add_size,
  sub_size, pos, negsuc,
}
use chan_svistok.Memory.{Bytes, shift, memcmp_zero, Agree, memcmp_zero_sound, memcmp_zero_complete}
use chan_svistok.Memory.Find.{memcmp_zero-append, memcmp_zero_ext}
use chan_svistok.Ring.{RingBuffer, rb_memcmp}
use chan_svistok.Ring.Inv.{IsValid}
use chan_svistok.Ring.Search.Char.{view, view-back, view-front}

module _ (rb : RingBuffer) (mem : Bytes) (len : ℕ) (v : IsValid rb) (pos_len : 0 < len) where
  -- One comparison of the bytes held stands for the two of the code.
  compare_plain :
      rb.read + len ≤ rb.size
      → memcmp_zero (view rb) mem len ≡ memcmp_zero (shift rb.buffer rb.read) mem len
  compare_plain h =
      memcmp_zero_ext (view rb) (shift rb.buffer rb.read) mem len
        (λ k l. view-back rb k (omega arith))

  compare_wrapped :
      rb.size < rb.read + len
      → memcmp_zero (view rb) mem len ≡ (
          memcmp_zero (shift rb.buffer rb.read) mem (rb.size - rb.read)
          && memcmp_zero rb.buffer (shift mem (rb.size - rb.read)) (len - (rb.size - rb.read)))
  compare_wrapped h =
      ap (memcmp_zero (view rb) mem) (split)
      ∙ memcmp_zero-append (view rb) mem n (len - n)
      ∙ ap₂ ◌&&◌
          (memcmp_zero_ext (view rb) (shift rb.buffer rb.read) mem n
            (λ k l. view-back rb k (omega arith)))
          (memcmp_zero_ext (shift (view rb) n) rb.buffer (shift mem n) (len - n)
            (λ k l. view-front rb k v.read_in))
    where
      n : ℕ
      n = rb.size - rb.read

      split : len ≡ n + (len - n)
      split = omega arith

  rb_memcmp-view :
      len ≤ rb.used
      → rb_memcmp rb mem len ≡ (if memcmp_zero (view rb) mem len then pos 0 else pos 1)
  unfolding rb_memcmp add_size sub_size
  rb_memcmp-view h = elim (dec_lt rb.size (rb.read + len)) [
    | yes w ↦ rw (compare_wrapped w) (ground arith)
    | no w ↦ rw (compare_plain (omega arith)) (ground arith)
  ]

  -- On a valid ring `rb_memcmp` with a string of at least one byte is 0 exactly if the ring holds
  -- that many bytes and begins with the string, and -1 exactly if it holds fewer.
  pub rb_memcmp_lem :
      ((rb_memcmp rb mem len ≡ pos 0) ↔ ((len ≤ rb.used) × Agree (view rb) mem len))
      × ((rb_memcmp rb mem len ≡ negsuc 0) ↔ (rb.used < len))
  unfolding rb_memcmp
  rb_memcmp_lem = elim (dec_lt rb.used len) [
    | yes short ↦ ((λ e. ground arith, λ h. absurd (omega arith)), (λ e. short, λ h. ground arith))
    | no enough ↦
        let e = rb_memcmp-view (omega arith) in
        (
          (
            λ z. (omega arith, memcmp_zero_sound (view rb) mem len (ground (arith, e))),
            λ h. e ∙ rw (memcmp_zero_complete (view rb) mem len h.1) refl,
          ),
          (λ z. ground (arith, e), λ h. absurd (omega arith)),
        )
  ]
