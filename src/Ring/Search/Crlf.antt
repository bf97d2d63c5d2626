-- ===== src/Ring/Search/Crlf.antt =====
-- `rb_read_until_mem_iov` with a string of two bytes, as the reader of the device calls it for
-- "\r\n", in a ring whose bytes go round the end of the buffer.
use mathlib.Core.Option
use native.Mathlib.Decide.{dec_lt}
use chan_svistok.Base.{
  ℕ, zero, suc, ◌+◌, ◌-◌, ◌≤◌, ◌<◌, ◌≡◌, sym, ap, ap₂, ◌∙◌, Bool, true, false, leb, ◌&&◌,
  if◌then◌else◌, arith, add_size, sub_size, inl, inr, subst, Option, none, some, Bool-cases,
  Option-cases, lt→leb, le→leb,
}
use chan_svistok.Memory.{Bytes, shift, memcmp_zero, memmem, memcmp_zero_sound, memcmp_zero_complete}
use chan_svistok.Memory.Find.{
  FirstOf, FirstOf-ext, FirstOf-join, FirstOf-left, FirstOf-snoc, FirstOf-snoc_none, OccursAt,
  memmem_lem,
}
use chan_svistok.Ring.{RingBuffer, IoVecs}
use chan_svistok.Ring.Inv.{IsValid}
use chan_svistok.Ring.Search.{
  straddle_loop, read_until_front, read_until_straddle, rb_read_until_mem_iov,
}
use chan_svistok.Ring.Search.Char.{view, view-back, view-front, total}
use chan_svistok.Ring.Search.Mem.{OccursAt-front, FirstOf-back, rb_read_until_mem_iov_plain}

below_two : (P : ℕ → Type 0) → P 0 → P 1 → (k : ℕ) → k < 2 → P k
below_two P zeroth first zero l = zeroth
below_two P zeroth first (suc zero) l = first
below_two P zeroth first (suc (suc k)) l = absurd (omega arith)

module _ (rb : RingBuffer) (iov : IoVecs) (mem : Bytes) (v : IsValid rb) where
  -- The bytes at the back of the buffer.
  abbrev back_len : ℕ
  back_len = rb.size - rb.read

  -- What the code looks for first: an occurrence in the back part alone.
  abbrev in_back : Option ℕ
  in_back = if leb 2 back_len then memmem (shift rb.buffer rb.read) back_len mem 2 else none

  -- The test of the loop's only round.
  abbrev across : Bool
  across =
      memcmp_zero (shift rb.buffer (rb.read + back_len - 1)) mem 1
      && memcmp_zero rb.buffer (shift mem 1) 1

  two_back :
      (p : ℕ)
      → 2 ≤ rb.used
      → rb.size < rb.read + rb.used
      → in_back ≡ some p
      → total (rb_read_until_mem_iov rb iov mem 2) ≡ some p
  unfolding rb_read_until_mem_iov add_size sub_size
  two_back p h w e = ground arith

  two_straddle :
      2 ≤ rb.used
      → rb.size < rb.read + rb.used
      → in_back ≡ none
      → rb_read_until_mem_iov rb iov mem 2 ≡ read_until_straddle rb iov mem 2 back_len
  unfolding rb_read_until_mem_iov add_size sub_size
  two_straddle h w e = ground arith

  straddle_across :
      across ≡ true → total (read_until_straddle rb iov mem 2 back_len) ≡ some (back_len - 1)
  unfolding read_until_straddle straddle_loop sub_size add_size
  straddle_across e = ground arith

  straddle_over :
      across ≡ false
      → rb.size < rb.read + rb.used
      → total (read_until_straddle rb iov mem 2 back_len) ≡ (
          if leb (back_len + 2) rb.used
          then Option.map (λ p. back_len + p) (memmem rb.buffer (rb.used - back_len) mem 2)
          else none)
  unfolding read_until_straddle straddle_loop read_until_front sub_size add_size
  straddle_over e w = ground arith

  last_back : view rb (back_len - 1) ≡ rb.buffer (rb.read + back_len - 1)
  last_back =
      view-back rb (back_len - 1) (omega (arith, v.read_in))
      ∙ ap rb.buffer (omega (arith, v.read_in))

  first_front : view rb (back_len - 1 + 1) ≡ rb.buffer 0
  first_front = ap (view rb) (omega (arith, v.read_in)) ∙ view-front rb 0 v.read_in

  across-OccursAt : across ≡ true → OccursAt (view rb) mem 2 (back_len - 1)
  across-OccursAt e =
      below_two (λ k. view rb (back_len - 1 + k) ≡ mem k)
        (ap (view rb) (omega arith)
          ∙ last_back
          ∙ ap rb.buffer (omega arith)
          ∙ memcmp_zero_sound (shift rb.buffer (rb.read + back_len - 1)) mem 1 (ground arith) 0
              (omega arith))
        (first_front
          ∙ memcmp_zero_sound rb.buffer (shift mem 1) 1 (ground arith) 0 (omega arith)
          ∙ ap mem (omega arith))

  OccursAt-across : OccursAt (view rb) mem 2 (back_len - 1) → across ≡ true
  OccursAt-across o =
      ap₂ ◌&&◌
        (memcmp_zero_complete (shift rb.buffer (rb.read + back_len - 1)) mem 1 (λ k l.
          let z : k ≡ 0 = omega arith in
          rw (z) (
            ap rb.buffer (omega arith)
            ∙ sym last_back
            ∙ ap (view rb) (omega arith)
            ∙ o 0 (omega arith))))
        (memcmp_zero_complete rb.buffer (shift mem 1) 1 (λ k l.
          let z : k ≡ 0 = omega arith in
          rw (z) (sym first_front ∙ o 1 (omega arith) ∙ ap mem (omega arith))))

  in_back_lem : 2 ≤ rb.used → FirstOf (OccursAt (view rb) mem 2) (back_len - 1) in_back
  in_back_lem h = elim (dec_lt back_len 2) [
    | yes short ↦ rw (lt→leb back_len 2 short) (λ k l. absurd (omega arith))
    | no long ↦ rw (le→leb 2 back_len (omega arith)) (
        subst
          (λ n.
            FirstOf (OccursAt (view rb) mem 2) n (memmem (shift rb.buffer rb.read) back_len mem 2))
          {x = back_len - 2 + 1} (omega arith)
          (FirstOf-back rb mem 2 (back_len - 2 + 1)
            (memmem (shift rb.buffer rb.read) back_len mem 2) (omega arith)
            (memmem_lem (shift rb.buffer rb.read) back_len mem 2 (omega arith) (omega arith))))
  ]

  -- What lies wholly in the front part.
  front_lem :
      back_len + 2 ≤ rb.used
      → FirstOf
          (λ k. OccursAt (view rb) mem 2 (back_len + k))
          (rb.used - back_len - 2 + 1)
          (memmem rb.buffer (rb.used - back_len) mem 2)
  front_lem l =
      FirstOf-ext (OccursAt rb.buffer mem 2) (λ k. OccursAt (view rb) mem 2 (back_len + k))
        (rb.used - back_len - 2 + 1) (memmem rb.buffer (rb.used - back_len) mem 2)
        (λ k b. (OccursAt-front rb mem 2 k v.read_in).0)
        (λ k b. (OccursAt-front rb mem 2 k v.read_in).1)
        (memmem_lem rb.buffer (rb.used - back_len) mem 2 (omega arith) (omega arith))

  after_back :
      rb.size < rb.read + rb.used
      → FirstOf (OccursAt (view rb) mem 2) back_len none
      → FirstOf (OccursAt (view rb) mem 2) (rb.used - 1) (
          if leb (back_len + 2) rb.used
          then Option.map (λ p. back_len + p) (memmem rb.buffer (rb.used - back_len) mem 2)
          else none)
  after_back w none_before = elim (dec_lt rb.used (back_len + 2)) [
    | yes short ↦
        rw (lt→leb rb.used (back_len + 2) short) (λ k l. none_before k (omega (arith, v.read_in)))
    | no long ↦ rw (le→leb (back_len + 2) rb.used (omega arith)) (
        subst
          (λ n.
            FirstOf (OccursAt (view rb) mem 2) n
              (Option.map (λ p. back_len + p) (memmem rb.buffer (rb.used - back_len) mem 2)))
          {x = back_len + (rb.used - back_len - 2 + 1)} (omega arith)
          (FirstOf-join (OccursAt (view rb) mem 2) back_len (rb.used - back_len - 2 + 1)
            (memmem rb.buffer (rb.used - back_len) mem 2) none_before (front_lem (omega arith))))
  ]

  -- What follows when nothing lies in the back part alone.
  straddle_lem :
      rb.size < rb.read + rb.used
      → FirstOf (OccursAt (view rb) mem 2) (back_len - 1) none
      → FirstOf
          (OccursAt (view rb) mem 2)
          (rb.used - 1)
          (total (read_until_straddle rb iov mem 2 back_len))
  straddle_lem w no_back = elim (Bool-cases across) [
    | inl e ↦ rw (straddle_across e) (
        FirstOf-left (OccursAt (view rb) mem 2) (back_len - 1 + 1) (rb.used - 1) (back_len - 1)
          (omega (arith, v.read_in))
          (FirstOf-snoc (OccursAt (view rb) mem 2) (back_len - 1) no_back (across-OccursAt e)))
    | inr e ↦ rw (straddle_over e w) (
        after_back w (
          subst (λ n. FirstOf (OccursAt (view rb) mem 2) n none) {x = back_len - 1 + 1}
            (omega (arith, v.read_in))
            (FirstOf-snoc_none (OccursAt (view rb) mem 2) (back_len - 1) no_back
              (λ o. cc (OccursAt-across o)))))
  ]

  -- With a string of two bytes, on a valid ring that holds at least two, `rb_read_until_mem_iov`
  -- finds the first occurrence among the bytes held, whether or not they go round the end of the
  -- buffer, and the result is 0 only if there is none.
  pub rb_read_until_mem_iov_two :
      2 ≤ rb.used
      → FirstOf
          (OccursAt (view rb) mem 2)
          (rb.used - 1)
          (total (rb_read_until_mem_iov rb iov mem 2))
  rb_read_until_mem_iov_two h = elim (dec_lt rb.size (rb.read + rb.used)) [
    | no w ↦
        subst
          (λ n. FirstOf (OccursAt (view rb) mem 2) n (total (rb_read_until_mem_iov rb iov mem 2)))
          {x = rb.used - 2 + 1} (omega arith)
          (rb_read_until_mem_iov_plain rb iov mem 2 v (omega arith) h (omega arith))
    | yes w ↦ elim (Option-cases in_back) [
      | inl e ↦ rw (two_straddle h w e) (
          straddle_lem w
            (subst (FirstOf (OccursAt (view rb) mem 2) (back_len - 1)) e (in_back_lem h)))
      | inr (p, e) ↦ rw (two_back p h w e) (
          FirstOf-left (OccursAt (view rb) mem 2) (back_len - 1) (rb.used - 1) p (omega arith)
            (subst (FirstOf (OccursAt (view rb) mem 2) (back_len - 1)) e (in_back_lem h)))
    ]
  ]
