-- ===== src/Mix/Write.antt =====
-- `mixb_write` keeps the invariant of the mix buffer.
use chan_svistok.Base.{
  ℕ, ◌+◌, ◌-◌, ◌≤◌, ◌≡◌, refl, inl, inr, ltb, Bool-cases, min, arith, sub_size, sub_size_lem,
  ltb→le, true,
}
use chan_svistok.Memory.{Bytes, shift, memmove}
use chan_svistok.Ring.{RingBuffer, rb_write_core, rb_write}
use chan_svistok.Ring.Inv.{IsValid, rb_write_core-IsValid}
use chan_svistok.Ring.Write.{rb_write_core_fields}
use chan_svistok.Mix.{
  MixStream, MixBuffer, SaturatedAdd, update, local, mixb_mix_write, mix_then_copy, mixb_write,
  saturated_sum,
}
use chan_svistok.Mix.Inv.{
  StreamOk, StreamOk-grow, IsMix, All, All-imp, listed, Streams, listed_of_All, update-Ok,
}

-- The parts stay parts when the ring grows and one stream is written.
Streams-update :
    (mb : MixBuffer) (rb' : RingBuffer) (s : ℕ) (new : MixStream)
    → rb'.size ≡ mb.rb.size
    → rb'.read ≡ mb.rb.read
    → mb.rb.used ≤ rb'.used
    → StreamOk rb' new
    → Streams mb
    → All (λ t. StreamOk rb' (update mb.store s new t)) mb.streams
Streams-update mb rb' s new e f g ok =
    All-imp (λ t. StreamOk mb.rb (mb.store t)) (λ t. StreamOk rb' (update mb.store s new t))
      mb.streams (λ t o. update-Ok (StreamOk rb') mb.store s t new ok (StreamOk-grow e f g o))

module _ (sat : SaturatedAdd) where
  -- What `mixb_mix_write` leaves of the ring's fields.
  mix_write_fields :
      (mb : MixBuffer) (s : ℕ) (buf : Bytes) (len : ℕ)
      → StreamOk mb.rb (mb.store s)
      → let rb' = (mixb_mix_write sat mb s buf len).1.rb in
        (rb'.size ≡ mb.rb.size)
        × (rb'.read ≡ mb.rb.read)
        × (rb'.used ≡ mb.rb.used)
        × (rb'.write ≡ mb.rb.write)
  unfolding mixb_mix_write local
  mix_write_fields mb s buf len ok =
      let f = rb_write_core_fields (local mb.rb (mb.store s)) buf len (saturated_sum sat) ok.view in
      (f.2, f.3, refl, refl)

  same-IsValid :
      (rb rb' : RingBuffer)
      → (rb'.size ≡ rb.size) × (rb'.read ≡ rb.read) × (rb'.used ≡ rb.used) × (rb'.write ≡ rb.write)
      → IsValid rb
      → IsValid rb'
  same-IsValid rb rb' (e, f, g, h) v = ground arith

  mixb_mix_write-IsMix :
      (mb : MixBuffer) (s : ℕ) (buf : Bytes) (len : ℕ)
      → StreamOk mb.rb (mb.store s)
      → len ≤ mb.rb.used - (mb.store s).used
      → IsMix mb
      → IsMix (mixb_mix_write sat mb s buf len).1
  unfolding mixb_mix_write local
  mixb_mix_write-IsMix mb s buf len ok h v = record {
    ring = same-IsValid mb.rb mb'.rb (mix_write_fields mb s buf len ok) v.ring;
    parts =
        Streams-update mb mb'.rb s (record { used = rb'.used; write = rb'.write })
          (mix_write_fields mb s buf len ok).0 (mix_write_fields mb s buf len ok).1
          (omega (arith, (mix_write_fields mb s buf len ok).2)) written v.parts;
    distinct = v.distinct;
    counted = v.counted;
  }
    where
      mb' : MixBuffer
      mb' = (mixb_mix_write sat mb s buf len).1

      rb' : RingBuffer
      rb' = (rb_write_core (local mb.rb (mb.store s)) buf len (saturated_sum sat)).1

      written : StreamOk mb'.rb (record { used = rb'.used; write = rb'.write })
      written = record {
        fill = omega (
          arith,
          (rb_write_core_fields (local mb.rb (mb.store s)) buf len (saturated_sum sat) ok.view).1,
          ok.fill,
        );
        view = rb_write_core-IsValid buf len (saturated_sum sat) ok.view;
      }

  -- The copy behind what is mixed.
  copy-IsMix :
      (mb : MixBuffer) (s : ℕ) (buf : Bytes) (len : ℕ)
      → IsMix mb
      → let rb' = (rb_write mb.rb buf len).1 in
        IsMix (record mb {
          rb = rb';
          store = update mb.store s (record { used = rb'.used; write = rb'.write });
        })
  unfolding rb_write local
  copy-IsMix mb s buf len v = record {
    ring = rb_write_core-IsValid buf len memmove v.ring;
    parts =
        Streams-update mb rb' s (record { used = rb'.used; write = rb'.write }) fields.2 fields.3
          (omega (arith, fields.1))
          (record { fill = omega arith; view = rb_write_core-IsValid buf len memmove v.ring })
          v.parts;
    distinct = v.distinct;
    counted = v.counted;
  }
    where
      rb' : RingBuffer
      rb' = (rb_write mb.rb buf len).1

      fields :
          ((rb_write mb.rb buf len).0 ≡ min len (mb.rb.size - mb.rb.used))
          × (rb'.used ≡ mb.rb.used + min len (mb.rb.size - mb.rb.used))
          × (rb'.size ≡ mb.rb.size)
          × (rb'.read ≡ mb.rb.read)
      fields = rb_write_core_fields mb.rb buf len memmove v.ring

  mix_then_copy-IsMix :
      (mb : MixBuffer) (s : ℕ) (buf : Bytes) (len : ℕ)
      → listed s mb.streams ≡ true
      → IsMix mb
      → IsMix (mix_then_copy sat mb s buf len (sub_size mb.rb.used (mb.store s).used))
  unfolding mix_then_copy
  mix_then_copy-IsMix mb s buf len h v = elim (Bool-cases (ltb 0 max_mix)) [
    | inl e ↦ rw e (
        copy-IsMix (mixb_mix_write sat mb s buf max_mix).1 s (shift buf max_mix)
          (sub_size len max_mix)
          (mixb_mix_write-IsMix mb s buf max_mix (part h)
            (omega (
              arith,
              sub_size_lem mb.rb.used (mb.store s).used,
              (part h).fill,
              v.ring.used_in,
              v.ring.small,
            ))
            v))
    | inr e ↦ rw e (copy-IsMix mb s (shift buf max_mix) (sub_size len max_mix) v)
  ]
    where
      max_mix : ℕ
      max_mix = sub_size mb.rb.used (mb.store s).used

      part : listed s mb.streams ≡ true → StreamOk mb.rb (mb.store s)
      part l = listed_of_All (λ t. StreamOk mb.rb (mb.store t)) mb.streams s l v.parts

  -- `mixb_write` to an attached stream keeps the invariant of the mix buffer, also where the new
  -- bytes reach past what the other streams have put.
  pub mixb_write-IsMix :
      (mb : MixBuffer) (s : ℕ) (buf : Bytes) (len : ℕ)
      → listed s mb.streams ≡ true
      → IsMix mb
      → IsMix (mixb_write sat mb s buf len).1
  unfolding mixb_write
  mixb_write-IsMix mb s buf len h v = elim (Bool-cases (ltb 0 n)) [
    | inr e ↦ rw e v
    | inl e ↦ elim (Bool-cases (ltb max_mix n)) [
      | inl more ↦ rw (e, more) (mix_then_copy-IsMix mb s buf n h v)
      | inr fits ↦
          rw (e, fits)
            (mixb_mix_write-IsMix mb s buf n part
              (omega (
                arith,
                ltb→le max_mix n fits,
                sub_size_lem mb.rb.used (mb.store s).used,
                part.fill,
                v.ring.used_in,
                v.ring.small,
              ))
              v)
    ]
  ]
    where
      n : ℕ
      n = (mixb_write sat mb s buf len).0

      max_mix : ℕ
      max_mix = sub_size mb.rb.used (mb.store s).used

      part : StreamOk mb.rb (mb.store s)
      part = listed_of_All (λ t. StreamOk mb.rb (mb.store t)) mb.streams s h v.parts
