-- ===== src/Mix.antt =====
-- mixbuffer.c and mixbuffer.h: several audio streams mixed into one ring. The streams are structures
-- of the channels, so they live in a store by address, and the buffer lists their addresses.
pub mod Sum
pub mod Inv
pub mod Write
mod Tests
use chan_svistok.Base.{
  ℕ, zero, suc, ◌+◌, ◌/◌, List, [], ◌∷◌, ◌++◌, map, ltb, leb, ◌==◌, if◌then◌else◌, add_size,
  sub_size, add_uint, sub_uint,
}
use chan_svistok.Memory.{Bytes, shift}
use chan_svistok.Ring.{
  RingBuffer, IoVecs, Method, rb_init, rb_used, rb_read_upd, rb_write_core, rb_write,
  rb_read_all_iov, rb_read_n_iov,
}

-- `struct mixstream`, but for its link.
pub record MixStream : Type 0 where
  pub used : ℕ
  pub write : ℕ

-- `struct mixbuffer`, with the streams that it may name.
pub record MixBuffer : Type 0 where
  pub streams : List ℕ
  pub store : ℕ → MixStream
  pub rb : RingBuffer
  pub attached : ℕ

unfoldable pub update : (ℕ → MixStream) → ℕ → MixStream → ℕ → MixStream
update store s stream t = if t == s then stream else store t

-- `AST_LIST_REMOVE`: the first entry that is `s` goes.
unfoldable pub remove : ℕ → List ℕ → List ℕ
remove s [] = []
remove s (t ∷ ts) = if t == s then ts else t ∷ remove s ts

unfoldable pub mixb_init : (ℕ → MixStream) → Bytes → ℕ → MixBuffer
unfolding rb_init
mixb_init store buf len = record { streams = []; store = store; rb = rb_init buf len; attached = 0 }

unfoldable pub mixb_attach : MixBuffer → ℕ → MixBuffer
unfolding update
mixb_attach mb s = record mb {
  streams = mb.streams ++ (s ∷ []);
  store = update mb.store s (record { used = 0; write = mb.rb.read });
  attached = add_uint mb.attached 1;
}

unfoldable pub mixb_detach : MixBuffer → ℕ → MixBuffer
unfolding remove
mixb_detach mb s = record mb { streams = remove s mb.streams; attached = sub_uint mb.attached 1 }

unfoldable pub mixb_free : MixBuffer → ℕ → ℕ
mixb_free mb s = sub_size mb.rb.size (mb.store s).used

abbrev pub mixb_used : MixBuffer → ℕ
mixb_used mb = rb_used mb.rb

abbrev pub mixb_read_all_iov : MixBuffer → IoVecs → ℕ × IoVecs
mixb_read_all_iov mb iov = rb_read_all_iov mb.rb iov

abbrev pub mixb_read_n_iov : MixBuffer → IoVecs → ℕ → ℕ × IoVecs
mixb_read_n_iov mb iov len = rb_read_n_iov mb.rb iov len

abbrev pub mixb_streams : MixBuffer → ℕ
mixb_streams mb = mb.attached

-- What one stream is after `mixb_read_upd`: all streams have one read position.
unfoldable pub advance : RingBuffer → ℕ → MixStream → MixStream
advance rb len stream = record {
  used = used;
  write = if leb rb.size w then sub_size w rb.size else w;
}
  where
    used : ℕ
    used = if ltb len stream.used then sub_size stream.used len else 0

    w : ℕ
    w = add_size rb.read used

-- The traversal of the list of streams.
unfoldable pub advance_all : RingBuffer → ℕ → List ℕ → (ℕ → MixStream) → ℕ → MixStream
unfolding update
advance_all rb len [] store = store
advance_all rb len (s ∷ ss) store =
    advance_all rb len ss (update store s (advance rb len (store s)))

unfoldable pub mixb_read_upd : MixBuffer → ℕ → ℕ × MixBuffer
mixb_read_upd mb len =
    let (rv, rb') = rb_read_upd mb.rb len in
    (rv, record mb { rb = rb'; store = advance_all rb' len mb.streams mb.store })

-- `ast_slinear_saturated_add` of Asterisk on two samples of two bytes each: the two bytes of the sum.
pub record SaturatedAdd : Type 0 where
  pub first : ℕ → ℕ → ℕ → ℕ → ℕ
  pub second : ℕ → ℕ → ℕ → ℕ → ℕ

-- The view that one stream has of the ring: its own write position and fill.
unfoldable pub local : RingBuffer → MixStream → RingBuffer
local rb stream = record rb { used = stream.used; write = stream.write }

module _ (sat : SaturatedAdd) where
  open sat use {first, second}

  -- The memory after one sample is added at `dst`.
  unfoldable pub sum_step : Bytes → ℕ → Bytes → Bytes
  sum_step m dst src i =
      if i == dst
      then first (m dst) (m (dst + 1)) (src 0) (src 1)
      else (if i == dst + 1 then second (m dst) (m (dst + 1)) (src 0) (src 1) else m i)

  -- The loop of `saturated_sum`, over the samples that are left.
  unfoldable pub sum_loop : ℕ → Bytes → ℕ → Bytes → Bytes
  unfolding sum_step
  sum_loop zero m dst src = m
  sum_loop (suc n) m dst src = sum_loop n (sum_step m dst src) (dst + 2) (shift src 2)

  unfoldable pub saturated_sum : Method
  unfolding sum_loop
  saturated_sum m dst src n = sum_loop (n / 2) m dst src

  unfoldable pub mixb_mix_write : MixBuffer → ℕ → Bytes → ℕ → ℕ × MixBuffer
  unfolding update local
  mixb_mix_write mb s buf len =
      let (rv, rb') = rb_write_core (local mb.rb (mb.store s)) buf len saturated_sum in
      (
        rv,
        record mb {
          rb = record rb' { used = mb.rb.used; write = mb.rb.write };
          store = update mb.store s (record { used = rb'.used; write = rb'.write });
        },
      )

  -- Mix over the `max_mix` bytes that other streams have put, and append the rest.
  unfoldable pub mix_then_copy : MixBuffer → ℕ → Bytes → ℕ → ℕ → MixBuffer
  unfolding update
  mix_then_copy mb s buf len max_mix =
      let mb' = if ltb 0 max_mix then (mixb_mix_write mb s buf max_mix).1 else mb in
      let rb' = (rb_write mb'.rb (shift buf max_mix) (sub_size len max_mix)).1 in
      record mb' {
        rb = rb';
        store = update mb'.store s (record { used = rb'.used; write = rb'.write });
      }

  unfoldable pub mixb_write : MixBuffer → ℕ → Bytes → ℕ → ℕ × MixBuffer
  unfolding mixb_free mix_then_copy
  mixb_write mb s buf len = (n, if ltb 0 n then written else mb)
    where
      n : ℕ
      n = if ltb (mixb_free mb s) len then mixb_free mb s else len

      max_mix : ℕ
      max_mix = sub_size mb.rb.used (mb.store s).used

      written : MixBuffer
      written =
          if ltb max_mix n then mix_then_copy mb s buf n max_mix else (mixb_mix_write mb s buf n).1
