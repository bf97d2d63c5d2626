-- ===== src/Ring/Inv.antt =====
-- The representation invariant of `struct ringbuffer`, and that the operations keep it.
use chan_svistok.Base.{
  ℕ, ◌+◌, ◌-◌, ◌^◌, ◌≤◌, ◌<◌, ◌≡◌, ◌⊎◌, arith, add_size, sub_size, sub_size_lem,
}
use chan_svistok.Memory.{Bytes}
use chan_svistok.Ring.{
  RingBuffer, Method, rb_init, rb_free, rb_read_upd, rb_write_upd, rb_write_core,
}

-- No index arithmetic wraps, the positions lie in the buffer, and the write position is `used`
-- places after the read position; it may be `size` itself, where the next write goes to index 0.
pub record IsValid (rb : RingBuffer) : Type 0 where
  pub small : rb.size ≤ 2 ^ 63
  pub read_in : rb.read < rb.size
  pub used_in : rb.used ≤ rb.size
  pub write_in : rb.write ≤ rb.size
  pub joined : (rb.write ≡ rb.read + rb.used) ⊎ (rb.write + rb.size ≡ rb.read + rb.used)

pub rb_free_lem : {rb : RingBuffer} → IsValid rb → rb_free rb ≡ rb.size - rb.used
unfolding rb_free
rb_free_lem {rb} v = sub_size_lem rb.size rb.used (omega arith) (omega arith)

-- A ring over a buffer of at least one byte and at most half the address space is valid.
pub rb_init-IsValid : (buf : Bytes) (n : ℕ) → 0 < n → n ≤ 2 ^ 63 → IsValid (rb_init buf n)
unfolding rb_init
rb_init-IsValid buf n h l = ground arith

-- `rb_read_upd` keeps a ring valid, for any number of bytes, also where the read position goes
-- round the end or all is read.
pub rb_read_upd-IsValid : {rb : RingBuffer} (len : ℕ) → IsValid rb → IsValid (rb_read_upd rb len).1
unfolding rb_read_upd add_size sub_size
rb_read_upd-IsValid {rb} len v = ground arith

-- `rb_write_upd` keeps the invariant, for any number of bytes, also where there is less room.
pub rb_write_upd-IsValid :
    {rb : RingBuffer} (len : ℕ) → IsValid rb → IsValid (rb_write_upd rb len).1
unfolding rb_write_upd add_size sub_size
rb_write_upd-IsValid {rb} len v = ground arith

-- `rb_write_core` keeps a ring valid, with any method of putting the bytes, for any number of
-- bytes.
pub rb_write_core-IsValid :
    {rb : RingBuffer} (buf : Bytes) (len : ℕ) (method : Method)
    → IsValid rb
    → IsValid (rb_write_core rb buf len method).1
unfolding rb_write_core add_size sub_size
rb_write_core-IsValid {rb} buf len method v = ground arith
