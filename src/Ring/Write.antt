-- ===== src/Ring/Write.antt =====
-- What writing into the ring does to its contents.
use chan_svistok.Base.{ℕ, ◌+◌, ◌-◌, ◌<◌, ◌≡◌, ◌++◌, tabulate, min, arith, add_size, sub_size}
use chan_svistok.Memory.{Bytes, memmove}
use chan_svistok.Ring.{
  RingBuffer, IoVecs, Method, wrap, window, contents, rb_write_iov, rb_write_upd, rb_write_core,
  rb_write,
}
use chan_svistok.Ring.Inv.{IsValid}
use chan_svistok.Ring.Window.{iov_bytes, InBounds, window_plain, window_wrapped, contents_append}

-- On a valid ring the io vectors of `rb_write_iov` show, in order, the free places that follow the
-- bytes held, all of them, inside the buffer.
pub rb_write_iov_lem :
    {rb : RingBuffer} (iov : IoVecs)
    → IsValid rb
    → (iov_bytes rb.buffer (rb_write_iov rb iov)
        ≡ window rb.buffer rb.size (wrap rb.size (rb.read + rb.used)) (rb.size - rb.used))
      × InBounds rb.size (rb_write_iov rb iov)
unfolding rb_write_iov add_size sub_size wrap
rb_write_iov_lem {rb} iov v = (
  ground (
    arith,
    window_plain rb.buffer rb.size (wrap rb.size (rb.read + rb.used)) (rb.size - rb.used),
    window_wrapped rb.buffer rb.size (wrap rb.size (rb.read + rb.used)) (rb.size - rb.used),
  ),
  ground arith,
)

-- The fields after `rb_write_upd`.
rb_write_upd_fields :
    (rb : RingBuffer) (len : ℕ)
    → IsValid rb
    → let (n, rb') = rb_write_upd rb len in
      (n ≡ min len (rb.size - rb.used))
      × (rb'.used ≡ rb.used + min len (rb.size - rb.used))
      × (rb'.buffer ≡ rb.buffer)
      × (rb'.size ≡ rb.size)
      × (rb'.read ≡ rb.read)
unfolding rb_write_upd add_size sub_size
rb_write_upd_fields rb len v =
    (ground arith, ground arith, ground arith, ground arith, ground arith)

-- Going on from a wrapped index.
wrap-wrap :
    (size read used k : ℕ)
    → read < size
    → used + k < size
    → wrap size (read + (used + k)) ≡ wrap size (wrap size (read + used) + k)
unfolding wrap
wrap-wrap size read used k h l = ground arith

-- On a valid ring `rb_write_upd` takes the bytes that lie in the free places into the ring, `len`
-- of them or as many as there is room for, returns their number, and leaves the memory alone.
pub rb_write_upd_lem :
    {rb : RingBuffer} (len : ℕ)
    → IsValid rb
    → let (n, rb') = rb_write_upd rb len in
      (n ≡ min len (rb.size - rb.used))
      × (contents rb'
          ≡ contents rb
            ++ window rb.buffer rb.size
                (wrap rb.size (rb.read + rb.used))
                (min len (rb.size - rb.used)))
      × (rb'.buffer ≡ rb.buffer)
rb_write_upd_lem {rb} len v =
    let (n, used, buffer, size, read) = rb_write_upd_fields rb len v in
    (
      n,
      contents_append rb (rb_write_upd rb len).1 (min len (rb.size - rb.used)) _ used
          (λ k l. cc (buffer, size, read))
          (λ k l.
            cc (
              buffer,
              size,
              read,
              wrap-wrap rb.size rb.read rb.used k (omega arith) (omega arith),
            )),
      buffer,
    )

-- The fields after `rb_write_core`, with any method.
pub rb_write_core_fields :
    (rb : RingBuffer) (buf : Bytes) (len : ℕ) (method : Method)
    → IsValid rb
    → let (n, rb') = rb_write_core rb buf len method in
      (n ≡ min len (rb.size - rb.used))
      × (rb'.used ≡ rb.used + min len (rb.size - rb.used))
      × (rb'.size ≡ rb.size)
      × (rb'.read ≡ rb.read)
unfolding rb_write_core add_size sub_size
rb_write_core_fields rb buf len method v = (ground arith, ground arith, ground arith, ground arith)

-- What `rb_write` leaves at an index: `place` is the index `k` places after the read position.
rb_write_old :
    (rb : RingBuffer) (buf : Bytes) (len k : ℕ)
    → IsValid rb
    → k < rb.used
    → (rb_write rb buf len).1.buffer (wrap rb.size (rb.read + k))
      ≡ rb.buffer (wrap rb.size (rb.read + k))
unfolding rb_write rb_write_core memmove add_size sub_size wrap
rb_write_old rb buf len k v l = ground arith

rb_write_new :
    (rb : RingBuffer) (buf : Bytes) (len k : ℕ)
    → IsValid rb
    → k < min len (rb.size - rb.used)
    → (rb_write rb buf len).1.buffer (wrap rb.size (rb.read + (rb.used + k))) ≡ buf k
unfolding rb_write rb_write_core memmove add_size sub_size wrap
rb_write_new rb buf len k v l = ground arith

-- On a valid ring `rb_write` puts `len` bytes, or as many as there is room for, behind those held,
-- returns their number, and keeps the size.
pub rb_write_lem :
    {rb : RingBuffer} (buf : Bytes) (len : ℕ)
    → IsValid rb
    → let (n, rb') = rb_write rb buf len in
      (n ≡ min len (rb.size - rb.used))
      × (contents rb' ≡ contents rb ++ tabulate (min len (rb.size - rb.used)) buf)
      × (rb'.size ≡ rb.size)
unfolding rb_write
rb_write_lem {rb} buf len v =
    let (n, used, size, read) = rb_write_core_fields rb buf len memmove v in
    (
      n,
      contents_append rb (rb_write rb buf len).1 (min len (rb.size - rb.used)) buf used
          (λ k l. cc (size, read, rb_write_old rb buf len k v l))
          (λ k l. cc (size, read, rb_write_new rb buf len k v l)),
      size,
    )
