-- ===== src/Ring/Read.antt =====
-- What a reader of the ring sees through the io vectors, and what `rb_read_upd` leaves.
use chan_svistok.Base.{
  ℕ, ◌+◌, ◌-◌, ◌<◌, ◌≡◌, sym, ◌∙◌, [], ltb, if◌then◌else◌, tabulate_length, take-tabulate,
  drop-tabulate, take, drop, min, arith, add_size, sub_size,
}
use chan_svistok.Ring.{
  RingBuffer, IoVecs, wrap, contents, rb_read_all_iov, rb_read_n_iov, rb_read_upd,
}
use chan_svistok.Ring.Inv.{IsValid}
use chan_svistok.Ring.Window.{iov_bytes, InBounds, window_plain, window_wrapped, contents_of}

-- On a valid ring the io vectors of `rb_read_n_iov` show the first `len` bytes that are held, and
-- none if fewer are held; they lie inside the buffer.
pub rb_read_n_iov_lem :
    {rb : RingBuffer} (iov : IoVecs) (len : ℕ)
    → IsValid rb
    → (iov_bytes rb.buffer (rb_read_n_iov rb iov len)
        ≡ (if ltb rb.used len then [] else take len (contents rb)))
      × InBounds rb.size (rb_read_n_iov rb iov len)
unfolding rb_read_n_iov add_size sub_size
rb_read_n_iov_lem {rb} iov len v = (
  ground (
    arith,
    window_plain rb.buffer rb.size rb.read len,
    window_wrapped rb.buffer rb.size rb.read len,
    take-tabulate len rb.used (λ k. rb.buffer (wrap rb.size (rb.read + k))),
  ),
  ground arith,
)

-- On a valid ring the io vectors of `rb_read_all_iov` show all the bytes that are held, in order,
-- and lie inside the buffer.
pub rb_read_all_iov_lem :
    {rb : RingBuffer} (iov : IoVecs)
    → IsValid rb
    → (iov_bytes rb.buffer (rb_read_all_iov rb iov) ≡ contents rb)
      × InBounds rb.size (rb_read_all_iov rb iov)
unfolding rb_read_all_iov add_size sub_size
rb_read_all_iov_lem {rb} iov v = (
  ground (
    arith,
    window_plain rb.buffer rb.size rb.read rb.used,
    window_wrapped rb.buffer rb.size rb.read rb.used,
    tabulate_length rb.used 0 (λ k. rb.buffer (wrap rb.size (rb.read + k))),
  ),
  ground arith,
)

-- The fields after `rb_read_upd`, and where it leaves the byte `k`.
pub rb_read_upd_fields :
    (rb : RingBuffer) (len : ℕ)
    → IsValid rb
    → let (n, rb') = rb_read_upd rb len in
      (n ≡ min len rb.used)
      × (rb'.used ≡ rb.used - min len rb.used)
      × (rb'.buffer ≡ rb.buffer)
      × (rb'.size ≡ rb.size)
unfolding rb_read_upd sub_size
rb_read_upd_fields rb len v = (ground arith, ground arith, ground arith, ground arith)

rb_read_upd_place :
    (rb : RingBuffer) (len k : ℕ)
    → IsValid rb
    → k < rb.used - min len rb.used
    → wrap rb.size ((rb_read_upd rb len).1.read + k)
      ≡ wrap rb.size (rb.read + (min len rb.used + k))
unfolding rb_read_upd add_size sub_size wrap
rb_read_upd_place rb len k v l = ground arith

-- On a valid ring `rb_read_upd` drops the first `len` bytes, or all if fewer are held, returns
-- their number, and leaves the memory and the size alone.
pub rb_read_upd_lem :
    {rb : RingBuffer} (len : ℕ)
    → IsValid rb
    → let (n, rb') = rb_read_upd rb len in
      (n ≡ min len rb.used)
      × (contents rb' ≡ drop (min len rb.used) (contents rb))
      × (rb'.buffer ≡ rb.buffer)
      × (rb'.size ≡ rb.size)
rb_read_upd_lem {rb} len v =
    let f = rb_read_upd_fields rb len v in
    (
      f.0,
      contents_of (rb_read_upd rb len).1 (rb.used - min len rb.used) _ f.1
            (λ k l. cc (f.2, f.3, rb_read_upd_place rb len k v l))
          ∙ sym (
              drop-tabulate (min len rb.used) rb.used (λ k. rb.buffer (wrap rb.size (rb.read + k)))
                (omega arith)),
      f.2,
      f.3,
    )
