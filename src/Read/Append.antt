-- ===== src/Read/Append.antt =====
-- `at_read` on the contents of the ring.
use chan_svistok.Base.{
  ℕ, ◌+◌, ◌-◌, ◌≤◌, ◌<◌, ◌≡◌, refl, ◌++◌, tabulate, arith, add_size, sub_size, pos, ltb, true,
  lt→ltb,
}
use chan_svistok.Memory.{Bytes, memmove}
use chan_svistok.Ring.{RingBuffer, IoVecs, wrap, contents, rb_write_iov, rb_write_upd}
use chan_svistok.Ring.Inv.{IsValid, rb_write_upd-IsValid}
use chan_svistok.Ring.Window.{contents_append}
use chan_svistok.Read.{got, scatter, read_into, at_read}

abbrev filled : RingBuffer → IoVecs → Bytes → ℕ → RingBuffer
filled rb iov bytes n =
    (rb_write_upd (record rb { buffer = scatter rb.buffer (rb_write_iov rb iov) bytes n }) n).1

module _ (rb : RingBuffer) (iov : IoVecs) (bytes : Bytes) (n : ℕ) (v : IsValid rb)
    (fits : n ≤ rb.size - rb.used) where
  filled_old :
      (k : ℕ)
      → k < rb.used
      → scatter rb.buffer (rb_write_iov rb iov) bytes n (wrap rb.size (rb.read + k))
        ≡ rb.buffer (wrap rb.size (rb.read + k))
  unfolding rb_write_iov scatter memmove add_size sub_size wrap
  filled_old k l = ground arith

  filled_new :
      (k : ℕ)
      → k < n
      → scatter rb.buffer (rb_write_iov rb iov) bytes n (wrap rb.size (rb.read + (rb.used + k)))
        ≡ bytes k
  unfolding rb_write_iov scatter memmove add_size sub_size wrap
  filled_new k l = ground arith

  filled_fields :
      ((filled rb iov bytes n).used ≡ rb.used + n)
      × ((filled rb iov bytes n).read ≡ rb.read)
      × ((filled rb iov bytes n).size ≡ rb.size)
      × ((filled rb iov bytes n).buffer ≡ scatter rb.buffer (rb_write_iov rb iov) bytes n)
  unfolding rb_write_upd add_size sub_size
  filled_fields = (ground arith, ground arith, ground arith, ground arith)

  filled-IsValid : IsValid (filled rb iov bytes n)
  filled-IsValid = rb_write_upd-IsValid n (record {
    small = v.small;
    read_in = v.read_in;
    used_in = v.used_in;
    write_in = v.write_in;
    joined = v.joined;
  })

  room : 0 < n → ltb 0 (rb_write_iov rb iov).0 ≡ true
  unfolding rb_write_iov add_size sub_size
  room p = ground arith

  -- When `readv` gives at least one byte, and no more than the ring has room for, `at_read` on a
  -- valid ring returns their number, and the ring holds them behind what it held.
  pub at_read-append :
      0 < n
      → let (count, rb') = at_read rb iov (got bytes n) in
        (count ≡ pos n) × (contents rb' ≡ contents rb ++ tabulate n bytes) × IsValid rb'
  unfolding at_read read_into
  at_read-append p =
      let (used, read, size, buffer) = filled_fields in
      rw (room p) (
        rw (lt→ltb 0 n p) (
          refl,
          contents_append rb (filled rb iov bytes n) n bytes used
              (λ k l. cc (read, size, buffer, filled_old k l))
              (λ k l. cc (read, size, buffer, filled_new k l)),
          filled-IsValid,
        ))
