-- ===== src/Ring.antt =====
-- ringbuffer.c and ringbuffer.h: the byte ring between the device and its readers. An io vector
-- names a stretch of the buffer by its offset from `rb->buffer` and its length; the array `iov[2]`
-- is passed in and returned, so that an element which the code leaves alone keeps its value.
pub mod Inv
pub mod Window
pub mod Read
pub mod Write
pub mod Order
pub mod Search
mod Tests
use chan_svistok.Base.{
  ℕ, ◌+◌, ◌-◌, ◌≡◌, Bool, true, false, ◌&&◌, ◌≤◌, List, tabulate, ltb, leb, ◌==◌, if◌then◌else◌,
  add_size, sub_size, ℤ, pos, negsuc,
}
use chan_svistok.Memory.{Bytes, shift, memcmp_zero, memmove}

-- `struct ringbuffer`. The sizes are `size_t`; `buffer` is the memory that the pointer names.
pub record RingBuffer : Type 0 where
  pub buffer : Bytes
  pub size : ℕ
  pub used : ℕ
  pub read : ℕ
  pub write : ℕ

-- `struct iovec iov[2]`.
pub record IoVecs : Type 0 where
  pub base0 : ℕ
  pub len0 : ℕ
  pub base1 : ℕ
  pub len1 : ℕ

unfoldable pub rb_init : Bytes → ℕ → RingBuffer
rb_init buf size = record { buffer = buf; size = size; used = 0; read = 0; write = 0 }

abbrev pub rb_used : RingBuffer → ℕ
rb_used rb = rb.used

unfoldable pub rb_free : RingBuffer → ℕ
rb_free rb = sub_size rb.size rb.used

unfoldable pub rb_memcmp : RingBuffer → Bytes → ℕ → ℤ
rb_memcmp rb mem len =
    if ltb 0 used && ltb 0 len && leb len used
    then (if ltb size (add_size read len)
        then (let tmp = sub_size size read in
            if memcmp_zero (shift buffer read) mem tmp
              && memcmp_zero buffer (shift mem tmp) (sub_size len tmp)
            then pos 0
            else pos 1)
        else (if memcmp_zero (shift buffer read) mem len then pos 0 else pos 1))
    else negsuc 0
  where
    open rb use {buffer, size, used, read}

unfoldable pub rb_read_all_iov : RingBuffer → IoVecs → ℕ × IoVecs
rb_read_all_iov rb iov =
    if ltb 0 used
    then (if ltb size (add_size read used)
        then (
          2,
          record {
            base0 = read;
            len0 = sub_size size read;
            base1 = 0;
            len1 = sub_size used (sub_size size read);
          },
        )
        else (1, record iov { base0 = read; len0 = used; len1 = 0 }))
    else (0, iov)
  where
    open rb use {size, used, read}

unfoldable pub rb_read_n_iov : RingBuffer → IoVecs → ℕ → ℕ × IoVecs
rb_read_n_iov rb iov len =
    if ltb used len
    then (0, iov)
    else (if ltb 0 len
        then (if ltb size (add_size read len)
            then (
              2,
              record {
                base0 = read;
                len0 = sub_size size read;
                base1 = 0;
                len1 = sub_size len (sub_size size read);
              },
            )
            else (1, record iov { base0 = read; len0 = len; len1 = 0 }))
        else (0, iov))
  where
    open rb use {size, used, read}

-- Advance the read position; the result is the number of bytes that are dropped.
unfoldable pub rb_read_upd : RingBuffer → ℕ → ℕ × RingBuffer
rb_read_upd rb len = (n, if ltb 0 n then moved else rb)
  where
    n : ℕ
    n = if ltb rb.used len then rb.used else len

    left : ℕ
    left = sub_size rb.used n

    s : ℕ
    s = add_size rb.read n

    moved : RingBuffer
    moved =
        if left == 0
        then record rb { used = left; read = 0; write = 0 }
        else record rb { used = left; read = if leb rb.size s then sub_size s rb.size else s }

unfoldable pub rb_write_iov : RingBuffer → IoVecs → ℕ × IoVecs
unfolding rb_free
rb_write_iov rb iov =
    if ltb 0 free
    then (if ltb size (add_size write free)
        then (
          2,
          record {
            base0 = write;
            len0 = sub_size size write;
            base1 = 0;
            len1 = sub_size free (sub_size size write);
          },
        )
        else (1, record iov { base0 = write; len0 = free }))
    else (0, iov)
  where
    open rb use {size, write}

    free : ℕ
    free = rb_free rb

-- Advance the write position over bytes that are already in the buffer.
unfoldable pub rb_write_upd : RingBuffer → ℕ → ℕ × RingBuffer
unfolding rb_free
rb_write_upd rb len = (n, if ltb 0 n then moved else rb)
  where
    n : ℕ
    n = if ltb (rb_free rb) len then rb_free rb else len

    s : ℕ
    s = add_size rb.write n

    moved : RingBuffer
    moved = record rb {
      used = add_size rb.used n;
      write = if ltb rb.size s then sub_size s rb.size else s;
    }

-- `rb_write_f`: the memory after `(*method) (m + dst, src, n)`.
abbrev pub Method : Type 0
Method = Bytes → ℕ → Bytes → ℕ → Bytes

unfoldable pub rb_write_core : RingBuffer → Bytes → ℕ → Method → ℕ × RingBuffer
unfolding rb_free
rb_write_core rb buf len method = (n, if ltb 0 n then moved else rb)
  where
    n : ℕ
    n = if ltb (rb_free rb) len then rb_free rb else len

    s : ℕ
    s = add_size rb.write n

    room : ℕ
    room = sub_size rb.size rb.write

    over : ℕ
    over = sub_size s rb.size

    moved : RingBuffer
    moved =
        if ltb rb.size s
        then record rb {
          buffer = method (method rb.buffer rb.write buf room) 0 (shift buf room) over;
          used = add_size rb.used n;
          write = over;
        }
        else record rb {
          buffer = method rb.buffer rb.write buf n;
          used = add_size rb.used n;
          write = if s == rb.size then 0 else s;
        }

unfoldable pub rb_write : RingBuffer → Bytes → ℕ → ℕ × RingBuffer
rb_write rb buf len = rb_write_core rb buf len memmove

-- The index that `i` stands for after one turn round the buffer.
unfoldable pub wrap : ℕ → ℕ → ℕ
wrap size i = if ltb i size then i else i - size

-- The `n` bytes from index `start` on, going round at `size`.
abbrev pub window : Bytes → ℕ → ℕ → ℕ → List ℕ
window buffer size start n = tabulate n (λ k. buffer (wrap size (start + k)))

-- The bytes that are held, oldest first: the abstract value of a ring.
abbrev pub contents : RingBuffer → List ℕ
contents rb = window rb.buffer rb.size rb.read rb.used
