-- ===== src/Ring/Search.antt =====
-- The searches of ringbuffer.c: reading up to a character or a string.
pub mod Char
pub mod Compare
pub mod Mem
pub mod Crlf
use chan_svistok.Base.{
  ℕ, zero, suc, ◌+◌, ◌-◌, ◌≤◌, ◌<◌, ◌≡◌, refl, sym, ap, ap₂, ◌∙◌, ◌≢◌, List, [], ◌++◌, Bool, true,
  false, ltb, leb, ◌==◌, ◌&&◌, if◌then◌else◌, tabulate, tabulate_ext, tabulate_length,
  tabulate-append, take-tabulate, drop-tabulate, take, drop, min, arith, add_size, sub_size, ◌⊎◌,
  inl, inr, Option, none, some, Bool-cases, ℤ, pos, negsuc,
}
use chan_svistok.Memory.{
  Bytes, shift, memcmp_zero, memchr, memmem, Agree, memcmp_zero_sound, memcmp_zero_complete,
}
use chan_svistok.Ring.{RingBuffer, IoVecs, wrap, window, contents, rb_memcmp}
use chan_svistok.Ring.Inv.{IsValid}

-- `rb_read_until_char_iov`: the vectors get the bytes before the first `c`; the result 0 says that
-- there is none.
unfoldable pub rb_read_until_char_iov : RingBuffer → IoVecs → ℕ → ℕ × IoVecs
rb_read_until_char_iov rb iov c =
    if ltb 0 used
    then (if ltb size (add_size read used)
        then (elim (memchr (shift buffer read) c len0) [
          | some p ↦ (1, record iov { base0 = read; len0 = p; len1 = 0 })
          | none ↦ elim (memchr buffer c (sub_size used len0)) [
            | some p ↦ (2, record { base0 = read; len0 = len0; base1 = 0; len1 = p })
            | none ↦ (0, record iov { base0 = read; len0 = len0 })
          ]
        ])
        else (elim (memchr (shift buffer read) c used) [
          | some p ↦ (1, record iov { base0 = read; len0 = p; len1 = 0 })
          | none ↦ (0, record iov { base0 = read; len0 = used })
        ]))
    else (0, iov)
  where
    open rb use {buffer, size, used, read}

    len0 : ℕ
    len0 = sub_size size read

-- `rb_read_until_char_after_iov`: the same, but the first `after` bytes of each stretch that is
-- searched are passed over.
unfoldable pub rb_read_until_char_after_iov : RingBuffer → IoVecs → ℕ → ℕ → ℕ × IoVecs
rb_read_until_char_after_iov rb iov c after =
    if ltb 0 used
    then (if ltb size (add_size read used)
        then (elim (memchr (shift buffer (add_size read after)) c (sub_size len0 after)) [
          | some p ↦ (1, record iov { base0 = read; len0 = add_size after p; len1 = 0 })
          | none ↦ elim (memchr (shift buffer after) c (sub_size (sub_size used len0) after)) [
            | some p ↦ (2, record { base0 = read; len0 = len0; base1 = 0; len1 = add_size after p })
            | none ↦ (0, record iov { base0 = read; len0 = len0 })
          ]
        ])
        else (elim (memchr (shift buffer (add_size read after)) c (sub_size used after)) [
          | some p ↦ (1, record iov { base0 = read; len0 = add_size after p; len1 = 0 })
          | none ↦ (0, record iov { base0 = read; len0 = used })
        ]))
    else (0, iov)
  where
    open rb use {buffer, size, used, read}

    len0 : ℕ
    len0 = sub_size size read

-- How the loop of `rb_read_until_mem_iov` ends, with the index that `iov[1].iov_base` has then: at
-- an occurrence, by `return 0`, or by its own condition.
pub data Straddle : Type 0 where
  found : ℕ → Straddle
  stop : ℕ → Straddle
  over : ℕ → Straddle

-- `while (i < len)`, with the rounds that are left: over the occurrences that straddle the end of
-- the buffer. `base1` is the index where the occurrence would begin.
unfoldable pub straddle_loop : ℕ → RingBuffer → ℕ → Bytes → ℕ → ℕ → ℕ → Straddle
straddle_loop zero rb len0 mem len base1 i = over base1
straddle_loop (suc rounds) rb len0 mem len base1 i =
    let rest = straddle_loop rounds rb len0 mem len (base1 + 1) (i + 1) in
    if memcmp_zero (shift rb.buffer base1) mem (sub_size len i)
      && memcmp_zero rb.buffer (shift mem i) i
    then found base1
    else (if rb.used == add_size len0 i then stop base1 else rest)

-- What follows the loop: the part at the front of the buffer.
unfoldable pub read_until_front : RingBuffer → IoVecs → Bytes → ℕ → ℕ → ℕ → ℕ × IoVecs
read_until_front rb iov mem len len0 base1 =
    if leb (add_size len0 len) rb.used
    then (elim (memmem rb.buffer (sub_size rb.used len0) mem len) [
      | some p ↦
          if p == 0
          then (1, record iov { base0 = rb.read; len0 = len0; base1 = base1; len1 = 0 })
          else (2, record { base0 = rb.read; len0 = len0; base1 = 0; len1 = p })
      | none ↦ (0, record iov { base0 = rb.read; len0 = len0; base1 = base1 })
    ])
    else (0, record iov { base0 = rb.read; len0 = len0; base1 = base1 })

-- From the loop on.
unfoldable pub read_until_straddle : RingBuffer → IoVecs → Bytes → ℕ → ℕ → ℕ × IoVecs
read_until_straddle rb iov mem len len0 =
    elim (straddle_loop (sub_size len i) rb len0 mem len base1 i) [
      | found b ↦
          (1, record iov { base0 = rb.read; len0 = sub_size b rb.read; base1 = b; len1 = 0 })
      | stop b ↦ (0, record iov { base0 = rb.read; len0 = len0; base1 = b })
      | over b ↦ read_until_front rb iov mem len len0 b
    ]
  where
    i : ℕ
    i = if leb len len0 then 1 else sub_size len len0

    base1 : ℕ
    base1 = if leb len len0 then sub_size (rb.read + len0 + 1) len else rb.read

unfoldable pub rb_read_until_mem_iov : RingBuffer → IoVecs → Bytes → ℕ → ℕ × IoVecs
rb_read_until_mem_iov rb iov mem len =
    if len == 1
    then rb_read_until_char_iov rb iov (mem 0)
    else (if ltb 0 used && ltb 0 len && leb len used
        then (if ltb size (add_size read used)
            then (elim (if leb len len0 then memmem (shift buffer read) len0 mem len else none) [
              | some p ↦ (1, record iov { base0 = read; len0 = p; len1 = 0 })
              | none ↦ read_until_straddle rb iov mem len len0
            ])
            else (elim (memmem (shift buffer read) used mem len) [
              | some p ↦ (1, record iov { base0 = read; len0 = p; len1 = 0 })
              | none ↦ (0, record iov { base0 = read; len0 = used })
            ]))
        else (0, iov))
  where
    open rb use {buffer, size, used, read}

    len0 : ℕ
    len0 = sub_size size read
