-- ===== src/Read.antt =====
-- at_read.c: the bytes of a device are put into a ring, and cut into the responses that it holds. The
-- log messages are left out.
pub mod Append
pub mod Prefix
pub mod Total
pub mod Line
pub mod Opening
pub mod Monitor
mod Tests
use chan_svistok.Base.{
  ℕ, zero, suc, [], ◌∷◌, ◌+◌, ◌-◌, List, Bool, true, false, ◌||◌, Option, none, some, ltb, ◌==◌,
  if◌then◌else◌, length, get_or, min, add_size, ascii, ℤ, pos, negsuc,
}
use chan_svistok.Memory.{Bytes, shift, memmove}
use chan_svistok.Ring.{
  RingBuffer, IoVecs, rb_memcmp, rb_read_n_iov, rb_read_upd, rb_write_iov, rb_write_upd,
}
use chan_svistok.Response.{ResponseEntry, res_unknown, res_sms_prompt, res_cmgr, res_cssi, searched}
use chan_svistok.Ring.Window.{iov_bytes}
use chan_svistok.Ring.Search.{
  rb_read_until_char_iov, rb_read_until_char_after_iov, rb_read_until_mem_iov,
}

-- What `readv` answers: bytes, and their number, which is 0 at the end of the file; EINTR or EAGAIN;
-- another error.
pub data Answer : Type 0 where
  got : Bytes → ℕ → Answer
  again : Answer
  failed : Answer

-- What `readv` does to the memory: the bytes go to the vectors in order.
unfoldable pub scatter : Bytes → ℕ × IoVecs → Bytes → ℕ → Bytes
scatter m (count, iov) bytes n =
    if count == 1
    then memmove m iov.base0 bytes n
    else memmove (memmove m iov.base0 bytes (min n iov.len0)) iov.base1 (shift bytes iov.len0)
        (n - iov.len0)

-- `at_read`, on vectors that are filled.
unfoldable pub read_into : RingBuffer → ℕ × IoVecs → Answer → ℤ × RingBuffer
unfolding scatter
read_into rb vectors failed = (negsuc 0, rb)
read_into rb vectors again = (pos 0, rb)
read_into rb vectors (got bytes n) = (
  pos n,
  if ltb 0 n
      then (rb_write_upd (record rb { buffer = scatter rb.buffer vectors bytes n }) n).1
      else rb,
)

-- `at_read`: the number of bytes read, or -1, also where the ring is full.
unfoldable pub at_read : RingBuffer → IoVecs → Answer → ℤ × RingBuffer
unfolding read_into
at_read rb iov answer =
    let vectors = rb_write_iov rb iov in
    if ltb 0 vectors.0 then read_into rb vectors answer else (negsuc 0, rb)

-- A text as the memory that a pointer to it shows.
abbrev pub chars : List ℕ → Bytes
chars text i = get_or text i 0

-- `rb_memcmp` with a text, and whether it is 0.
abbrev pub compare_text : RingBuffer → List ℕ → ℤ
compare_text rb text = rb_memcmp rb (chars text) (length text)

abbrev pub is_zero : ℤ → Bool
is_zero (pos n) = n == 0
is_zero (negsuc n) = false

abbrev pub starts : RingBuffer → List ℕ → Bool
starts rb text = is_zero (compare_text rb text)

-- The end of `at_read_result_iov`: what it returns, and what it leaves behind its pointers.
pub record Result : Type 0 where
  pub iovcnt : ℕ
  pub read_result : ℕ
  pub rb : RingBuffer
  pub iov : IoVecs

-- One run of the body: a return, or the recursive call.
pub data Next : Type 0 where
  done : Result → Next
  call : ℕ → RingBuffer → IoVecs → Next

-- Outside a response, at bytes that are not its beginning: a line is skipped.
unfoldable pub skip_line : RingBuffer → IoVecs → Next
skip_line rb iov =
    if starts rb (ascii "\n")
    then call 0 (rb_read_upd rb 1).1 iov
    else call 0 (rb_read_upd rb s).1 found.1
  where
    found : ℕ × IoVecs
    found = rb_read_until_char_iov rb iov b'\r'

    s : ℕ
    s = if ltb 0 found.0 then add_size (add_size found.1.len0 found.1.len1) 1 else rb.used

-- Outside a response: what `rb_memcmp` with "\r\n" returns is given.
unfoldable pub outside_at : ℤ → RingBuffer → IoVecs → Next
unfolding skip_line
outside_at (pos zero) rb iov = call 1 (rb_read_upd rb 2).1 iov
outside_at (pos (suc n)) rb iov = skip_line rb iov
outside_at (negsuc n) rb iov = done (record { iovcnt = 0; read_result = 0; rb = rb; iov = iov })

unfoldable pub outside : RingBuffer → IoVecs → Next
unfolding outside_at
outside rb iov = outside_at (compare_text rb (ascii "\r\n")) rb iov

-- `if (iovcnt > 0) *read_result = 0; return iovcnt;`
abbrev pub result_of : ℕ → RingBuffer → ℕ × IoVecs → Result
result_of read_result rb (count, iov) = record {
  iovcnt = count;
  read_result = if ltb 0 count then 0 else read_result;
  rb = rb;
  iov = iov;
}

-- A response that ends with its line: the vectors show it with the '\r'.
unfoldable pub plain_line : ℕ → RingBuffer → IoVecs → Result
plain_line read_result rb iov =
    if ltb 0 found.0
    then record { iovcnt = shown.0; read_result = 0; rb = rb; iov = shown.1 }
    else record { iovcnt = 0; read_result = read_result; rb = rb; iov = found.1 }
  where
    found : ℕ × IoVecs
    found = rb_read_until_mem_iov rb iov (chars (ascii "\r\n")) 2

    shown : ℕ × IoVecs
    shown = rb_read_n_iov rb found.1 (add_size (add_size found.1.len0 found.1.len1) 1)

-- How the bytes of a response begin, in the order of the tests.
pub data Start : Type 0 where
  cssi framed prompt multiline report other : Start

unfoldable pub start_of : RingBuffer → Start
start_of rb =
    if starts rb (ascii "+CSSI:")
    then cssi
    else if starts rb (ascii "\r\n+CSSU:")
        || (starts rb (ascii "\r\n+CMS ERROR:") || starts rb (ascii "\r\n+CMGS:"))
    then framed
    else if starts rb (ascii "> ")
    then prompt
    else if starts rb (ascii "+CMGR:")
        || (starts rb (ascii "+CNUM:")
            || (starts rb (ascii "ERROR+CNUM:") || starts rb (ascii "+CLCC:")))
    then multiline
    else if starts rb (ascii "+CDS:")
    then report
    else other

-- `*read_result = 0; return iovcnt;`
abbrev pub shown_as : RingBuffer → ℕ × IoVecs → Result
shown_as rb shown = record { iovcnt = shown.0; read_result = 0; rb = rb; iov = shown.1 }

unfoldable pub inside_at : Start → ℕ → RingBuffer → IoVecs → Next
unfolding plain_line
inside_at cssi read_result rb iov = done (result_of read_result rb (rb_read_n_iov rb iov 8))
inside_at framed read_result rb iov = call read_result (rb_read_upd rb 2).1 iov
inside_at prompt read_result rb iov = done (shown_as rb (rb_read_n_iov rb iov 2))
inside_at multiline read_result rb iov =
    done (result_of read_result rb (rb_read_until_mem_iov rb iov (chars (ascii "\n\r\nOK\r\n")) 7))
inside_at report read_result rb iov =
    done (shown_as rb (rb_read_until_char_after_iov rb iov b'\r' 10))
inside_at other read_result rb iov = done (plain_line read_result rb iov)

unfoldable pub inside : ℕ → RingBuffer → IoVecs → Next
unfolding inside_at start_of
inside read_result rb iov = inside_at (start_of rb) read_result rb iov

-- The body of `at_read_result_iov`.
unfoldable pub result_step : ℕ → RingBuffer → IoVecs → Next
unfolding outside inside
result_step read_result rb iov =
    if ltb 0 rb.used
    then (if read_result == 0 then outside rb iov else inside read_result rb iov)
    else done (record { iovcnt = 0; read_result = read_result; rb = rb; iov = iov })

-- `at_read_result_iov`, for at most as many calls as the fuel; none if that runs out.
unfoldable pub at_read_result_iov : ℕ → ℕ → RingBuffer → IoVecs → Option Result
unfolding result_step
at_read_result_iov zero read_result rb iov = none
at_read_result_iov (suc fuel) read_result rb iov = elim (result_step read_result rb iov) [
  | done r ↦ some r
  | call next rb' iov' ↦ at_read_result_iov fuel next rb' iov'
]

-- The loop of `at_read_result_classification`.
unfoldable pub classify_from : RingBuffer → List ResponseEntry → ℤ
classify_from rb [] = pos res_unknown
classify_from rb (e ∷ es) = if starts rb e.id then e.res else classify_from rb es

-- How much of the ring a response takes: `len` is what the vectors show of it.
unfoldable pub taken : ℤ → ℕ → ℕ
taken (negsuc n) len = add_size len 1
taken (pos res) len =
    if res == res_sms_prompt
    then 2
    else (if res == res_cmgr
        then add_size len 7
        else (if res == res_cssi then 8 else add_size len 1))

-- `at_read_result_classification`, over a table.
unfoldable pub at_read_result_classification : List ResponseEntry → RingBuffer → ℕ → ℤ × RingBuffer
unfolding classify_from taken
at_read_result_classification table rb len =
    let res = classify_from rb table in (res, (rb_read_upd rb (taken res len)).1)

-- What the handler of responses is given: the class, and the bytes that the vectors show.
pub record Response : Type 0 where
  pub res : ℤ
  pub shown : List ℕ

-- One turn of the loop of `do_monitor_phone` over the responses that the ring holds; the loop goes
-- on with the ring that is left. The handler, which may end it, is not called here.
pub record Turn : Type 0 where
  pub responses : List Response
  pub left : Result

abbrev deliver : List ResponseEntry → Result → ℤ × RingBuffer → Response × RingBuffer
deliver table r (res, rb') =
    (record { res = res; shown = iov_bytes r.rb.buffer (r.iovcnt, r.iov) }, rb')

-- `while ((iovcnt = at_read_result_iov (...)) > 0)`, for at most as many rounds as the fuel, each with
-- its own for the calls; none if either runs out.
unfoldable pub monitor : ℕ → ℕ → List ResponseEntry → ℕ → RingBuffer → IoVecs → Option Turn
monitor zero calls table read_result rb iov = none
monitor (suc rounds) calls table read_result rb iov =
    elim (at_read_result_iov calls read_result rb iov) [
      | none ↦ none
      | some r ↦
          let (response, rb') =
            deliver table r (at_read_result_classification table r.rb (r.iov.len0 + r.iov.len1)) in
          elim (ltb 0 r.iovcnt) [
            | false ↦ some (record { responses = []; left = r })
            | true ↦ elim (monitor rounds calls table r.read_result rb' r.iov) [
              | none ↦ none
              | some t ↦ some (record t { responses = response ∷ t.responses })
            ]
          ]
    ]
