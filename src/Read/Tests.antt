-- ===== src/Read/Tests.antt =====
-- Rings of 40 bytes whose contents go round the end.
use chan_svistok.Base.{ℕ, ◌≡◌, List, [], ◌∷◌, ◌++◌, arith, ascii, drop, some, pos}
use chan_svistok.Ring.{RingBuffer, IoVecs, contents}
use chan_svistok.Ring.Inv.{IsValid}
use chan_svistok.Read.{Result, chars, got, at_read, at_read_result_iov}
use chan_svistok.Read.Append.{at_read-append}
use chan_svistok.Read.Total.{at_read_result_iov-total}
use chan_svistok.Read.Monitor.{frames}

abbrev no_iov : IoVecs
no_iov = record { base0 = 0; len0 = 0; base1 = 0; len1 = 0 }

abbrev two_lines : List (List ℕ)
two_lines = ascii "OK" ∷ ascii "^RSSI:5" ∷ []

-- A text of 17 bytes stands from the byte 30 on.
abbrev held : List ℕ → RingBuffer
held text = record {
  buffer = chars (drop 10 text ++ (ascii "                       " ++ text));
  size = 40;
  used = 17;
  read = 30;
  write = 7;
}

held-IsValid : (text : List ℕ) → IsValid (held text)
held-IsValid text = omega arith

at_read-append_example :
    (at_read (held (frames two_lines)) no_iov (got (chars (ascii "+CREG")) 5)).0 ≡ pos 5
at_read-append_example =
    (at_read-append (held (frames two_lines)) no_iov (chars (ascii "+CREG")) 5
      (held-IsValid (frames two_lines)) (omega arith) (omega arith)).0

at_read_result_iov-total_example :
    (r : Result) × (at_read_result_iov 18 0 (held (frames two_lines)) no_iov ≡ some r)
    × IsValid r.rb
    × ((k : ℕ) × (contents r.rb ≡ drop k (contents (held (frames two_lines)))))
at_read_result_iov-total_example =
    at_read_result_iov-total 18 0 (held (frames two_lines)) no_iov (held-IsValid (frames two_lines))
      (omega arith)
