-- ===== src/Read/Monitor.antt =====
-- What a device sends, line by line, is what the handler of responses is given.
use chan_svistok.Base.{
  ℕ, ◌+◌, ◌≤◌, ◌<◌, ◌≡◌, ap, ◌∙◌, List, [], ◌∷◌, ◌++◌, map, Bool, true, false, Option, some, ◌==◌,
  if◌then◌else◌, length, length-tabulate, drop, min, arith, ascii, ℤ, pos, negsuc,
}
use chan_svistok.Ring.{RingBuffer, IoVecs, contents, rb_read_upd, rb_read_n_iov}
use chan_svistok.Ring.Inv.{IsValid}
use chan_svistok.Ring.Read.{rb_read_upd_lem}
use chan_svistok.Ring.Search.{rb_read_until_mem_iov}
use chan_svistok.Response.{ResponseEntry, res_sms_prompt, res_cmgr, res_cssi}
use chan_svistok.Read.{other, Response, Turn, chars}
use chan_svistok.Read.Line.{NoCr, framed_line}
use chan_svistok.Read.Opening.{start_text, class_text, IsTable}

abbrev pub with_cr : List ℕ → List ℕ
with_cr line = line ++ (b'\r' ∷ [])

-- The classes that take one byte more than is shown.
abbrev pub takes_line : ℤ → Bool
takes_line (negsuc n) = true
takes_line (pos res) =
    if res == res_sms_prompt
    then false
    else (if res == res_cmgr then false else (if res == res_cssi then false else true))

-- A response of one line, which is none of the special forms.
pub record IsLine (table : List ResponseEntry) (line : List ℕ) : Type 0 where
  pub not_empty : 0 < length line
  pub no_cr : NoCr line
  pub plain : start_text (with_cr line) ≡ other
  pub short : takes_line (class_text table (with_cr line)) ≡ true

abbrev pub AllLines : List ResponseEntry → List (List ℕ) → Type 0
AllLines table [] = Unit {0}
AllLines table (l ∷ ls) = IsLine table l × AllLines table ls

-- What the device sends.
abbrev pub frames : List (List ℕ) → List ℕ
frames [] = []
frames (l ∷ ls) = b'\r' ∷ b'\n' ∷ framed_line l (frames ls)

abbrev pub response_of : List ResponseEntry → List ℕ → Response
response_of table line = record { res = class_text table (with_cr line); shown = with_cr line }

length-contents : (rb : RingBuffer) → length (contents rb) ≡ rb.used
length-contents rb = length-tabulate rb.used _

pub contents-read_upd :
    (rb : RingBuffer) (k : ℕ) (xs : List ℕ)
    → IsValid rb
    → contents rb ≡ xs
    → k ≤ length xs
    → contents (rb_read_upd rb k).1 ≡ drop k xs
contents-read_upd rb k xs v e l =
    (rb_read_upd_lem k v).1
    ∙ ap (λ n. drop n (contents rb)) {x = min k rb.used} {y = k}
        (omega (arith, length-contents rb, ap length e))
    ∙ ap (drop k) e

-- What one turn is to do, on the ring that the first call leaves.
module _ (table : List ResponseEntry) (rb : RingBuffer) (iov : IoVecs) (line rest : List ℕ)
    (t : IsTable table) (l : IsLine table line) (v : IsValid rb)
    (held : contents rb ≡ framed_line line rest) where
  shown_iov : ℕ × IoVecs
  shown_iov =
      rb_read_n_iov rb (rb_read_until_mem_iov rb iov (chars (ascii "\r\n")) 2).1 (length line + 1)

-- What the loop has done on all the lines.
pub record Delivered (table : List ResponseEntry) (lines : List (List ℕ)) (o : Option Turn)
    : Type 0 where
  pub turn : Turn
  pub ends : o ≡ some turn
  pub in_order : turn.responses ≡ map (response_of table) lines
  pub nothing_left : contents turn.left.rb ≡ []
  pub outside_left : turn.left.read_result ≡ 0
