-- ===== src/Parse/Sms.antt =====
-- at_parse.c: the responses that carry an SMS, with the PDU given to the parsers of Pdu. The length that a
-- caller passes is that of the text; the log file of `at_parse_cds` is left out.
pub mod Layout
use chan_svistok.Base.{
  ℕ, zero, suc, ◌+◌, ◌-◌, ◌≤◌, ◌<◌, ◌≡◌, ◌≢◌, refl, ap, ◌∙◌, List, [], ◌∷◌, ◌++◌, Bool, true, false,
  ◌||◌, not, Option, none, some, ◌==◌, eq→==, ltb, leb, if◌then◌else◌, length, length-append, drop,
  take, arith, ascii, ℤ, pos, negsuc, inl, inr,
}
use mathlib.Core.List.{append_assoc}
use chan_svistok.CharConv.{decode, get_encoding}
use chan_svistok.Pdu.Deliver.{PduError, Parsed, ok, err, Message, pdu_parse, pdu_parse_cds}
use chan_svistok.Parse.{mark_line, marks, at, Cut, unquote}
use chan_svistok.Parse.Marks.{Field, line_of, Free, AllFree, mark_line-line_of}
use chan_svistok.Parse.Scan.{numeral, strtol, AllDigits, is_digit, value, value_from}

-- What the parsers say, or where the text makes them read behind it.
pub data SmsError : Type 0 where
  no_line no_text no_pdu bad_length no_space no_cds bad_cds_length overrun : SmsError
  in_pdu : PduError → SmsError

pub data Sms {ℓ} (A : Type ℓ) : Type ℓ where
  sms : A → Sms A
  fails : SmsError → Sms A

abbrev pub of_parsed {ℓ} : {A : Type ℓ} → Parsed A → Sms A
of_parsed (ok a) = sms a
of_parsed (err e) = fails (in_pdu e)

-- The number is copied with its NUL; where a single quote stands for the whole field, the length is 0, and
-- `get_encoding` is called with one less.
unfoldable pub cmgr_number : List ℕ → ℕ → Cut → ℕ → Sms Message
cmgr_number text oa_len c m₃ =
    if ltb c.stop c.start
    then fails overrun
    else (if ltb oa_len (c.stop - c.start + 1)
        then fails no_space
        else sms (record {
          oa = oa;
          oa_enc = get_encoding decode oa;
          msg = drop (m₃ + 1) text;
          msg_enc = get_encoding decode (drop (m₃ + 1) text);
        }))
  where
    oa : List ℕ
    oa = take (c.stop - c.start) (drop c.start text)

abbrev text_marks : List ℕ → ℕ → List ℕ → Sms Message
text_marks text oa_len (m₀ ∷ (m₁ ∷ (m₂ ∷ (m₃ ∷ [])))) =
    cmgr_number text oa_len (unquote text m₀ m₁) m₃
text_marks text oa_len ms = fails no_text

unfoldable pub parse_cmgr_text : List ℕ → ℕ → Sms Message
unfolding cmgr_number
parse_cmgr_text text oa_len = text_marks text oa_len (marks (ascii ",,,\n") text)

-- The length that `strtol` gives, as `size_t`, is not 0, and "\r" follows.
abbrev length_ok : ℤ × List ℕ → Bool
length_ok (pos zero, rest) = false
length_ok (pos (suc n), rest) = at rest 0 == b'\r'
length_ok (negsuc n, rest) = at rest 0 == b'\r'

abbrev pdu_marks : List ℕ → ℕ → List ℕ → Sms Message
pdu_marks text oa_len (m₀ ∷ (m₁ ∷ (m₂ ∷ []))) =
    if length_ok (strtol (drop (m₁ + 1) text))
    then of_parsed (pdu_parse (drop (m₂ + 1) text) oa_len)
    else fails bad_length
pdu_marks text oa_len ms = fails no_pdu

unfoldable pub parse_cmgr_pdu : List ℕ → ℕ → Sms Message
unfolding strtol pdu_parse
parse_cmgr_pdu text oa_len = pdu_marks text oa_len (marks (ascii ",,\n") text)

abbrev cds_marks : List ℕ → ℕ → List ℕ → Sms (List ℕ)
cds_marks text oa_len (m₀ ∷ (m₁ ∷ [])) =
    if length_ok (strtol (drop (m₀ + 2) text))
    then of_parsed (pdu_parse_cds (drop (m₁ + 1) text) oa_len)
    else fails bad_cds_length
cds_marks text oa_len ms = fails no_cds

unfoldable pub at_parse_cds : List ℕ → ℕ → Sms (List ℕ)
unfolding strtol pdu_parse_cds
at_parse_cds text oa_len = cds_marks text oa_len (marks (ascii ":\n") text)

abbrev skip_blanks : List ℕ → List ℕ
skip_blanks [] = []
skip_blanks (c ∷ cs) = if c == 32 then skip_blanks cs else c ∷ cs

abbrev cmgr_mode : List ℕ → ℕ → Sms Message
cmgr_mode [] oa_len = fails no_line
cmgr_mode (c ∷ cs) oa_len =
    if c == b'"' then parse_cmgr_text (c ∷ cs) oa_len else parse_cmgr_pdu (c ∷ cs) oa_len

-- On a response that has the six bytes "+CMGR:" in front, by which it is told from others.
unfoldable pub at_parse_cmgr : List ℕ → ℕ → Sms Message
unfolding parse_cmgr_text parse_cmgr_pdu
at_parse_cmgr text oa_len = cmgr_mode (skip_blanks (drop 6 text)) oa_len
