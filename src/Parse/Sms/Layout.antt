-- ===== src/Parse/Sms/Layout.antt =====
-- A response of +CMGR in PDU mode gives its PDU to `pdu_parse`.
use chan_svistok.Base.{
  ℕ, zero, suc, ◌+◌, ◌-◌, ◌^◌, ◌<◌, ◌≡◌, ◌≢◌, refl, ap, ◌∙◌, List, [], ◌∷◌, ◌++◌, true, false, ◌==◌,
  min, length, drop, arith, ascii, pos,
}
use mathlib.Core.List.{append_assoc}
use chan_svistok.Pdu.Deliver.{pdu_parse}
use chan_svistok.Parse.{marks}
use chan_svistok.Parse.Marks.{Field, line_of, Free, ends_of, mark_line-line_of}
use chan_svistok.Parse.Scan.{strtol, to_long, AllDigits, is_digit, value, numeral_lem}
use chan_svistok.Parse.Values.Entry.{size_of, drop-line_of}
use chan_svistok.Parse.Sms.{of_parsed, length_ok, skip_blanks, parse_cmgr_pdu, at_parse_cmgr}

abbrev pub blanks : ℕ → List ℕ
blanks zero = []
blanks (suc n) = 32 ∷ blanks n

skip_blanks_lem : (n c : ℕ) (cs : List ℕ) → c ≢ 32 → skip_blanks (blanks n ++ (c ∷ cs)) ≡ c ∷ cs
skip_blanks_lem zero c cs h = ground arith
skip_blanks_lem (suc n) c cs h = skip_blanks_lem n c cs h

strtol_lem :
    (ds rest : List ℕ) (c : ℕ)
    → 0 < length ds
    → AllDigits ds
    → is_digit c ≡ false
    → strtol (ds ++ (c ∷ rest)) ≡ (pos (min (value ds) (2 ^ 63 - 1)), c ∷ rest)
unfolding strtol to_long
strtol_lem ds rest c l a n = rw (strtol, numeral_lem ds rest c l a n) refl

digits-line : (ds : List ℕ) → AllDigits ds → Free b'\n' (ds ++ (b'\r' ∷ []))
digits-line [] a = (omega arith, tt)
digits-line (d ∷ ds) a = (omega (arith, a.0), digits-line ds a.2)

positive_ok : (n : ℕ) (rest : List ℕ) → 0 < n → length_ok (pos n, b'\r' ∷ rest) ≡ true
positive_ok zero rest l = absurd (omega arith)
positive_ok (suc n) rest l = refl

module _ (s : ℕ) (stat alpha ds pdu : List ℕ) where
  abbrev pub fields : List Field
  fields = (s ∷ stat, b',') ∷ (alpha, b',') ∷ (ds ++ (b'\r' ∷ []), b'\n') ∷ []

  module _ (free_stat : Free b',' (s ∷ stat)) (free_alpha : Free b',' alpha)
      (some_digit : 0 < length ds) (all_digits : AllDigits ds) (not_zero : 0 < value ds)
      (oa_len : ℕ) where
    marks_are : marks (ascii ",,\n") (line_of fields pdu) ≡ ends_of 0 fields
    marks_are =
        mark_line-line_of 0 fields pdu (free_stat, (free_alpha, (digits-line ds all_digits, tt)))

    length_is :
        length_ok
          (strtol (drop (0 + length (s ∷ stat) + 1 + length alpha + 1) (line_of fields pdu)))
        ≡ true
    unfolding size_of
    length_is =
        ap (λ t. length_ok (strtol t))
          (ap (λ k. drop k (line_of fields pdu))
              {y = size_of ((s ∷ stat, b',') ∷ (alpha, b',') ∷ [])} (omega arith)
            ∙ drop-line_of ((s ∷ stat, b',') ∷ (alpha, b',') ∷ [])
                ((ds ++ (b'\r' ∷ []), b'\n') ∷ []) pdu
            ∙ append_assoc ds (b'\r' ∷ []) (b'\n' ∷ pdu))
        ∙ ap length_ok (strtol_lem ds (b'\n' ∷ pdu) b'\r' some_digit all_digits refl)
        ∙ positive_ok (min (value ds) (2 ^ 63 - 1)) (b'\n' ∷ pdu) (omega (arith, not_zero))

    pdu_is :
        drop
          (0 + length (s ∷ stat) + 1 + length alpha + 1 + length (ds ++ (b'\r' ∷ [])) + 1)
          (line_of fields pdu)
        ≡ pdu
    unfolding size_of
    pdu_is =
        ap (λ k. drop k (line_of fields pdu)) {y = size_of fields} (omega arith)
        ∙ drop-line_of fields [] pdu

    -- `at_parse_cmgr` on a response "+CMGR:STAT,ALPHA,LENGTH\r\nPDU", with any number of blanks in front of STAT,
    -- gives the PDU to `pdu_parse` and answers as that does: where STAT and ALPHA have no comma,
    -- STAT does not begin with a quote or a blank, and LENGTH is decimal digits of a number above 0.
    pub at_parse_cmgr-pdu :
        (n : ℕ)
        → s ≢ 32
        → s ≢ b'"'
        → at_parse_cmgr (ascii "+CMGR:" ++ (blanks n ++ line_of fields pdu)) oa_len
          ≡ of_parsed (pdu_parse pdu oa_len)
    unfolding at_parse_cmgr parse_cmgr_pdu
    at_parse_cmgr-pdu n no_blank no_quote =
        rw (skip_blanks_lem n s _ no_blank, quote_test) (rw marks_are (rw (length_is, pdu_is) refl))
      where
        quote_test : (s == b'"') ≡ false
        quote_test = ground (arith, no_quote)
