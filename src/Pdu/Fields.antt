-- ===== src/Pdu/Fields.antt =====
-- The room that `pdu_parse_number` asks for, against what it writes.
use chan_svistok.Base.{ℕ, ◌+◌, ◌≡◌, refl, List, [], ◌∷◌, ◌++◌, length, length-append, arith, pos}
use chan_svistok.CharConv.{hex2}
use chan_svistok.Pdu.{pdu_store_number, round_up2, pdu_parse_number, toa_international}
use chan_svistok.Pdu.Digits.{AllDial, pdu_parse_number-pdu_store_number}

-- An international number of `n` digits, all symbols that a number may have, for which the check
-- asks for `n + 1` bytes, takes `n + 2` with its plus and its NUL: in a buffer of exactly `n + 1`
-- bytes one is written behind the end.
pub pdu_parse_number_overflows :
    (ds rest : List ℕ)
    → AllDial ds
    → let r =
        pdu_parse_number
          (hex2 toa_international ++ (pdu_store_number ds ++ rest))
          (length ds)
          (length ds + 1) in
      (r.result ≡ pos (2 + round_up2 (length ds))) × (length r.written ≡ length ds + 1 + 1)
pdu_parse_number_overflows ds rest h =
    let e =
      pdu_parse_number-pdu_store_number ds rest toa_international (length ds + 1) h (omega arith)
        (omega arith) in
    rw e (refl, omega (arith, length-append ds (0 ∷ [])))
