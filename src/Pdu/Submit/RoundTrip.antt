-- ===== src/Pdu/Submit/RoundTrip.antt =====
-- What the network reads in an SMS-SUBMIT that `pdu_build` made.
use mathlib.Core.List.{append_assoc}
use native.Mathlib.Decide.{dec_lt}
use chan_svistok.Base.{
  ℕ, suc, ◌+◌, ◌-◌, ◌*◌, ◌/◌, ◌%◌, ◌≤◌, ◌<◌, ◌≡◌, refl, ap, ap₂, ◌∙◌, inl, inr, List, [], ◌∷◌, ◌++◌,
  length, length-append, ltb, le→ltb, lt→ltb, ◌==◌, if◌then◌else◌, Bool-cases, arith,
}
use chan_svistok.CharConv.{Coded, text, error, hex2, hex_digit, Iconv, ◌>>=◌}
use chan_svistok.CharConv.Septets.{length-hex2}
use chan_svistok.Pdu.{
  pdu_store_number, pdu_parse_number, round_up2, length2octets, toa_international, pdu_parse_sca,
  check_encoding, alphabet_ucs2,
}
use chan_svistok.Pdu.Digits.{AllDial, pdu_parse_number-pdu_store_number, length-store}
use chan_svistok.Pdu.Deliver.RoundTrip.{pdu_parse_sca-hex2}
use chan_svistok.Pdu.Submit.{
  hex02, hex_digits, strip_plus, dst_toa, submit_type, build_sca, build_dst, build_ud, build_finish,
  build_room, build_recode, pdu_build,
}

hex_digits-two :
    (n v : ℕ)
    → 16 ≤ v
    → v < 256
    → hex_digits (suc (suc n)) v ≡ hex_digit (v / 16) ∷ hex_digit (v % 16) ∷ []
unfolding hex_digits
hex_digits-two n v l h =
    rw (le→ltb v 16 l, lt→ltb (v / 16) 16 (omega arith))
      (ap (λ d. hex_digit d ∷ hex_digit (v % 16) ∷ []) (omega arith))

hex02-hex2 : (v : ℕ) → v < 256 → hex02 v ≡ hex2 v
unfolding hex02 hex2
hex02-hex2 v h = elim (dec_lt v 16) [
  | yes l ↦
      rw (lt→ltb v 16 l) (
        ap₂ (λ a b. hex_digit a ∷ hex_digit b ∷ []) {x = 0} {y = v / 16} (omega arith)
          (omega arith))
  | no l ↦ rw (le→ltb v 16 (omega arith)) (hex_digits-two 6 v (omega arith) h)
]

-- A successful end puts the three parts one behind the other, the TPDU in at most 178 octets.
build_finish-text :
    (head dst t : List ℕ) (dcs msg_len : ℕ) (recoded : List ℕ)
    → build_finish head dst dcs msg_len recoded ≡ text t
    → (tail : List ℕ) × (t ≡ head ++ (dst ++ tail)) × (length dst + length tail ≤ 178 * 2)
unfolding build_finish
build_finish-text head dst t dcs msg_len recoded e =
    let udl = if dcs == alphabet_ucs2 then length recoded / 2 else msg_len in
    (
      build_ud dcs udl recoded,
      ground arith,
      ground (arith, length-append dst (build_ud dcs udl recoded)),
    )

>>=-text :
    (m : Coded) (f : List ℕ → Coded) (t : List ℕ)
    → (m >>= f) ≡ text t
    → (r : List ℕ) × (f r ≡ text t)
>>=-text (text r) f t h = (r, h)
>>=-text (error e) f t h = cc

pdu_build-parts :
    (iconv : Iconv) (size : ℕ) (sca dst msg t : List ℕ)
    → pdu_build iconv size sca dst msg ≡ text t
    → (tail : List ℕ) × (t
        ≡ build_sca (strip_plus sca) ++ (build_dst (strip_plus dst) (dst_toa dst) ++ tail))
      × (length (build_dst (strip_plus dst) (dst_toa dst)) + length tail ≤ 178 * 2)
unfolding pdu_build
pdu_build-parts iconv size sca dst msg t e =
    elim (Bool-cases (ltb size (build_room (strip_plus sca) (strip_plus dst) msg))) [
      | inl short ↦ ground arith
      | inr enough ↦
          let head = build_sca (strip_plus sca) in
          let to = build_dst (strip_plus dst) (dst_toa dst) in
          let (r, h) =
            >>=-text
              (build_recode iconv (check_encoding msg) msg (size - (length head + length to) - 11))
              (build_finish head to (check_encoding msg) (length msg)) t (ground arith) in
          build_finish-text head to t (check_encoding msg) (length msg) r h
    ]

dst_toa-byte : (dst : List ℕ) → dst_toa dst < 256
dst_toa-byte [] = omega arith
dst_toa-byte (c ∷ cs) = ground arith

abbrev address : List ℕ → List ℕ
address sca = hex2 toa_international ++ pdu_store_number sca

build_sca-hex2 :
    (c : ℕ) (cs rest : List ℕ)
    → length (c ∷ cs) < 500
    → build_sca (c ∷ cs) ++ rest
      ≡ hex2 (length (address (c ∷ cs)) / 2) ++ (address (c ∷ cs) ++ rest)
unfolding build_sca
build_sca-hex2 c cs rest h =
    let n = length (c ∷ cs) in
    rw (hex02-hex2 (1 + length2octets n) (omega arith), hex02-hex2 toa_international (omega arith))
      (append_assoc (hex2 (1 + length2octets n)) (address (c ∷ cs)) rest
        ∙ ap (λ k. hex2 k ++ (address (c ∷ cs) ++ rest)) octets)
  where
    octets : 1 + length2octets (length (c ∷ cs)) ≡ length (address (c ∷ cs)) / 2
    octets = omega (
      arith,
      length-append (hex2 toa_international) (pdu_store_number (c ∷ cs)),
      length-hex2 toa_international,
      length-store (c ∷ cs),
    )

build_sca-parse :
    (sca rest : List ℕ) → length sca < 500 → (pdu_parse_sca (build_sca sca ++ rest)).1 ≡ rest
unfolding build_sca hex2
build_sca-parse [] rest h = ap (λ r. r.1) (pdu_parse_sca-hex2 [] rest (omega arith) (omega arith))
build_sca-parse (c ∷ cs) rest h = rw (build_sca-hex2 c cs rest h) (
    ap (λ r. r.1)
      (pdu_parse_sca-hex2 (address (c ∷ cs)) rest (omega (arith, len)) (omega (arith, len))))
  where
    len : length (address (c ∷ cs)) ≡ 2 + round_up2 (length (c ∷ cs))
    len = omega (
      arith,
      length-append (hex2 toa_international) (pdu_store_number (c ∷ cs)),
      length-hex2 toa_international,
      length-store (c ∷ cs),
    )

build_dst-hex2 :
    (dst : List ℕ) (toa : ℕ) (tail : List ℕ)
    → length dst < 256
    → toa < 256
    → build_dst dst toa ++ tail
      ≡ hex2 submit_type
        ++ (hex2 0 ++ (hex2 (length dst) ++ (hex2 toa ++ (pdu_store_number dst ++ tail))))
unfolding build_dst hex2
build_dst-hex2 dst toa tail h l =
    rw
      (
        hex02-hex2 submit_type (omega arith),
        hex02-hex2 0 (omega arith),
        hex02-hex2 (length dst) h,
        hex02-hex2 toa l,
      )
      refl

-- In a PDU that `pdu_build` made, behind the field of the SMS centre stand a SUBMIT that requests
-- a status report, the message reference 0, the number of digits of the destination, and the
-- number itself, which `pdu_parse_number` reads back, with a plus if the type of address is
-- international; and the whole TPDU has at most 178 octets. The centre has fewer than 500 digits;
-- the destination has fewer than 256, all of them symbols that a number may have.
pub pdu_build-number :
    (iconv : Iconv) (size : ℕ) (sca dst msg t : List ℕ)
    → length (strip_plus sca) < 500
    → length (strip_plus dst) < 256
    → AllDial (strip_plus dst)
    → pdu_build iconv size sca dst msg ≡ text t
    → let digits = strip_plus dst in
      (field : List ℕ) × ((pdu_parse_sca t).1
        ≡ hex2 submit_type ++ (hex2 0 ++ (hex2 (length digits) ++ field)))
      × ((pdu_parse_number field (length digits) (length digits + 1)).written
          ≡ (if dst_toa dst == toa_international then b'+' ∷ [] else []) ++ (digits ++ (0 ∷ [])))
      × (length (pdu_parse_sca t).1 ≤ 178 * 2)
pdu_build-number iconv size sca dst msg t s d dial e =
    let (tail, parts, short) = pdu_build-parts iconv size sca dst msg t e in
    let digits = strip_plus dst in
    let number = hex2 (dst_toa dst) ++ (pdu_store_number digits ++ tail) in
    let parsed : (pdu_parse_sca t).1 ≡ build_dst digits (dst_toa dst) ++ tail =
      rw parts (build_sca-parse (strip_plus sca) (build_dst digits (dst_toa dst) ++ tail) s) in
    (
      number,
      parsed ∙ build_dst-hex2 digits (dst_toa dst) tail d (dst_toa-byte dst),
      ap (λ r. r.written)
          (pdu_parse_number-pdu_store_number digits tail (dst_toa dst) (length digits + 1) dial
            (dst_toa-byte dst) (omega arith)),
      omega (arith, ap length parsed, length-append (build_dst digits (dst_toa dst)) tail),
    )
