-- ===== src/Pdu/Deliver.antt =====
-- `pdu_parse` and `pdu_parse_cds`: parsing an SMS-DELIVER and a status report.
pub mod RoundTrip
use chan_svistok.Base.{
  ℕ, zero, suc, ◌+◌, ◌-◌, ◌*◌, ◌/◌, ◌%◌, ◌^◌, List, [], ◌∷◌, ◌++◌, Bool, true, false, not, ◌&&◌,
  ◌||◌, Option, none, some, ltb, leb, ◌==◌, if◌then◌else◌, length, take, drop, ℤ, pos, negsuc,
}
use chan_svistok.CharConv.{StrEncoding, bit7_hex, bit8_hex, ucs2_hex, bit7, unknown}
use chan_svistok.Pdu.{
  Number, pdu_parse_byte, pdu_parse_number, pdu_parse_sca, pdu_parse_timestamp,
  pdu_dcs_alpabet2encoding,
}

-- The messages of the two functions.
pub data PduError : Type 0 where
  no_sca no_pdu_type unhandled_mti no_oa_length no_oa no_pid unhandled_pid no_dcs : PduError
  unsupported_dcs no_timestamp no_udl udl_mismatch invalid_udh no_udhl : PduError

pub data Parsed {ℓ} (A : Type ℓ) : Type ℓ where
  ok : A → Parsed A
  err : PduError → Parsed A

infixl 5 ◌>>=◌ ◌>>◌
abbrev pub ◌>>=◌ {ℓ κ} : {A : Type ℓ} {B : Type κ} → Parsed A → (A → Parsed B) → Parsed B
ok a >>= f = f a
err e >>= f = err e

abbrev pub ◌>>◌ {ℓ} : {B : Type ℓ} → Parsed (Unit {0}) → Parsed B → Parsed B
m >> k = m >>= λ _. k

abbrev pub guard : Bool → PduError → Parsed (Unit {0})
guard true e = ok tt
guard false e = err e

-- A field whose value must be at least `least`.
abbrev pub field_of : ℕ → PduError → ℤ × List ℕ → Parsed (ℕ × List ℕ)
field_of least e (pos n, rest) = if leb least n then ok (n, rest) else err e
field_of least e (negsuc n, rest) = err e

-- A value that must not be below 0.
abbrev pub value_of : PduError → ℤ × List ℕ → Parsed (ℕ × List ℕ)
value_of e (pos n, rest) = ok (n, rest)
value_of e (negsuc n, rest) = err e

abbrev pub byte : PduError → List ℕ → Parsed (ℕ × List ℕ)
byte e pdu = value_of e (pdu_parse_byte pdu)

-- The parts of the PDU type and of the data coding scheme: `PDUTYPE_MTI`, `PDUTYPE_UDHI`,
-- `PDU_DCS_ALPABET`, `PDU_DCS_COMPRESSION` and `PDU_DCS_76`.
abbrev pub mti : ℕ → ℕ
mti pdu_type = pdu_type % 4

abbrev pub has_udh : ℕ → Bool
has_udh pdu_type = pdu_type / 64 % 2 == 1

abbrev pub alphabet : ℕ → ℕ
alphabet dcs = dcs / 4 % 4 * 4

abbrev pub supported_dcs : ℕ → Bool
supported_dcs dcs =
    dcs / 64 % 4 == 0
    && (dcs / 32 % 2 == 0 && (alphabet dcs == 0 || (alphabet dcs == 4 || alphabet dcs == 8)))

-- The number of octets of the user data.
abbrev pub ud_octets : ℕ → ℕ → ℕ
ud_octets dcs udl = if alphabet dcs == 0 then (udl + 1) * 7 / 8 else udl

-- Skip the user data header, if there is one.
unfoldable pub skip_udh : ℕ → List ℕ → Parsed (List ℕ)
skip_udh pdu_type rest =
    if has_udh pdu_type
    then (do
      (udhl, ud) ← byte no_udhl rest
      guard (leb (udhl * 2) (length ud)) invalid_udh
      ok (drop (udhl * 2) ud))
    else ok rest

-- What is parsed: the originator as written to `oa`, and the text with its encoding.
pub record Message : Type 0 where
  pub oa : List ℕ
  pub oa_enc : StrEncoding
  pub msg : List ℕ
  pub msg_enc : StrEncoding

-- `pdu_parse_number` for the originator; its result must be above 0.
abbrev pub originator : List ℕ → ℕ → ℕ → Parsed (List ℕ × List ℕ)
originator pdu digits oa_len =
    let n = pdu_parse_number pdu digits oa_len in
    field_of 1 no_oa (n.result, n.rest) >>= λ (_, rest). ok (n.written, rest)

unfoldable pub pdu_parse : List ℕ → ℕ → Parsed Message
pdu_parse pdu oa_len = do
  (_, tpdu) ← field_of 1 no_sca (pdu_parse_sca pdu)
  (pdu_type, p₁) ← byte no_pdu_type tpdu
  guard (mti pdu_type == 0) unhandled_mti
  (digits, p₂) ← field_of 1 no_oa_length (pdu_parse_byte p₁)
  (oa, p₃) ← originator p₂ digits oa_len
  (pid, p₄) ← byte no_pid p₃
  guard (pid == 0) unhandled_pid
  (dcs, p₅) ← byte no_dcs p₄
  guard (supported_dcs dcs) unsupported_dcs
  (_, p₆) ← value_of no_timestamp (pdu_parse_timestamp p₅)
  (udl, ud) ← byte no_udl p₆
  guard (ud_octets dcs udl * 2 == length ud) udl_mismatch
  msg ← skip_udh pdu_type ud
  ok (record {
    oa = oa;
    oa_enc = bit7;
    msg = msg;
    msg_enc = pdu_dcs_alpabet2encoding (alphabet dcs);
  })

-- `pdu_parse_cds`: the number of the report; the text is made empty.
unfoldable pub pdu_parse_cds : List ℕ → ℕ → Parsed (List ℕ)
pdu_parse_cds pdu oa_len = do
  (_, tpdu) ← field_of 1 no_sca (pdu_parse_sca pdu)
  (pdu_type, p₁) ← byte no_pdu_type tpdu
  guard (mti pdu_type == 2) unhandled_mti
  let p₂ = (pdu_parse_byte p₁).1
  (digits, p₃) ← field_of 1 no_oa_length (pdu_parse_byte p₂)
  ok ((pdu_parse_number p₃ digits oa_len).written)
