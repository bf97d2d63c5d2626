-- ===== src/CharConv.antt =====
-- char_conv.c: recoding of texts from and to the device. A text is the list of its bytes; what a
-- function writes is returned, without the closing NUL. iconv is not of this repository: it is a
-- parameter of the functions that call it.
pub mod Octets
pub mod Septets
mod Tests
use Prim.Native.Nat.{bit_or}
use chan_svistok.Base.{
  ℕ, zero, suc, ◌+◌, ◌-◌, ◌*◌, ◌/◌, ◌%◌, ◌^◌, List, [], ◌∷◌, ◌++◌, Bool, true, false, ◌&&◌, ◌||◌,
  Option, none, some, ltb, leb, ◌==◌, if◌then◌else◌, length, sub_size, ℤ, pos, negsuc,
}

-- `parse_hexdigit`.
unfoldable pub parse_hexdigit : ℕ → ℤ
parse_hexdigit hex =
    if leb b'0' hex && leb hex b'9'
    then pos (hex - b'0')
    else (if leb b'a' hex && leb hex b'f'
        then pos (hex - b'a' + 10)
        else (if leb b'A' hex && leb hex b'F' then pos (hex - b'A' + 10) else negsuc 0))

-- `hex_table`.
unfoldable pub hex_digit : ℕ → ℕ
hex_digit d = if ltb d 10 then b'0' + d else b'A' + (d - 10)

-- The result of a coder: the text written, or a negative number.
pub data Coded : Type 0 where
  text : List ℕ → Coded
  error : ℤ → Coded

-- -1, -EINVAL and -ENOMEM.
abbrev pub e_fail : ℤ
e_fail = negsuc 0

abbrev pub e_inval : ℤ
e_inval = negsuc 21

abbrev pub e_nomem : ℤ
e_nomem = negsuc 11

infixl 5 ◌>>=◌
abbrev pub ◌>>=◌ : Coded → (List ℕ → Coded) → Coded
text t >>= f = f t
error e >>= f = error e

-- A digit in front of what a coder writes; `rest` is not looked at after an error.
unfoldable pub put_octet : ℤ → ℤ → Coded → Coded
put_octet (negsuc d) e rest = error e_inval
put_octet (pos d) (negsuc e) rest = error e_inval
put_octet (pos d) (pos e) (text t) = text ((bit_or (d * 16) e) % 256 ∷ t)
put_octet (pos d) (pos e) (error z) = error z

-- The loop of `hexstr_to_8bitchars`, over pairs of digits.
unfoldable pub hex_pairs : List ℕ → Coded
unfolding put_octet parse_hexdigit
hex_pairs [] = text []
hex_pairs (a ∷ []) = text []
hex_pairs (a ∷ (b ∷ r)) = put_octet (parse_hexdigit a) (parse_hexdigit b) (hex_pairs r)

unfoldable pub hexstr_to_8bitchars : List ℕ → ℕ → Coded
hexstr_to_8bitchars input out_size =
    if length input % 2 == 1
    then error e_inval
    else (if ltb (sub_size out_size 1) (length input / 2) then error e_nomem else hex_pairs input)

-- The loop of `chars8bit_to_hexstr`.
unfoldable pub to_pairs : List ℕ → List ℕ
unfolding hex_digit
to_pairs [] = []
to_pairs (c ∷ cs) = hex_digit (c / 16) ∷ hex_digit (c % 16) ∷ to_pairs cs

unfoldable pub chars8bit_to_hexstr : List ℕ → ℕ → Coded
unfolding to_pairs
chars8bit_to_hexstr input out_size =
    if ltb (sub_size out_size 1) (length input * 2) then error e_fail else text (to_pairs input)

-- "%.2X" of an `unsigned char`.
unfoldable pub hex2 : ℕ → List ℕ
unfolding hex_digit
hex2 c = hex_digit (c / 16) ∷ hex_digit (c % 16) ∷ []

-- `in[i] >> s` of a `char`, which has a sign, put into an `unsigned char`.
abbrev pub shift_right : ℕ → ℕ → ℕ
shift_right c s = (if ltb c 128 then c else c + 4294967040) / 2 ^ s % 256

-- The loop of `char_to_hexstr_7bit`: `s` bits of the first character are written already.
unfoldable pub pack_loop : List ℕ → ℕ → List ℕ
unfolding hex2
pack_loop [] s = []
pack_loop (c ∷ []) s = hex2 (shift_right c s)
pack_loop (c ∷ (d ∷ r)) s =
    (if s == 7 then [] else hex2 (bit_or (shift_right c s) (d * 2 ^ (7 - s) % 256)))
    ++ pack_loop (d ∷ r) (if s == 7 then 0 else s + 1)

unfoldable pub char_to_hexstr_7bit : List ℕ → ℕ → Coded
unfolding pack_loop
char_to_hexstr_7bit input out_size =
    if ltb (sub_size out_size 1) ((length input - length input / 8) * 2)
    then error e_fail
    else text (pack_loop input 0)

-- `isspace`.
abbrev pub is_space : ℕ → Bool
is_space c = c == 32 || (leb 9 c && leb c 13)

abbrev pub scan_hex1 : ℕ → Option ℕ
scan_hex1 b = elim (parse_hexdigit b) [ negsuc e ↦ none | pos d ↦ some d ]

-- `sscanf (buf, "%x", &hexval)` on two characters, as an `unsigned char`: none if it converts nothing. A first
-- digit alone is taken, and one behind white space or a sign.
unfoldable pub scan_hex2 : ℕ → ℕ → Option ℕ
unfolding parse_hexdigit
scan_hex2 a b =
    if is_space a || a == b'+'
    then scan_hex1 b
    else if a == b'-'
    then elim (scan_hex1 b) [ none ↦ none | some d ↦ some ((256 - d) % 256) ]
    else elim (parse_hexdigit a) [
      | negsuc e ↦ none
      | pos d ↦ elim (parse_hexdigit b) [ negsuc e ↦ some d | pos e ↦ some (d * 16 + e) ]
    ]

abbrev pub put_chars : List ℕ → Coded → Coded
put_chars cs (text t) = text (cs ++ t)
put_chars cs (error e) = error e

-- The loop of `hexstr_7bit_to_char`: `s` is the shift and `b` the bits carried over.
unfoldable pub unpack_loop : List ℕ → ℕ → ℕ → Coded
unfolding scan_hex2
unpack_loop [] s b = text []
unpack_loop (x ∷ []) s b = text []
unpack_loop (x ∷ (y ∷ r)) s b = elim (scan_hex2 x y) [
  | none ↦ error e_fail
  | some v ↦
      let c = bit_or (v * 2 ^ s % 256 / 2) b in
      let carry = v / 2 ^ (8 - s) in
      if s == 7
      then put_chars (c ∷ carry ∷ []) (unpack_loop r 1 0)
      else put_chars (c ∷ []) (unpack_loop r (s + 1) carry)
]

unfoldable pub hexstr_7bit_to_char : List ℕ → ℕ → Coded
unfolding unpack_loop
hexstr_7bit_to_char input out_size =
    let octets = length input / 2 in
    if ltb (sub_size out_size 1) (octets + octets / 7) then error e_fail else unpack_loop input 1 0

unfoldable pub just_copy : List ℕ → ℕ → Coded
just_copy input out_size =
    if leb (length input) (sub_size out_size 1) then text input else error e_nomem

-- `str_encoding_t` and `recode_direction_t`.
pub data StrEncoding : Type 0 where
  bit7_hex bit8_hex ucs2_hex bit7 unknown : StrEncoding

pub data RecodeDirection : Type 0 where
  decode encode : RecodeDirection

-- What `convert_string` gets from iconv for the first byte order and direction, with room for a number
-- of bytes: the converted text, or -2 or -3.
pub record Iconv : Type 0 where
  pub ucs2_to_utf8 : List ℕ → ℕ → Coded
  pub utf8_to_ucs2 : List ℕ → ℕ → Coded

module _ (iconv : Iconv) where
  unfoldable pub hexstr_ucs2_to_utf8 : List ℕ → ℕ → Coded
  unfolding hexstr_to_8bitchars
  hexstr_ucs2_to_utf8 input out_size =
      if ltb (sub_size out_size 1) (length input / 2)
      then error e_fail
      else hexstr_to_8bitchars input out_size >>= λ buf. iconv.ucs2_to_utf8 buf out_size

  unfoldable pub utf8_to_hexstr_ucs2 : List ℕ → ℕ → Coded
  unfolding chars8bit_to_hexstr
  utf8_to_hexstr_ucs2 input out_size =
      if ltb (sub_size out_size 1) (length input * 4)
      then error e_fail
      else iconv.utf8_to_ucs2 input out_size >>= λ buf. chars8bit_to_hexstr buf out_size

  -- `str_recode`, with the table `recoders`.
  unfoldable pub str_recode : RecodeDirection → StrEncoding → List ℕ → ℕ → Coded
  str_recode decode bit7_hex input out_size = hexstr_7bit_to_char input out_size
  str_recode decode bit8_hex input out_size = hexstr_to_8bitchars input out_size
  str_recode decode ucs2_hex input out_size = hexstr_ucs2_to_utf8 input out_size
  str_recode decode bit7 input out_size = just_copy input out_size
  str_recode decode unknown input out_size = error e_inval
  str_recode encode bit7_hex input out_size = char_to_hexstr_7bit input out_size
  str_recode encode bit8_hex input out_size = chars8bit_to_hexstr input out_size
  str_recode encode ucs2_hex input out_size = utf8_to_hexstr_ucs2 input out_size
  str_recode encode bit7 input out_size = just_copy input out_size
  str_recode encode unknown input out_size = error e_inval

-- The two loops of `get_encoding`.
unfoldable pub has_high_bit : List ℕ → Bool
has_high_bit [] = false
has_high_bit (c ∷ cs) = c / 128 % 2 == 1 || has_high_bit cs

unfoldable pub all_hex : List ℕ → Bool
unfolding parse_hexdigit
all_hex [] = true
all_hex (c ∷ cs) = elim (parse_hexdigit c) [ negsuc e ↦ false | pos d ↦ true ] && all_hex cs

unfoldable pub get_encoding : RecodeDirection → List ℕ → StrEncoding
unfolding has_high_bit all_hex
get_encoding encode input = if has_high_bit input then ucs2_hex else bit7_hex
get_encoding decode input = if all_hex input then unknown else bit7
