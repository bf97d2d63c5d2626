-- ===== src/CharConv/Tests.antt =====
-- The coders on short texts.
use chan_svistok.Base.{ℕ, ◌+◌, ◌≡◌, refl, List, [], ◌∷◌, length, sub_size, arith}
use chan_svistok.CharConv.{
  text, parse_hexdigit, hex_digit, hex2, hexstr_to_8bitchars, pack_loop, char_to_hexstr_7bit,
  unpack_loop, hexstr_7bit_to_char, chars8bit_to_hexstr,
}
use chan_svistok.CharConv.Octets.{hexstr_to_8bitchars-chars8bit_to_hexstr}
use chan_svistok.CharConv.Septets.{char_to_hexstr_7bit_overflows}

abbrev hello : List ℕ
hello = 104 ∷ 101 ∷ 108 ∷ 108 ∷ 111 ∷ []

-- The text E8329BFD06.
abbrev packed : List ℕ
packed = 69 ∷ 56 ∷ 51 ∷ 50 ∷ 57 ∷ 66 ∷ 70 ∷ 68 ∷ 48 ∷ 54 ∷ []

abbrev eight : List ℕ
eight = 97 ∷ 97 ∷ 97 ∷ 97 ∷ 97 ∷ 97 ∷ 97 ∷ 97 ∷ []

hello-packed : char_to_hexstr_7bit hello 11 ≡ text packed
unfolding char_to_hexstr_7bit pack_loop hex2 hex_digit sub_size
hello-packed = refl

hello-unpacked : hexstr_7bit_to_char packed 6 ≡ text hello
unfolding hexstr_7bit_to_char unpack_loop parse_hexdigit sub_size
hello-unpacked = refl

hexstr_to_8bitchars-chars8bit_to_hexstr_example :
    (t : List ℕ) × (chars8bit_to_hexstr hello 11 ≡ text t) × (hexstr_to_8bitchars t 6 ≡ text hello)
hexstr_to_8bitchars-chars8bit_to_hexstr_example =
    hexstr_to_8bitchars-chars8bit_to_hexstr hello 11 6
      (omega arith, (omega arith, (omega arith, (omega arith, (omega arith, tt))))) (omega arith)
      (omega arith) (omega arith) (omega arith)

char_to_hexstr_7bit_overflows_example :
    (t : List ℕ) × (char_to_hexstr_7bit eight 15 ≡ text t) × (length t + 1 ≡ 15 + 2)
char_to_hexstr_7bit_overflows_example =
    char_to_hexstr_7bit_overflows eight 15 (omega arith) refl refl (omega arith)
