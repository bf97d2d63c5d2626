-- ===== src/CharConv/Septets.antt =====
-- The length of what `char_to_hexstr_7bit` writes, against the room that it asks for.
use chan_svistok.Base.{
  ℕ, ◌+◌, ◌-◌, ◌*◌, ◌/◌, ◌%◌, ◌≤◌, ◌^◌, ◌<◌, ◌≡◌, ◌≢◌, refl, List, [], ◌∷◌, length, ◌==◌,
  if◌then◌else◌, Bool-cases, inl, inr, arith, sub_size,
}
use chan_svistok.CharConv.{text, hex2, pack_loop, char_to_hexstr_7bit}

pub length-hex2 : (c : ℕ) → length (hex2 c) ≡ 2
unfolding hex2
length-hex2 c = refl

length-pack_loop :
    (x : ℕ) (xs : List ℕ) (s : ℕ)
    → s ≤ 7
    → let n = length xs + 1 in
      length (pack_loop (x ∷ xs) s) + 2 * ((n + s) / 8)
      ≡ 2 * n + (if (n + s) % 8 == 0 then 2 else 0)
unfolding pack_loop
length-pack_loop x [] s h = ground arith
length-pack_loop x (y ∷ r) s h = elim (Bool-cases (s == 7)) [
  | inl e ↦ rw e (ground (arith, length-pack_loop y r 0 (omega arith)))
  | inr e ↦ rw e (ground (arith, length-pack_loop y r (s + 1) (ground arith)))
]

-- The length of the packed text: two digits for each octet, and two more when the number of
-- characters is a multiple of 8.
length-pack :
    (input : List ℕ)
    → length (pack_loop input 0)
      ≡ (length input - length input / 8) * 2
        + (if length input % 8 == 0 then (if length input == 0 then 0 else 2) else 0)
unfolding pack_loop
length-pack [] = refl
length-pack (x ∷ xs) = ground (arith, length-pack_loop x xs 0 (omega arith))

-- What `char_to_hexstr_7bit` writes with its closing NUL fits the buffer, of at least one byte, if
-- the number of characters is no multiple of 8.
pub char_to_hexstr_7bit_fits :
    (input t : List ℕ) (out_size : ℕ)
    → 0 < out_size
    → out_size < 2 ^ 64
    → length input % 8 ≢ 0
    → char_to_hexstr_7bit input out_size ≡ text t
    → length t + 1 ≤ out_size
unfolding char_to_hexstr_7bit sub_size
char_to_hexstr_7bit_fits input t out_size p b ne e = ground (arith, length-pack input)

-- For a multiple of 8 characters, not 0, the check passes with a buffer that is two bytes too short:
-- the function returns a text that with its closing NUL is two bytes longer than the buffer.
pub char_to_hexstr_7bit_overflows :
    (input : List ℕ) (out_size : ℕ)
    → 0 < length input
    → length input % 8 ≡ 0
    → out_size ≡ (length input - length input / 8) * 2 + 1
    → out_size < 2 ^ 64
    → (t : List ℕ) × (char_to_hexstr_7bit input out_size ≡ text t) × (length t + 1 ≡ out_size + 2)
unfolding char_to_hexstr_7bit sub_size
char_to_hexstr_7bit_overflows input out_size p m o b =
    (pack_loop input 0, ground arith, ground (arith, length-pack input))
