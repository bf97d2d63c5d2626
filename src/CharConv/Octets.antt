-- ===== src/CharConv/Octets.antt =====
-- Hexadecimal texts: what is written is read back.
use Prim.Native.Nat.{bit_or}
use chan_svistok.Base.{
  ◌≤◌, false, if◌then◌else◌, Bool-cases, inl, inr, ℕ, zero, suc, ◌*◌, ◌/◌, ◌%◌, ◌^◌, ◌<◌, ◌≡◌, refl,
  ap, ◌∙◌, List, [], ◌∷◌, Bool, true, length, ◌==◌, ==→eq, arith, sub_size, pos,
}
use chan_svistok.CharConv.{
  text, parse_hexdigit, hex_digit, put_octet, hex_pairs, hexstr_to_8bitchars, to_pairs,
  chars8bit_to_hexstr,
}

-- The two digits of a byte, put together again.
abbrev joined : ℕ → ℕ
joined c = bit_or (c / 16 * 16) (c % 16) % 256

-- The numbers from `c` down are what their digits join to.
joins_from : ℕ → Bool
joins_from zero = joined 0 == 0
joins_from (suc c) = if joined (suc c) == suc c then joins_from c else false

joins_from-joined : (top c : ℕ) → c ≤ top → joins_from top ≡ true → joined c ≡ c
unfolding joins_from
joins_from-joined top c h e = elim (Bool-cases (joined c == c)) [
  | inl y ↦ ==→eq (joined c) c y
  | inr n ↦ absurd (lower top h e n)
]
  where
    lower : (top : ℕ) → c ≤ top → joins_from top ≡ true → (joined c == c) ≡ false → ⊥
    lower zero h e n = ground arith
    lower (suc t) h e n = ground (arith, lower t)

pub join_digits : (c : ℕ) → c < 256 → bit_or (c / 16 * 16) (c % 16) % 256 ≡ c
unfolding joins_from
join_digits c h = joins_from-joined 255 c (omega arith) refl

-- A digit that is written is read back.
pub parse_hexdigit-hex_digit : (d : ℕ) → d < 16 → parse_hexdigit (hex_digit d) ≡ pos d
unfolding parse_hexdigit hex_digit
parse_hexdigit-hex_digit d h = ground arith

abbrev pub AllBytes : List ℕ → Type 0
AllBytes [] = Unit {0}
AllBytes (c ∷ cs) = (c < 256) × AllBytes cs

hex_pairs-to_pairs : (cs : List ℕ) → AllBytes cs → hex_pairs (to_pairs cs) ≡ text cs
unfolding hex_pairs to_pairs put_octet
hex_pairs-to_pairs [] h = refl
hex_pairs-to_pairs (c ∷ cs) h =
    rw
      (
        parse_hexdigit-hex_digit (c / 16) (omega arith),
        parse_hexdigit-hex_digit (c % 16) (omega arith),
        hex_pairs-to_pairs cs h.1,
      )
      (ap (λ x. text (x ∷ cs)) (join_digits c h.0))

length-to_pairs : (cs : List ℕ) → length (to_pairs cs) ≡ length cs * 2
unfolding to_pairs
length-to_pairs [] = refl
length-to_pairs (c ∷ cs) = omega (arith, length-to_pairs cs)

hexstr_to_8bitchars-even :
    (t : List ℕ) (n out_size : ℕ)
    → length t ≡ n * 2
    → n < out_size
    → out_size < 2 ^ 64
    → hexstr_to_8bitchars t out_size ≡ hex_pairs t
unfolding hexstr_to_8bitchars sub_size
hexstr_to_8bitchars-even t n out_size e l b = ground arith

-- `hexstr_to_8bitchars` reads back what `chars8bit_to_hexstr` writes, for all bytes, where each is
-- given a buffer that is large enough, of fewer than 2^64 bytes.
pub hexstr_to_8bitchars-chars8bit_to_hexstr :
    (cs : List ℕ) (out_size out_size' : ℕ)
    → AllBytes cs
    → length cs * 2 < out_size
    → out_size < 2 ^ 64
    → length cs < out_size'
    → out_size' < 2 ^ 64
    → (t : List ℕ) × (chars8bit_to_hexstr cs out_size ≡ text t)
      × (hexstr_to_8bitchars t out_size' ≡ text cs)
unfolding chars8bit_to_hexstr sub_size
hexstr_to_8bitchars-chars8bit_to_hexstr cs out_size out_size' h a b c d = (
  to_pairs cs,
  ground arith,
  hexstr_to_8bitchars-even (to_pairs cs) (length cs) out_size' (length-to_pairs cs) c d
      ∙ hex_pairs-to_pairs cs h,
)
