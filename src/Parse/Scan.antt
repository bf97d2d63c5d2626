-- ===== src/Parse/Scan.antt =====
-- Numbers as `strtol` and `sscanf` with "%u" and "%d" read them, and that decimal digits are read as what
-- they stand for.
use chan_svistok.Base.{
  ℕ, ◌+◌, ◌-◌, ◌*◌, ◌%◌, ◌^◌, ◌≤◌, ◌<◌, ◌≡◌, refl, ap, List, [], ◌∷◌, ◌++◌, Bool, true, false, ◌||◌,
  ◌&&◌, Option, none, some, ◌==◌, ltb, leb, le→ltb, if◌then◌else◌, min, length, drop, arith, ℤ, pos,
  negsuc,
}

abbrev pub is_space : ℕ → Bool
is_space c = c == 32 || (ltb 8 c && ltb c 14)

abbrev pub is_digit : ℕ → Bool
is_digit c = leb 48 c && leb c 57

unfoldable pub skip_space : List ℕ → List ℕ
skip_space [] = []
skip_space (c ∷ cs) = if is_space c then skip_space cs else c ∷ cs

-- The digits at the front, and the number that they stand for behind those that were read.
unfoldable pub digits : List ℕ → List ℕ
digits [] = []
digits (c ∷ cs) = if is_digit c then c ∷ digits cs else []

unfoldable pub value_from : ℕ → List ℕ → ℕ
value_from n [] = n
value_from n (d ∷ ds) = value_from (n * 10 + (d - 48)) ds

abbrev pub value : List ℕ → ℕ
value ds = value_from 0 ds

pub record Numeral : Type 0 where
  pub minus : Bool
  pub digit_list : List ℕ
  pub rest : List ℕ

abbrev of_digits : Bool → List ℕ → Option Numeral
of_digits minus text =
    let ds = digits text in
    if length ds == 0
    then none
    else some (record { minus = minus; digit_list = ds; rest = drop (length ds) text })

abbrev with_sign : List ℕ → Option Numeral
with_sign [] = none
with_sign (c ∷ cs) =
    if c == b'-'
    then of_digits true cs
    else (if c == b'+' then of_digits false cs else of_digits false (c ∷ cs))

unfoldable pub numeral : List ℕ → Option Numeral
unfolding skip_space digits
numeral text = with_sign (skip_space text)

-- The value is held at the greatest that the type has room for; "%u" keeps its low 32 bits.
unfoldable pub to_unsigned : Numeral → ℕ
unfolding value_from
to_unsigned n =
    let v = value n.digit_list in
    (if ltb (2 ^ 64 - 1) v then 2 ^ 64 - 1 else (if n.minus then (2 ^ 64 - v) % 2 ^ 64 else v))
    % 2 ^ 32

unfoldable pub to_long : Numeral → ℤ
unfolding value_from
to_long n =
    let v = value n.digit_list in
    if n.minus
    then (if v == 0 then pos 0 else negsuc (min v (2 ^ 63) - 1))
    else pos (min v (2 ^ 63 - 1))

-- An `int` of 32 bits.
abbrev pub int_of : ℕ → ℤ
int_of n = if ltb n (2 ^ 31) then pos n else negsuc (2 ^ 32 - 1 - n)

abbrev pub low_bits : ℤ → ℕ
low_bits (pos n) = n % 2 ^ 32
low_bits (negsuc n) = 2 ^ 32 - 1 - n % 2 ^ 32

-- "%u" and "%d" of `sscanf`; none where no digit follows.
unfoldable pub scan_unsigned : List ℕ → Option ℕ
unfolding numeral to_unsigned
scan_unsigned text = elim (numeral text) [ none ↦ none | some n ↦ some (to_unsigned n) ]

unfoldable pub scan_int : List ℕ → Option (ℤ × List ℕ)
unfolding numeral to_long
scan_int text = elim (numeral text) [
  | none ↦ none
  | some n ↦ some (int_of (low_bits (to_long n)), n.rest)
]

-- `strtol` in base 10, with the text that is left, all of it where no digit follows.
unfoldable pub strtol : List ℕ → ℤ × List ℕ
unfolding numeral to_long
strtol text = elim (numeral text) [ none ↦ (pos 0, text) | some n ↦ (to_long n, n.rest) ]

abbrev pub AllDigits : List ℕ → Type 0
AllDigits [] = Unit {0}
AllDigits (d ∷ ds) = (48 ≤ d) × (d ≤ 57) × AllDigits ds

-- Digits, at least one of them, that stand for a number of 32 bits.
pub record IsNumber (ds : List ℕ) : Type 0 where
  pub not_empty : 0 < length ds
  pub all_digits : AllDigits ds
  pub small : value ds < 2 ^ 32

digits_lem :
    (ds rest : List ℕ) (c : ℕ) → AllDigits ds → is_digit c ≡ false → digits (ds ++ (c ∷ rest)) ≡ ds
unfolding digits
digits_lem [] rest c a n = rw n refl
digits_lem (d ∷ ds) rest c a n = ground (arith, digits_lem ds rest c)

drop-digits : (ds rest : List ℕ) → drop (length ds) (ds ++ rest) ≡ rest
drop-digits [] rest = refl
drop-digits (d ∷ ds) rest = drop-digits ds rest

pub numeral_lem :
    (ds rest : List ℕ) (c : ℕ)
    → 0 < length ds
    → AllDigits ds
    → is_digit c ≡ false
    → numeral (ds ++ (c ∷ rest)) ≡ some (record { minus = false; digit_list = ds; rest = c ∷ rest })
unfolding numeral skip_space
numeral_lem [] rest c l a n = absurd (omega arith)
numeral_lem (d ∷ ds) rest c l a n =
    rw (numeral, no_space)
      (rw (not_minus, not_plus)
        (rw (digits_lem (d ∷ ds) rest c a n, some_digits)
          (ap (λ r. some (record { minus = false; digit_list = d ∷ ds; rest = r }))
            (drop-digits (d ∷ ds) (c ∷ rest)))))
  where
    no_space : skip_space (d ∷ (ds ++ (c ∷ rest))) ≡ d ∷ (ds ++ (c ∷ rest))
    no_space = ground (arith, a.0, a.1)

    not_minus : (d == b'-') ≡ false
    not_minus = ground (arith, a.0)

    some_digits : (length (d ∷ ds) == 0) ≡ false
    some_digits = ground arith

    not_plus : (d == b'+') ≡ false
    not_plus = ground (arith, a.0)

-- Digits that stand for a number of 32 bits are read as that number, if no digit follows.
pub scan_unsigned_lem :
    (ds rest : List ℕ) (c : ℕ)
    → IsNumber ds
    → is_digit c ≡ false
    → scan_unsigned (ds ++ (c ∷ rest)) ≡ some (value ds)
unfolding scan_unsigned to_unsigned
scan_unsigned_lem ds rest c d n =
    rw (scan_unsigned, numeral_lem ds rest c d.not_empty d.all_digits n)
      (ap some (
        rw (to_unsigned, le→ltb (2 ^ 64 - 1) (value ds) (omega (arith, d.small)))
          (omega (arith, d.small))))
