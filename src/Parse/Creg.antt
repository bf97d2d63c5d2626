-- ===== src/Parse/Creg.antt =====
-- at_parse.c: `at_parse_creg`, with its state machine.
pub mod Inv
use chan_svistok.Base.{
  ℕ, zero, suc, ◌+◌, ◌-◌, ◌≤◌, ◌<◌, ◌≡◌, refl, List, [], ◌∷◌, Bool, true, false, ◌&&◌, ◌||◌, not,
  Option, none, some, ◌==◌, ltb, if◌then◌else◌, length, arith, ℤ, pos, negsuc,
}
use chan_svistok.Parse.{end_at, string_at}
use chan_svistok.Parse.Scan.{strtol, int_of, low_bits}

-- The variables of the loop, with the text that it writes to.
pub record Creg : Type 0 where
  pub state : ℕ
  pub p1 : Option ℕ
  pub p2 : Option ℕ
  pub p3 : Option ℕ
  pub p4 : Option ℕ
  pub text : List ℕ

-- A comma ends a field.
abbrev comma : ℕ → ℕ → Creg → Creg
comma i c m = if c == b',' then record m { state = m.state + 1; text = end_at m.text i } else m

-- The body of the loop at the byte `c` of the index `i`, in each state.
unfoldable pub creg_state : ℕ → ℕ → ℕ → Creg → Creg
creg_state s i c m =
    if s == 0
    then (if c == b':' then record m { state = 1 } else m)
    else if s == 1
    then comma i c (if c == 32 then m else record m { p1 = some i; state = 2 })
    else if s == 3
    then comma i c (if c == 32 then m else record m { p2 = some i; state = 4 })
    else if s == 5
    then comma i c (if c == 32 then m else record m { p3 = some i; state = 6 })
    else if s == 7
    then (if c == 32 then m else record m { p4 = some i; state = 8 })
    else if ltb s 8
    then comma i c m
    else m

-- `for (i = 0, state = 0; i < len && state < 8; i++)`.
unfoldable pub creg_loop : ℕ → List ℕ → Creg → Creg
unfolding creg_state
creg_loop i [] m = m
creg_loop i (c ∷ cs) m = elim (ltb m.state 8) [
  | false ↦ m
  | true ↦ creg_loop (i + 1) cs (creg_state m.state i c m)
]

abbrev pub creg_start : List ℕ → Creg
creg_start text = record { state = 0; p1 = none; p2 = none; p3 = none; p4 = none; text = text }

-- What is stored, and the result.
pub record Registration : Type 0 where
  pub result : ℤ
  pub gsm_reg : ℕ
  pub gsm_reg_status : ℤ
  pub lac : Option (List ℕ)
  pub ci : Option (List ℕ)

abbrev not_registered : Registration
not_registered = record {
  result = negsuc 0;
  gsm_reg = 0;
  gsm_reg_status = negsuc 0;
  lac = none;
  ci = none;
}

abbrev has {ℓ} : {A : Type ℓ} → Option A → Bool
has none = false
has (some a) = true

-- Where the status stands: in the second field if there are two fields or four, else in the first.
abbrev status_of : Creg → Option ℕ
status_of m =
    if (has m.p2 && (not (has m.p3) && not (has m.p4))) || (has m.p2 && (has m.p3 && has m.p4))
    then m.p2
    else m.p1

abbrev string_of : Creg → Option ℕ → Option (List ℕ)
string_of m none = none
string_of m (some p) = some (string_at m.text p)

abbrev lac_of : Creg → Option (List ℕ)
lac_of m =
    if has m.p2 && (has m.p3 && not (has m.p4))
    then string_of m m.p2
    else (if has m.p3 && has m.p4 then string_of m m.p3 else none)

abbrev ci_of : Creg → Option (List ℕ)
ci_of m =
    if has m.p2 && (has m.p3 && not (has m.p4))
    then string_of m m.p3
    else (if has m.p3 && has m.p4 then string_of m m.p4 else none)

abbrev registered : ℤ → ℕ
registered (pos n) = if n == 1 || n == 5 then 1 else 0
registered (negsuc n) = 0

abbrev is_zero : ℤ → Bool
is_zero (pos n) = n == 0
is_zero (negsuc n) = false

abbrev with_status : Bool → Creg → Option (List ℕ) → Registration
with_status einval m none = record {
  result = pos 0;
  gsm_reg = 0;
  gsm_reg_status = negsuc 0;
  lac = lac_of m;
  ci = ci_of m;
}
with_status einval m (some digits) = if is_zero status && einval then not_registered else record {
  result = pos 0;
  gsm_reg = registered status;
  gsm_reg_status = status;
  lac = lac_of m;
  ci = ci_of m;
}
  where
    status : ℤ
    status = int_of (low_bits (strtol digits).0)

-- The part behind the loop. `einval` says whether `strtol` sets errno to EINVAL on the text, which POSIX leaves
-- open where no digit is read.
unfoldable pub creg_finish : (List ℕ → Bool) → Creg → Registration
unfolding strtol
creg_finish einval m =
    if ltb m.state 2
    then not_registered
    else with_status (flag (string_of m (status_of m))) m (string_of m (status_of m))
  where
    flag : Option (List ℕ) → Bool
    flag none = false
    flag (some text) = einval text

unfoldable pub at_parse_creg : (List ℕ → Bool) → List ℕ → Registration
unfolding creg_loop creg_finish
at_parse_creg einval text = creg_finish einval (creg_loop 0 text (creg_start text))
