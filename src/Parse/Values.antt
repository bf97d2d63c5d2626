-- ===== src/Parse/Values.antt =====
-- at_parse.c: the parsers that read numbers, and the state of the SIM card.
pub mod Entry
pub mod Sim
use chan_svistok.Base.{
  ℕ, zero, suc, ◌+◌, ◌-◌, ◌≤◌, ◌<◌, ◌≡◌, refl, ap, ap₂, ◌∙◌, List, [], ◌∷◌, ◌++◌, Bool, true, false,
  Bool-cases, Option, none, some, ◌==◌, ◌&&◌, ltb, ==→eq, if◌then◌else◌, length, drop, drop-append,
  arith, ascii, ℤ, pos, negsuc, inl, inr, take,
}
use native.Mathlib.Decide.{dec_lt}
use mathlib.Core.Option
use chan_svistok.Memory.{Bytes, memmem}
use chan_svistok.Memory.Find.{FirstOf, OccursAt, memmem_lem}
use chan_svistok.Parse.{mark_line, marks, at, end_at, Cut, unquote}
use chan_svistok.Parse.Marks.{Field, line_of, Free, AllFree, mark_line-line_of}
use chan_svistok.Parse.Scan.{
  skip_space, numeral, Numeral, scan_unsigned, scan_int, int_of, IsNumber, value, value_from,
  scan_unsigned_lem,
}

-- The bytes of a format that stand for themselves.
abbrev pub literal : List ℕ → List ℕ → Option (List ℕ)
literal [] text = some text
literal (c ∷ cs) [] = none
literal (c ∷ cs) (x ∷ xs) = if c == x then literal cs xs else none

-- The result of `sscanf`: a failed match ends the list of what was converted.
abbrev scan_next : Option (ℤ × List ℕ) → (ℤ → List ℕ → List ℤ) → List ℤ
scan_next none k = []
scan_next (some (n, rest)) k = n ∷ k n rest

-- "%d,%d,...", for the number of conversions given.
unfoldable pub scan_ints : ℕ → List ℕ → List ℤ
unfolding scan_int
scan_ints zero text = []
scan_ints (suc n) text =
    scan_next (scan_int text)
      (λ i rest. elim (literal (ascii ",") rest) [ none ↦ [] | some later ↦ scan_ints n later ])

abbrev scan_after : List ℕ → ℕ → List ℕ → List ℤ
scan_after prefix n text = elim (literal prefix text) [ none ↦ [] | some rest ↦ scan_ints n rest ]

-- "%2d" has at most two bytes behind the spaces.
unfoldable pub at_parse_csq : List ℕ → Option ℤ
unfolding scan_int skip_space
at_parse_csq text = elim (literal (ascii "+CSQ:") text) [
  | none ↦ none
  | some rest ↦ Option.map (λ n. n.0) (scan_int (take 2 (skip_space rest)))
]

unfoldable pub at_parse_rssi : List ℕ → ℤ
unfolding scan_ints
at_parse_rssi text = elim (scan_after (ascii "^RSSI:") 1 text) [ [] ↦ negsuc 0 | ◌∷◌ n ns ↦ n ]

abbrev of_two : List ℤ → Option (ℤ × ℤ)
of_two (a ∷ (b ∷ [])) = some (a, b)
of_two ns = none

unfoldable pub at_parse_mode : List ℕ → Option (ℤ × ℤ)
unfolding scan_ints
at_parse_mode text = of_two (scan_after (ascii "^MODE:") 2 text)

pub record Sysinfo : Type 0 where
  pub srvst : ℤ
  pub srvd : ℤ
  pub roamst : ℤ
  pub sysmode : ℤ
  pub simst : ℤ

abbrev of_five : List ℤ → Option Sysinfo
of_five (a ∷ (b ∷ (c ∷ (d ∷ (e ∷ []))))) =
    some (record { srvst = a; srvd = b; roamst = c; sysmode = d; simst = e })
of_five ns = none

unfoldable pub at_parse_sysinfo : List ℕ → Option Sysinfo
unfolding scan_ints
at_parse_sysinfo text = of_five (scan_after (ascii "^SYSINFO:") 5 text)

-- The bytes up to a comma, at least one, for "%*[^,],".
abbrev before_comma : List ℕ → Option (List ℕ)
before_comma [] = none
before_comma (c ∷ cs) = if c == b',' then some cs else before_comma cs

abbrev past_memory : List ℕ → Option (List ℕ)
past_memory [] = none
past_memory (c ∷ cs) = if c == b',' then none else before_comma cs

unfoldable pub at_parse_cmti : List ℕ → ℤ
unfolding scan_unsigned skip_space
at_parse_cmti text = elim (literal (ascii "+CMTI:") text) [
  | none ↦ negsuc 0
  | some rest ↦ elim (past_memory (skip_space rest)) [
    | none ↦ negsuc 0
    | some index ↦ elim (scan_unsigned index) [ none ↦ negsuc 0 | some n ↦ int_of n ]
  ]
]

abbrev ccwa_marks : List ℕ → List ℕ → Option ℕ
ccwa_marks text (m₀ ∷ (m₁ ∷ (m₂ ∷ []))) = scan_unsigned (drop (m₂ + 1) text)
ccwa_marks text ms = none

unfoldable pub at_parse_ccwa : List ℕ → Option ℕ
unfolding scan_unsigned
at_parse_ccwa text = ccwa_marks text (marks (ascii ":,,") text)

-- What `at_parse_clcc` stores, if it succeeds.
pub record Clcc : Type 0 where
  pub call_idx : ℕ
  pub dir : ℕ
  pub state : ℕ
  pub mode : ℕ
  pub mpty : ℕ
  pub number : Cut
  pub toa : ℕ

infixl 5 ◌>>=◌
abbrev pub ◌>>=◌ {ℓ κ} : {A : Type ℓ} {B : Type κ} → Option A → (A → Option B) → Option B
none >>= f = none
some a >>= f = f a

abbrev pub clcc_marks : List ℕ → List ℕ → Option Clcc
clcc_marks text (m₀ ∷ (m₁ ∷ (m₂ ∷ (m₃ ∷ (m₄ ∷ (m₅ ∷ (m₆ ∷ []))))))) = do
  call_idx ← scan_unsigned (drop (m₀ + 1) text)
  dir ← scan_unsigned (drop (m₁ + 1) text)
  state ← scan_unsigned (drop (m₂ + 1) text)
  mode ← scan_unsigned (drop (m₃ + 1) text)
  mpty ← scan_unsigned (drop (m₄ + 1) text)
  toa ← scan_unsigned (drop (m₆ + 1) text)
  some (record {
    call_idx = call_idx;
    dir = dir;
    state = state;
    mode = mode;
    mpty = mpty;
    number = unquote text m₅ m₆;
    toa = toa;
  })
clcc_marks text ms = none

unfoldable pub at_parse_clcc : List ℕ → Option Clcc
unfolding scan_unsigned
at_parse_clcc text = clcc_marks text (marks (ascii ":,,,,,,") text)

-- What `at_parse_cusd` stores: "" is a text of its own, and -1 the value where none is read.
pub record Cusd : Type 0 where
  pub type : ℤ
  pub cusd : Option Cut
  pub dcs : ℤ

abbrev unsigned_or : ℤ → Option ℕ → ℤ
unsigned_or d none = d
unsigned_or d (some n) = int_of n

-- A field that goes on to the end of the text.
unfoldable pub unquote_last : List ℕ → ℕ → Cut
unquote_last text a =
    if at text (length text - 1) == b'"' && ltb start (length text)
    then record { start = start; stop = length text - 1; text = end_at text (length text - 1) }
    else record { start = start; stop = length text; text = text }
  where
    start : ℕ
    start = if at text (a + 1) == b'"' then a + 2 else a + 1

abbrev cusd_fields : List ℕ → ℤ → List ℕ → Cusd
cusd_fields text type [] = record { type = type; cusd = none; dcs = negsuc 0 }
cusd_fields text type (m₁ ∷ []) = record {
  type = type;
  cusd = some (unquote_last text m₁);
  dcs = negsuc 0;
}
cusd_fields text type (m₁ ∷ (m₂ ∷ ms)) = record {
  type = type;
  cusd = some (unquote text m₁ m₂);
  dcs = unsigned_or (negsuc 0) (scan_unsigned (drop (m₂ + 1) text));
}

abbrev cusd_marks : List ℕ → List ℕ → Option Cusd
cusd_marks text [] = none
cusd_marks text (m₀ ∷ ms) = elim (scan_unsigned (drop (m₀ + 1) text)) [
  | none ↦ none
  | some n ↦ some (cusd_fields text (int_of n) ms)
]

unfoldable pub at_parse_cusd : List ℕ → Option Cusd
unfolding scan_unsigned unquote_last
at_parse_cusd text = cusd_marks text (marks (ascii ":,,") text)

-- `at_parse_cpin`: the index of the first text of its table that occurs.
abbrev pub cpin_values : List (List ℕ)
cpin_values = ascii "READY" ∷ ascii "SIM PIN" ∷ ascii "SIM PUK" ∷ []

unfoldable pub cpin_from : ℕ → List (List ℕ) → Bytes → ℕ → ℤ
cpin_from idx [] str len = negsuc 0
cpin_from idx (v ∷ vs) str len = elim (memmem str len (at v) (length v)) [
  | none ↦ cpin_from (idx + 1) vs str len
  | some p ↦ pos idx
]

unfoldable pub at_parse_cpin : Bytes → ℕ → ℤ
unfolding cpin_from
at_parse_cpin str len = cpin_from 0 cpin_values str len
