-- ===== src/Parse.antt =====
-- at_parse.c: what the responses of a device say. A text is the list of its bytes in front of the NUL, a
-- pointer into it is an index, and a parser that writes to the text returns it as well.
pub mod Marks
pub mod Fields
pub mod Scan
pub mod Values
pub mod Creg
pub mod Sms
mod Tests
use chan_svistok.Base.{
  ℕ, zero, suc, ◌+◌, ◌-◌, List, [], ◌∷◌, Bool, true, false, Option, none, some, ◌==◌, if◌then◌else◌,
  get_or, drop, ascii,
}

-- `mark_line`: the places of the delimiters, each searched behind the one before.
unfoldable pub mark_line : ℕ → List ℕ → List ℕ → List ℕ
mark_line at [] line = []
mark_line at (d ∷ ds) [] = []
mark_line at (d ∷ ds) (c ∷ cs) = elim (c == d) [
  | true ↦ at ∷ mark_line (at + 1) ds cs
  | false ↦ mark_line (at + 1) (d ∷ ds) cs
]

abbrev pub marks : List ℕ → List ℕ → List ℕ
marks delimiters text = mark_line 0 delimiters text

-- The byte at an index, the NUL behind the text, and a NUL written at an index of it.
abbrev pub at : List ℕ → ℕ → ℕ
at text k = get_or text k 0

abbrev pub end_at : List ℕ → ℕ → List ℕ
end_at [] k = []
end_at (c ∷ cs) zero = 0 ∷ cs
end_at (c ∷ cs) (suc k) = c ∷ end_at cs k

-- The string that begins at an index.
abbrev pub until_nul : List ℕ → List ℕ
until_nul [] = []
until_nul (c ∷ cs) = if c == 0 then [] else c ∷ until_nul cs

abbrev pub string_at : List ℕ → ℕ → List ℕ
string_at text k = until_nul (drop k text)

-- A field that a parser cuts out of its text: the pointer that it returns, the place of the NUL that it
-- writes, and the text that it leaves.
pub record Cut : Type 0 where
  pub start : ℕ
  pub stop : ℕ
  pub text : List ℕ

-- The field between the mark `a` and the mark `b`, without a quote behind the one and in front of the
-- other.
unfoldable pub unquote : List ℕ → ℕ → ℕ → Cut
unquote text a b = record { start = start; stop = stop; text = end_at text stop }
  where
    start : ℕ
    start = if at text (a + 1) == b'"' then a + 2 else a + 1

    stop : ℕ
    stop = if at text (b - 1) == b'"' then b - 1 else b

abbrev cnum_marks : List ℕ → List ℕ → Option Cut
cnum_marks text (m₀ ∷ (m₁ ∷ (m₂ ∷ []))) = some (unquote text m₁ m₂)
cnum_marks text ms = none

unfoldable pub at_parse_cnum : List ℕ → Option Cut
at_parse_cnum text = cnum_marks text (marks (ascii ":,,") text)

abbrev cops_marks : List ℕ → List ℕ → Option Cut
cops_marks text (m₀ ∷ (m₁ ∷ (m₂ ∷ (m₃ ∷ [])))) = some (unquote text m₂ m₃)
cops_marks text ms = none

unfoldable pub at_parse_cops : List ℕ → Option Cut
at_parse_cops text = cops_marks text (marks (ascii ":,,,") text)

-- The rest of the text, with its quotes.
abbrev spn_marks : List ℕ → Option ℕ
spn_marks (m₀ ∷ (m₁ ∷ (m₂ ∷ []))) = some (m₂ + 1)
spn_marks ms = none

unfoldable pub at_parse_spn : List ℕ → Option ℕ
at_parse_spn text = spn_marks (marks (ascii ":,,") text)

abbrev csca_marks : List ℕ → List ℕ → Option Cut
csca_marks text (m₀ ∷ (m₁ ∷ [])) =
    some (record { start = m₀ + 1; stop = m₁; text = end_at text m₁ })
csca_marks text ms = none

unfoldable pub at_parse_csca : List ℕ → Option Cut
at_parse_csca text = csca_marks text (marks (ascii "\"\"") text)
