-- ===== src/Parse/Marks.antt =====
-- `mark_line` finds the delimiters: on any text, and on a line that is made of fields.
use chan_svistok.Base.{
  Bool, true, not, ◌&&◌, ℕ, suc, ◌+◌, ◌≤◌, ◌<◌, ◌≡◌, ◌≢◌, refl, ap, ap₂, ◌∙◌, inl, inr, List, [],
  ◌∷◌, ◌++◌, map, false, Bool-cases, ◌==◌, ==→eq, eq→==, length, get_or, arith,
}
use chan_svistok.Parse.{mark_line, marks, at}

mark_line-here :
    (low d c : ℕ) (ds cs : List ℕ)
    → c ≡ d
    → mark_line low (d ∷ ds) (c ∷ cs) ≡ low ∷ mark_line (low + 1) ds cs
unfolding mark_line
mark_line-here low d c ds cs e = rw (mark_line, eq→== c d e) refl

mark_line-further :
    (low d c : ℕ) (ds cs : List ℕ)
    → (c == d) ≡ false
    → mark_line low (d ∷ ds) (c ∷ cs) ≡ mark_line (low + 1) (d ∷ ds) cs
unfolding mark_line
mark_line-further low d c ds cs e = rw (mark_line, e) refl

-- The marks are the places of the delimiters, from `low` on and below `high`, each behind the one before;
-- there are no more of them than delimiters.
abbrev pub Placed : (ℕ → ℕ) → ℕ → ℕ → List ℕ → List ℕ → Type 0
Placed byte low high ds [] = Unit {0}
Placed byte low high [] (m ∷ ms) = ⊥
Placed byte low high (d ∷ ds) (m ∷ ms) =
    (low ≤ m) × (m < high) × (byte m ≡ d) × Placed byte (m + 1) high ds ms

Placed-later :
    (byte : ℕ → ℕ) (low high : ℕ) (ds ms : List ℕ)
    → Placed byte (low + 1) high ds ms
    → Placed byte low high ds ms
Placed-later byte low high ds [] p = tt
Placed-later byte low high [] (m ∷ ms) p = p
Placed-later byte low high (d ∷ ds) (m ∷ ms) p = (omega (arith, p.0), p.1, p.2, p.3)

mark_line-Placed_from :
    (byte : ℕ → ℕ) (low high : ℕ) (ds line : List ℕ)
    → high ≡ low + length line
    → ((k : ℕ) → k < length line → byte (low + k) ≡ get_or line k 0)
    → Placed byte low high ds (mark_line low ds line)
unfolding mark_line
mark_line-Placed_from byte low high [] line e h = tt
mark_line-Placed_from byte low high (d ∷ ds) [] e h = tt
mark_line-Placed_from byte low high (d ∷ ds) (c ∷ cs) e h =
    let later : (k : ℕ) → k < length cs → byte (low + 1 + k) ≡ get_or cs k 0 =
      λ k l. ap byte {x = low + 1 + k} {y = low + suc k} (omega arith) ∙ h (suc k) (omega arith) in
    elim (Bool-cases (c == d)) [
      | inl same ↦ rw (mark_line-here low d c ds cs (==→eq c d same)) (
        omega arith,
        omega arith,
        ap byte {x = low} {y = low + 0} (omega arith) ∙ h 0 (omega arith) ∙ ==→eq c d same,
        mark_line-Placed_from byte (low + 1) high ds cs (omega arith) later,
      )
      | inr differs ↦ rw (mark_line-further low d c ds cs differs) (
          Placed-later byte low high (d ∷ ds) _
            (mark_line-Placed_from byte (low + 1) high (d ∷ ds) cs (omega arith) later))
    ]

-- On any text the marks are places of the text, in order, and each has its delimiter.
pub marks-Placed : (ds text : List ℕ) → Placed (at text) 0 (length text) ds (marks ds text)
marks-Placed ds text =
    mark_line-Placed_from (at text) 0 (length text) ds text (omega arith)
      (λ k l. ap (at text) (omega arith))

-- A field and the delimiter behind it.
abbrev pub Field : Type 0
Field = List ℕ × ℕ

abbrev pub line_of : List Field → List ℕ → List ℕ
line_of [] rest = rest
line_of (f ∷ fs) rest = f.0 ++ (f.1 ∷ line_of fs rest)

abbrev pub Free : ℕ → List ℕ → Type 0
Free d [] = Unit {0}
Free d (c ∷ cs) = (c ≢ d) × Free d cs

abbrev pub lacks : ℕ → List ℕ → Bool
lacks d [] = true
lacks d (c ∷ cs) = not (c == d) && lacks d cs

pub lacks-Free : (d : ℕ) (cs : List ℕ) → lacks d cs ≡ true → Free d cs
lacks-Free d [] h = tt
lacks-Free d (c ∷ cs) h = (differs, lacks-Free d cs (ground (arith, h)))
  where
    differs : c ≢ d
    differs e = ground (arith, h)

abbrev pub AllFree : List Field → Type 0
AllFree [] = Unit {0}
AllFree (f ∷ fs) = Free f.1 f.0 × AllFree fs

abbrev pub ends_of : ℕ → List Field → List ℕ
ends_of low [] = []
ends_of low (f ∷ fs) = (low + length f.0) ∷ ends_of (low + length f.0 + 1) fs

mark_line-field :
    (low d : ℕ) (ds field rest : List ℕ)
    → Free d field
    → mark_line low (d ∷ ds) (field ++ (d ∷ rest))
      ≡ (low + length field) ∷ mark_line (low + length field + 1) ds rest
unfolding mark_line
mark_line-field low d ds [] rest f =
    mark_line-here low d d ds rest refl
    ∙ (ap₂ (λ m n. m ∷ mark_line n ds rest) (omega arith) (omega arith))
mark_line-field low d ds (c ∷ cs) rest f = elim (Bool-cases (c == d)) [
  | inl e ↦ absurd (f.0 (==→eq c d e))
  | inr e ↦
      mark_line-further low d c ds (cs ++ (d ∷ rest)) e
      ∙ (mark_line-field (low + 1) d ds cs rest f.1
          ∙ ap₂ (λ m n. m ∷ mark_line n ds rest) (omega arith) (omega arith))
]

pub mark_line-line_of :
    (low : ℕ) (fs : List Field) (rest : List ℕ)
    → AllFree fs
    → mark_line low (map (λ f. f.1) fs) (line_of fs rest) ≡ ends_of low fs
unfolding mark_line
mark_line-line_of low [] rest a = refl
mark_line-line_of low (f ∷ fs) rest a =
    mark_line-field low f.1 (map (λ f. f.1) fs) f.0 (line_of fs rest) a.0
    ∙ ap (◌∷◌ (low + length f.0)) (mark_line-line_of (low + length f.0 + 1) fs rest a.1)
