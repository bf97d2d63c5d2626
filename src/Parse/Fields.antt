-- ===== src/Parse/Fields.antt =====
-- The fields that the parsers cut out: where they write, and what is read back.
use chan_svistok.Base.{
  ℕ, zero, suc, ◌+◌, ◌-◌, ◌≤◌, ◌<◌, ◌≡◌, ◌≢◌, refl, ap, ap₂, subst, ◌∙◌, inl, inr, List, [], ◌∷◌,
  ◌++◌, Bool, true, false, Bool-cases, Option, none, some, ◌==◌, if◌then◌else◌, ==→eq, length,
  length-append, arith, ascii,
}
use mathlib.Core.List.{append_assoc}
use native.Mathlib.Decide.{dec_lt}
use chan_svistok.Parse.{
  at, end_at, string_at, Cut, unquote, cnum_marks, at_parse_cnum, cops_marks, at_parse_cops,
  csca_marks, at_parse_csca,
}
use chan_svistok.Parse.Marks.{Placed, marks-Placed, line_of, Free, mark_line-line_of}

-- The pointer is to the text or its end, and the NUL is written inside the text.
abbrev pub Inside : List ℕ → Option Cut → Type 0
Inside text none = Unit {0}
Inside text (some c) = (c.start ≤ length text) × (c.stop < length text)

at_beyond : (text : List ℕ) (k : ℕ) → length text ≤ k → at text k ≡ 0
at_beyond [] k l = refl
at_beyond (c ∷ cs) zero l = absurd (omega arith)
at_beyond (c ∷ cs) (suc k) l = at_beyond cs k (omega arith)

pub unquote-Inside :
    (text : List ℕ) (a b : ℕ) → a < b → b < length text → Inside text (some (unquote text a b))
unfolding unquote
unquote-Inside text a b l m = (start_in, stop_in)
  where
    start_in : (if at text (a + 1) == b'"' then a + 2 else a + 1) ≤ length text
    start_in = elim (Bool-cases (at text (a + 1) == b'"')) [
      | inl e ↦ rw e (elim (dec_lt (a + 1) (length text)) [
        | yes h ↦ omega arith
        | no h ↦
            absurd
              (omega (arith, ==→eq (at text (a + 1)) b'"' e, at_beyond text (a + 1) (omega arith)))
      ])
      | inr e ↦ rw e (omega arith)
    ]

    stop_in : (if at text (b - 1) == b'"' then b - 1 else b) < length text
    stop_in = ground arith

cnum_marks-Inside :
    (text ms : List ℕ)
    → Placed (at text) 0 (length text) (ascii ":,,") ms
    → Inside text (cnum_marks text ms)
cnum_marks-Inside text [] p = tt
cnum_marks-Inside text (m₀ ∷ []) p = tt
cnum_marks-Inside text (m₀ ∷ (m₁ ∷ [])) p = tt
cnum_marks-Inside text (m₀ ∷ (m₁ ∷ (m₂ ∷ []))) p =
    unquote-Inside text m₁ m₂ (omega (arith, p.3.3.0)) p.3.3.1
cnum_marks-Inside text (m₀ ∷ (m₁ ∷ (m₂ ∷ (m₃ ∷ ms)))) p = tt

cops_marks-Inside :
    (text ms : List ℕ)
    → Placed (at text) 0 (length text) (ascii ":,,,") ms
    → Inside text (cops_marks text ms)
cops_marks-Inside text [] p = tt
cops_marks-Inside text (m₀ ∷ []) p = tt
cops_marks-Inside text (m₀ ∷ (m₁ ∷ [])) p = tt
cops_marks-Inside text (m₀ ∷ (m₁ ∷ (m₂ ∷ []))) p = tt
cops_marks-Inside text (m₀ ∷ (m₁ ∷ (m₂ ∷ (m₃ ∷ [])))) p =
    unquote-Inside text m₂ m₃ (omega (arith, p.3.3.3.0)) p.3.3.3.1
cops_marks-Inside text (m₀ ∷ (m₁ ∷ (m₂ ∷ (m₃ ∷ (m₄ ∷ ms))))) p = tt

csca_marks-Inside :
    (text ms : List ℕ)
    → Placed (at text) 0 (length text) (ascii "\"\"") ms
    → Inside text (csca_marks text ms)
csca_marks-Inside text [] p = tt
csca_marks-Inside text (m₀ ∷ []) p = tt
csca_marks-Inside text (m₀ ∷ (m₁ ∷ [])) p = (omega (arith, p.1), p.3.1)
csca_marks-Inside text (m₀ ∷ (m₁ ∷ (m₂ ∷ ms))) p = tt

-- On any text, also one that is no response at all, `at_parse_cnum`, `at_parse_cops` and
-- `at_parse_csca` write their NUL inside the text, if they succeed, and return a pointer to a byte of
-- the text or to its end.
pub parsers-Inside :
    (text : List ℕ)
    → Inside text (at_parse_cnum text)
      × Inside text (at_parse_cops text)
      × Inside text (at_parse_csca text)
unfolding at_parse_cnum at_parse_cops at_parse_csca
parsers-Inside text = (
  cnum_marks-Inside text _ (marks-Placed (ascii ":,,") text),
  cops_marks-Inside text _ (marks-Placed (ascii ":,,,") text),
  csca_marks-Inside text _ (marks-Placed (ascii "\"\"") text),
)

-- A text as it stands in a field: with quotes or without.
abbrev pub written : Bool → List ℕ → List ℕ
written true text = b'"' ∷ (text ++ (b'"' ∷ []))
written false text = text

at-behind : (pre xs : List ℕ) (k : ℕ) → at (pre ++ xs) (length pre + k) ≡ at xs k
at-behind [] xs k = ap (at xs) (omega arith)
at-behind (c ∷ cs) xs k =
    ap (at (c ∷ (cs ++ xs))) {x = suc (length cs) + k} {y = suc (length cs + k)} (omega arith)
    ∙ at-behind cs xs k

string_at-behind :
    (pre xs : List ℕ) (k m : ℕ)
    → string_at (end_at (pre ++ xs) (length pre + m)) (length pre + k) ≡ string_at (end_at xs m) k
string_at-behind [] xs k m = ap₂ (λ k' m'. string_at (end_at xs m') k') (omega arith) (omega arith)
string_at-behind (c ∷ cs) xs k m =
    ap₂ (λ k' m'. string_at (end_at (c ∷ (cs ++ xs)) m') k') {x = suc (length cs) + k}
      {y = suc (length cs + k)} {u = suc (length cs) + m} {v = suc (length cs + m)} (omega arith)
      (omega arith)
    ∙ string_at-behind cs xs k m

string-ended :
    (text rest : List ℕ) (c : ℕ)
    → Free 0 text
    → string_at (end_at (text ++ (c ∷ rest)) (length text)) 0 ≡ text
string-ended [] rest c f = refl
string-ended (x ∷ xs) rest c f = elim (Bool-cases (x == 0)) [
  | inl e ↦ absurd (f.0 (==→eq x 0 e))
  | inr e ↦ rw e (ap (◌∷◌ x) (string-ended xs rest c f.1))
]

start-written :
    (q : Bool) (text rest : List ℕ) (c : ℕ)
    → c ≢ b'"'
    → Free b'"' text
    → (at (written q text ++ (c ∷ rest)) 0 == b'"') ≡ q
start-written true text rest c n f = refl
start-written false [] rest c n f = ground arith
start-written false (x ∷ xs) rest c n f = ground (arith, f.0)

stop-written :
    (q : Bool) (text rest : List ℕ) (x : ℕ)
    → x ≢ b'"'
    → Free b'"' text
    → (at (x ∷ (written q text ++ rest)) (length (written q text)) == b'"') ≡ q
stop-written true text rest x n f =
    ap (λ b. b == b'"')
      (ap₂ at {x = x ∷ (written true text ++ rest)} {u = length (written true text)}
          (ap (λ ys. x ∷ b'"' ∷ ys) (append_assoc text (b'"' ∷ []) rest))
          (omega (arith, length-append text (b'"' ∷ [])))
        ∙ at-behind (x ∷ b'"' ∷ text) (b'"' ∷ rest) 0)
stop-written false [] rest x n f = ground arith
stop-written false (y ∷ ys) rest x n f = stop-written false ys rest y f.0 f.1

read-written :
    (q : Bool) (text rest : List ℕ) (x c : ℕ)
    → Free 0 text
    → string_at
        (end_at
          (x ∷ (written q text ++ (c ∷ rest)))
          (if q then length (written q text) else length (written q text) + 1))
        (if q then 2 else 1)
      ≡ text
read-written true text rest x c f =
    ap₂ (λ ys k. string_at (end_at (x ∷ b'"' ∷ ys) k) 2) {u = suc (length (text ++ (b'"' ∷ [])))}
      {v = 2 + length text} (append_assoc text (b'"' ∷ []) (c ∷ rest))
      (omega (arith, length-append text (b'"' ∷ [])))
    ∙ string_at-behind (x ∷ b'"' ∷ []) (text ++ (b'"' ∷ c ∷ rest)) 0 (length text)
    ∙ string-ended text (c ∷ rest) b'"' f
read-written false text rest x c f =
    ap (λ k. string_at (end_at (x ∷ (text ++ (c ∷ rest))) k) 1) {x = length text + 1}
      {y = 1 + length text} (omega arith)
    ∙ string_at-behind (x ∷ []) (text ++ (c ∷ rest)) 0 (length text)
    ∙ string-ended text rest c f

-- A text that is written in a field, with or without quotes, is what is read of it.
pub unquote-written :
    (q : Bool) (pre text rest : List ℕ) (x c a b : ℕ)
    → x ≢ b'"'
    → c ≢ b'"'
    → Free b'"' text
    → Free 0 text
    → a ≡ length pre
    → b ≡ length pre + 1 + length (written q text)
    → let cut = unquote (pre ++ (x ∷ (written q text ++ (c ∷ rest)))) a b in
      string_at cut.text cut.start ≡ text
unfolding unquote
unquote-written q pre text rest x c a b nx nc f z ea eb =
    rw (starts, stops)
      (ap₂ (λ m k. string_at (end_at (pre ++ xs) m) k) (stop_is q eb) (start_is q)
        ∙ string_at-behind pre xs (if q then 2 else 1)
            (if q then length (written q text) else length (written q text) + 1)
        ∙ read-written q text rest x c z)
  where
    xs : List ℕ
    xs = x ∷ (written q text ++ (c ∷ rest))

    starts : (at (pre ++ xs) (a + 1) == b'"') ≡ q
    starts =
        ap (λ n. n == b'"') (ap (at (pre ++ xs)) (omega (arith, ea)) ∙ at-behind pre xs 1)
        ∙ start-written q text rest c nc f

    stops : (at (pre ++ xs) (b - 1) == b'"') ≡ q
    stops =
        ap (λ n. n == b'"')
          (ap (at (pre ++ xs)) (omega (arith, eb)) ∙ at-behind pre xs (length (written q text)))
        ∙ stop-written q text (c ∷ rest) x nx f

    stop_is :
        (r : Bool)
        → b ≡ length pre + 1 + length (written q text)
        → (if r then b - 1 else b)
          ≡ length pre + (if r then length (written q text) else length (written q text) + 1)
    stop_is true e = omega (arith, e)
    stop_is false e = omega (arith, e)

    start_is : (r : Bool) → (if r then a + 2 else a + 1) ≡ length pre + (if r then 2 else 1)
    start_is true = omega (arith, ea)
    start_is false = omega (arith, ea)

-- A field without its delimiter, and no NUL in it.
abbrev pub Clean : List ℕ → Type 0
Clean text = Free b',' text × Free b'"' text × Free 0 text

pub written-Free : (q : Bool) (text : List ℕ) → Free b',' text → Free b',' (written q text)
written-Free true text f = (omega arith, quoted text f)
  where
    quoted : (xs : List ℕ) → Free b',' xs → Free b',' (xs ++ (b'"' ∷ []))
    quoted [] f = (omega arith, tt)
    quoted (x ∷ xs) f = (f.0, quoted xs f.1)
written-Free false text f = f

-- What a parser has cut out.
abbrev pub Reads : List ℕ → Option Cut → Type 0
Reads text none = ⊥
Reads text (some c) = string_at c.text c.start ≡ text

module _ (q : Bool) (head first : List ℕ) (text rest : List ℕ) (h : Free b':' head)
    (f : Free b',' first) (t : Clean text) where
  -- The third field of a line as "HEAD:FIRST,FIELD,REST" is what `at_parse_cnum` returns, with the
  -- quotes round it taken off, if it has any; the field has no quote, comma or NUL in it.
  pub at_parse_cnum-field :
      Reads text
        (at_parse_cnum (line_of ((head, b':') ∷ (first, b',') ∷ (written q text, b',') ∷ []) rest))
  unfolding at_parse_cnum
  at_parse_cnum-field =
      rw
        (mark_line-line_of 0 ((head, b':') ∷ (first, b',') ∷ (written q text, b',') ∷ []) rest
          (h, (f, (written-Free q text t.0, tt))))
        (subst (λ whole. Reads text (some (unquote whole m₁ (m₁ + 1 + length (written q text)))))
          (append_assoc head (b':' ∷ first) (b',' ∷ (written q text ++ (b',' ∷ rest))))
          (unquote-written q (head ++ (b':' ∷ first)) text rest b',' b',' m₁ _ (omega arith)
            (omega arith) t.1 t.2 (omega (arith, length-append head (b':' ∷ first)))
            (omega (arith, length-append head (b':' ∷ first)))))
    where
      m₁ : ℕ
      m₁ = 0 + length head + 1 + length first

  -- The same of the field behind one more, for `at_parse_cops`.
  pub at_parse_cops-field :
      (second : List ℕ)
      → Free b',' second
      → Reads text (
          at_parse_cops (
            line_of
              ((head, b':') ∷ (first, b',') ∷ (second, b',') ∷ (written q text, b',') ∷ [])
              rest))
  unfolding at_parse_cops
  at_parse_cops-field second g =
      rw
        (mark_line-line_of 0
          ((head, b':') ∷ (first, b',') ∷ (second, b',') ∷ (written q text, b',') ∷ []) rest
          (h, (f, (g, (written-Free q text t.0, tt)))))
        (subst (λ whole. Reads text (some (unquote whole m₂ (m₂ + 1 + length (written q text)))))
          (append_assoc head (b':' ∷ (first ++ (b',' ∷ second))) tail
            ∙ ap (λ ys. head ++ (b':' ∷ ys)) (append_assoc first (b',' ∷ second) tail))
          (unquote-written q (head ++ (b':' ∷ (first ++ (b',' ∷ second)))) text rest b',' b',' m₂ _
            (omega arith) (omega arith) t.1 t.2 (omega (arith, before)) (omega (arith, before))))
    where
      tail : List ℕ
      tail = b',' ∷ (written q text ++ (b',' ∷ rest))

      m₂ : ℕ
      m₂ = 0 + length head + 1 + length first + 1 + length second

      before :
          length (head ++ (b':' ∷ (first ++ (b',' ∷ second))))
          ≡ length head + 1 + length first + 1 + length second
      before = omega (
        arith,
        length-append head (b':' ∷ (first ++ (b',' ∷ second))),
        length-append first (b',' ∷ second),
      )
