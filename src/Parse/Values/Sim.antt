-- ===== src/Parse/Values/Sim.antt =====
-- What `at_parse_cpin` says of the SIM card.
use chan_svistok.Base.{
  ℕ, ◌+◌, ◌-◌, ◌≤◌, ◌<◌, ◌≡◌, refl, ◌∙◌, List, [], ◌∷◌, Option, none, some, Option-cases, subst,
  sym, ◌⊎◌, inl, inr, length, arith, ℤ, pos, negsuc,
}
use native.Mathlib.Decide.{dec_lt}
use chan_svistok.Memory.{Bytes, memmem}
use chan_svistok.Memory.Find.{FirstOf, OccursAt, memmem_lem}
use chan_svistok.Parse.{at}
use chan_svistok.Parse.Values.{cpin_values, cpin_from, at_parse_cpin}

-- A text stands somewhere in the first `len` bytes.
abbrev pub Occurs : Bytes → ℕ → List ℕ → Type 0
Occurs str len v = (k : ℕ) × (k + length v ≤ len) × OccursAt str (at v) (length v) k

-- The index of the first text that occurs, and -1 if none does.
abbrev pub Answers : Bytes → ℕ → ℕ → List (List ℕ) → ℤ → Type 0
Answers str len idx [] res = res ≡ negsuc 0
Answers str len idx (v ∷ vs) res =
    (Occurs str len v × (res ≡ pos idx)) ⊎ ((¬ Occurs str len v) × Answers str len (idx + 1) vs res)

AllSome : List (List ℕ) → Type 0
AllSome [] = Unit {0}
AllSome (v ∷ vs) = (0 < length v) × AllSome vs

too_short :
    (str : Bytes) (len : ℕ) (v : List ℕ) → len < length v → memmem str len (at v) (length v) ≡ none
unfolding memmem
too_short str len v l = ground arith

abbrev Found : Bytes → ℕ → List ℕ → Option ℕ → Type 0
Found str len v none = ¬ Occurs str len v
Found str len v (some p) = Occurs str len v

Found-Occurs :
    (str : Bytes) (len : ℕ) (v : List ℕ) (o : Option ℕ)
    → 0 < length v
    → memmem str len (at v) (length v) ≡ o
    → Found str len v o
Found-Occurs str len v o p e = elim (dec_lt len (length v)) [
  | yes l ↦
      subst (Found str len v) (sym (too_short str len v l) ∙ e)
        (λ k. absurd (omega (arith, l, k.1)))
  | no g ↦ of_first (omega arith) o (
      subst (FirstOf (OccursAt str (at v) (length v)) (len - length v + 1)) e
        (memmem_lem str len (at v) (length v) p (omega arith)))
]
  where
    of_first :
        length v ≤ len
        → (o : Option ℕ) → FirstOf (OccursAt str (at v) (length v)) (len - length v + 1) o
        → Found str len v o
    of_first g none f = λ k. f k.0 (omega (arith, k.1)) k.2
    of_first g (some p) f = (p, omega (arith, f.0, g), f.1)

cpin_from-Answers :
    (idx : ℕ) (vs : List (List ℕ)) (str : Bytes) (len : ℕ)
    → AllSome vs
    → Answers str len idx vs (cpin_from idx vs str len)
unfolding cpin_from AllSome
cpin_from-Answers idx [] str len a = refl
cpin_from-Answers idx (v ∷ vs) str len a = elim (Option-cases (memmem str len (at v) (length v))) [
  | inl e ↦
      rw (cpin_from, e)
        (inr (Found-Occurs str len v none a.0 e, cpin_from-Answers (idx + 1) vs str len a.1))
  | inr (p, e) ↦ rw (cpin_from, e) (inl (Found-Occurs str len v (some p) a.0 e, refl))
]

-- `at_parse_cpin` on `len` bytes is 0 if "READY" stands among them, 1 if that does not but "SIM PIN" does, 2 if
-- neither does but "SIM PUK", and -1 if none of the three does.
pub at_parse_cpin_lem :
    (str : Bytes) (len : ℕ) → Answers str len 0 cpin_values (at_parse_cpin str len)
unfolding at_parse_cpin AllSome
at_parse_cpin_lem str len =
    cpin_from-Answers 0 cpin_values str len (omega arith, (omega arith, (omega arith, tt)))
