-- ===== src/Handler/Clcc/Rounds.antt =====
-- at_response.c: the rounds of the loop of `at_response_clcc`.
use chan_svistok.Base.{
  ℕ, zero, suc, ◌+◌, ◌≤◌, ◌<◌, ◌≡◌, refl, ap, subst, List, [], ◌∷◌, Option, none, some,
  Option-cases, Bool-cases, length, drop, ◌==◌, if◌then◌else◌, arith, inl, inr,
}
use chan_svistok.Parse.Scan.{scan_unsigned}
use mathlib.Core.Option.{none-ne-some, some-injective}
use chan_svistok.Parse.{end_at, until_nul, unquote, marks}
use chan_svistok.Parse.Values.{◌>>=◌, Clcc, clcc_marks, at_parse_clcc}
use chan_svistok.Dongle.{Dongle}
use chan_svistok.Handler.{World}
use chan_svistok.Handler.Listing.{without_lf, not_empty, next_line, left_text, entry_of, clcc_loop}

length-end_at : (text : List ℕ) (k : ℕ) → length (end_at text k) ≡ length text
length-end_at [] k = refl
length-end_at (c ∷ cs) zero = refl
length-end_at (c ∷ cs) (suc k) = ap suc (length-end_at cs k)

length-unquote : (text : List ℕ) (a b : ℕ) → length (unquote text a b).text ≡ length text
unfolding unquote
length-unquote text a b = length-end_at text _

-- What is so of every result is so of what is found.
bind_all {ℓ κ ι} :
    {A : Type ℓ} {B : Type κ} (P : B → Type ι) (o : Option A) (f : A → Option B)
    → ((a : A) (r : B) → f a ≡ some r → P r)
    → (r : B) → (o >>= f) ≡ some r
    → P r
bind_all P none f h r e = absurd (none-ne-some r e)
bind_all P (some a) f h r e = h a r e

abbrev AsLong : List ℕ → Clcc → Type 0
AsLong text r = length r.number.text ≡ length text

clcc_marks-AsLong : (text ms : List ℕ) (r : Clcc) → clcc_marks text ms ≡ some r → AsLong text r
clcc_marks-AsLong text [] r e = absurd (none-ne-some r e)
clcc_marks-AsLong text (a ∷ []) r e = absurd (none-ne-some r e)
clcc_marks-AsLong text (a ∷ (b ∷ [])) r e = absurd (none-ne-some r e)
clcc_marks-AsLong text (a ∷ (b ∷ (c ∷ []))) r e = absurd (none-ne-some r e)
clcc_marks-AsLong text (a ∷ (b ∷ (c ∷ (d ∷ [])))) r e = absurd (none-ne-some r e)
clcc_marks-AsLong text (a ∷ (b ∷ (c ∷ (d ∷ (f ∷ []))))) r e = absurd (none-ne-some r e)
clcc_marks-AsLong text (a ∷ (b ∷ (c ∷ (d ∷ (f ∷ (g ∷ [])))))) r e = absurd (none-ne-some r e)
clcc_marks-AsLong text (a ∷ (b ∷ (c ∷ (d ∷ (f ∷ (g ∷ (h ∷ []))))))) r e =
    let read = λ (k : ℕ). scan_unsigned (drop (k + 1) text) in
    bind_all (AsLong text) (read a) _
      (λ call_idx. bind_all (AsLong text) (read b) _ (λ dir.
        bind_all (AsLong text) (read c) _ (λ state. bind_all (AsLong text) (read d) _ (λ mode.
          bind_all (AsLong text) (read f) _ (λ mpty.
            bind_all (AsLong text) (read h) _
              (λ toa x p. subst (AsLong text) (some-injective _ x p) (length-unquote text g h)))))))
      r e
clcc_marks-AsLong text (a ∷ (b ∷ (c ∷ (d ∷ (f ∷ (g ∷ (h ∷ (i ∷ ms)))))))) r e =
    absurd (none-ne-some r e)

length-until_nul : (cs : List ℕ) → length (until_nul cs) ≤ length cs
length-until_nul [] = omega arith
length-until_nul (c ∷ cs) = ground (arith, length-until_nul cs)

length-left_text :
    (text : List ℕ) (o : Option Clcc)
    → ((r : Clcc) → o ≡ some r → AsLong text r)
    → length (left_text text o) ≡ length text
length-left_text text none h = refl
length-left_text text (some r) h = h r refl

length-not_empty : (cs rest : List ℕ) → not_empty cs ≡ some rest → length rest ≤ length cs
length-not_empty [] rest e = absurd (none-ne-some rest e)
length-not_empty (x ∷ xs) rest e =
    subst (λ r. length r ≤ length (x ∷ xs)) (some-injective (x ∷ xs) rest e) (omega arith)

length-without_lf : (cs : List ℕ) → length (without_lf cs) ≤ length cs
length-without_lf [] = omega arith
length-without_lf (c ∷ cs) = ground arith

length-next_line : (cs rest : List ℕ) → next_line cs ≡ some rest → length rest < length cs
unfolding next_line
length-next_line [] rest e = absurd (none-ne-some rest e)
length-next_line (c ∷ cs) rest e = elim (Bool-cases (c == 13)) [
  | inl t ↦ omega (
    arith,
    length-without_lf cs,
    length-not_empty (without_lf cs) rest
        (subst (λ b. (if b then not_empty (without_lf cs) else next_line cs) ≡ some rest) t e),
  )
  | inr f ↦ omega (
    arith,
    length-next_line cs rest
        (subst (λ b. (if b then not_empty (without_lf cs) else next_line cs) ≡ some rest) f e),
  )
]

shorter :
    (text rest : List ℕ)
    → next_line (until_nul (left_text text (at_parse_clcc text))) ≡ some rest
    → length rest < length text
unfolding at_parse_clcc
shorter text rest e = omega (
  arith,
  length-next_line _ rest e,
  length-until_nul (left_text text (at_parse_clcc text)),
  length-left_text text (at_parse_clcc text) (clcc_marks-AsLong text (marks _ text)),
)

-- The loop of `at_response_clcc` ends by itself: with more rounds than bytes in the text, as it is given, it does
-- what it does with any other number of rounds that is larger.
pub clcc_loop-ends :
    (w : ℕ → World) (fuel more : ℕ) (text : List ℕ) (d : Dongle)
    → length text < fuel
    → fuel ≤ more
    → clcc_loop w more text d ≡ clcc_loop w fuel text d
unfolding clcc_loop
clcc_loop-ends w zero more text d l m = absurd (omega arith)
clcc_loop-ends w (suc fuel) zero text d l m = absurd (omega arith)
clcc_loop-ends w (suc fuel) (suc more) text d l m =
    elim (Option-cases (next_line (until_nul (left_text text (at_parse_clcc text))))) [
      | inl e ↦ rw (clcc_loop, e) refl
      | inr (rest, e) ↦
          rw (clcc_loop, e)
            (clcc_loop-ends (λ n. w (n + 1)) fuel more rest (entry_of (w 0) (at_parse_clcc text) d)
              (omega (arith, shorter text rest e)) (omega arith))
    ]
