-- ===== src/Read/Prefix.antt =====
-- `rb_memcmp` as a test on the list of the bytes held.
use chan_svistok.Base.{
  ℕ, zero, suc, ◌+◌, ◌≤◌, ◌<◌, ◌≡◌, refl, ◌⊎◌, inl, inr, List, [], ◌∷◌, Bool, true, false, ◌&&◌,
  ◌==◌, if◌then◌else◌, length, tabulate, arith, Bool-cases, pos, negsuc, ltb, le→ltb, ltb→lt,
  ltb→le, ◌↔◌,
}
use chan_svistok.Memory.{Agree}
use chan_svistok.Ring.{RingBuffer, contents, rb_memcmp}
use chan_svistok.Ring.Inv.{IsValid}
use chan_svistok.Ring.Search.Char.{view}
use chan_svistok.Ring.Search.Compare.{rb_memcmp_lem}
use chan_svistok.Read.{chars, compare_text, starts}

unfoldable pub is_prefix : List ℕ → List ℕ → Bool
is_prefix [] ys = true
is_prefix (x ∷ xs) [] = false
is_prefix (x ∷ xs) (y ∷ ys) = x == y && is_prefix xs ys

is_prefix_sound :
    (text : List ℕ) (n : ℕ) (f : ℕ → ℕ)
    → is_prefix text (tabulate n f) ≡ true
    → (length text ≤ n) × Agree f (chars text) (length text)
unfolding is_prefix
is_prefix_sound [] n f h = (omega arith, λ k l. absurd (omega arith))
is_prefix_sound (x ∷ xs) zero f h = cc
is_prefix_sound (x ∷ xs) (suc n) f h =
    let rest = is_prefix_sound xs n (λ k. f (k + 1)) (ground arith) in
    (omega (arith, rest.0), agree rest.1)
  where
    agree :
        Agree (λ k. f (k + 1)) (chars xs) (length xs) → Agree f (chars (x ∷ xs)) (suc (length xs))
    agree r zero l = ground arith
    agree r (suc k) l = ground (arith, r k (omega arith))

is_prefix_complete :
    (text : List ℕ) (n : ℕ) (f : ℕ → ℕ)
    → length text ≤ n
    → Agree f (chars text) (length text)
    → is_prefix text (tabulate n f) ≡ true
unfolding is_prefix
is_prefix_complete [] n f h a = refl
is_prefix_complete (x ∷ xs) zero f h a = absurd (omega arith)
is_prefix_complete (x ∷ xs) (suc n) f h a = ground (
  arith,
  a 0 (omega arith),
  is_prefix_complete xs n (λ k. f (k + 1)) (omega arith)
      (λ k l. ground (arith, a (suc k) (omega arith))),
)

compare_text-shape :
    (rb : RingBuffer) (text : List ℕ)
    → (compare_text rb text ≡ negsuc 0)
      ⊎ ((compare_text rb text ≡ pos 0) ⊎ (compare_text rb text ≡ pos 1))
unfolding rb_memcmp
compare_text-shape rb text = ground arith

module _ (rb : RingBuffer) (text : List ℕ) (v : IsValid rb) (some_text : 0 < length text) where
  -- `rb_memcmp` with a text is -1 if fewer bytes than it has are held, 0 if it stands at the front,
  -- and 1 otherwise.
  pub compare_text_lem : compare_text rb text ≡ (
      if ltb rb.used (length text)
      then negsuc 0
      else (if is_prefix text (contents rb) then pos 0 else pos 1))
  compare_text_lem = elim (Bool-cases (ltb rb.used (length text))) [
    | inl short ↦ rw short (memcmp_lem.1.1 (ltb→lt rb.used (length text) short))
    | inr enough ↦ rw enough (held (ltb→le rb.used (length text) enough))
  ]
    where
      memcmp_lem :
          ((compare_text rb text ≡ pos 0)
            ↔ ((length text ≤ rb.used) × Agree (view rb) (chars text) (length text)))
          × ((compare_text rb text ≡ negsuc 0) ↔ (rb.used < length text))
      memcmp_lem = rb_memcmp_lem rb (chars text) (length text) v some_text

      no_prefix :
          length text ≤ rb.used
          → is_prefix text (contents rb) ≡ false
          → compare_text rb text ≡ pos 1
      no_prefix l e = elim (compare_text-shape rb text) [
        | inl m ↦ absurd (omega (arith, memcmp_lem.1.0 m))
        | inr (inl z) ↦ cc (is_prefix_complete text rb.used (view rb) l (memcmp_lem.0.0 z).1)
        | inr (inr o) ↦ o
      ]

      held :
          length text ≤ rb.used
          → compare_text rb text ≡ (if is_prefix text (contents rb) then pos 0 else pos 1)
      held l = elim (Bool-cases (is_prefix text (contents rb))) [
        | inl e ↦ rw e (memcmp_lem.0.1 (is_prefix_sound text rb.used (view rb) e))
        | inr e ↦ rw e (no_prefix l e)
      ]

  pub starts_lem : starts rb text ≡ is_prefix text (contents rb)
  starts_lem = elim (Bool-cases (is_prefix text (contents rb))) [
    | inl e ↦
        rw (compare_text_lem, e)
          (rw (le→ltb rb.used (length text) (is_prefix_sound text rb.used (view rb) e).0) refl)
    | inr e ↦ rw (compare_text_lem, e) (ground arith)
  ]
