-- ===== src/Mix/Sum.antt =====
-- What `saturated_sum` does to the memory, byte by byte.
use native.Mathlib.Decide.{dec_lt}
use chan_svistok.Base.{
  ap₂, ◌⊎◌, inl, inr, ℕ, zero, suc, ◌+◌, ◌-◌, ◌*◌, ◌/◌, ◌%◌, ◌≤◌, ◌<◌, ◌≡◌, refl, ap, ◌∙◌, ◌==◌,
  if◌then◌else◌, arith,
}
use chan_svistok.Memory.{Bytes, shift}
use chan_svistok.Mix.{SaturatedAdd, sum_step, sum_loop, saturated_sum}

module _ (sat : SaturatedAdd) where
  -- The byte `k` of the sum of two streams of bytes, read as samples of two bytes.
  unfoldable pub mixed : Bytes → Bytes → Bytes
  mixed a b k =
      if k % 2 == 0
      then sat.first (a k) (a (k + 1)) (b k) (b (k + 1))
      else sat.second (a (k - 1)) (a k) (b (k - 1)) (b k)

  -- Two bytes further on.
  mixed_next :
      (a a' b : Bytes) (j : ℕ)
      → ((k : ℕ) → a' k ≡ a (k + 2))
      → mixed a' (shift b 2) j ≡ mixed a b (j + 2)
  unfolding mixed
  mixed_next a a' b zero h =
      ap₂ (λ x y. sat.first x y (b (2 + 0)) (b (2 + (0 + 1)))) (h 0) (h (0 + 1))
  mixed_next a a' b (suc j) h = ground (arith, h j, h (suc j), h (suc j + 1))

  sum_step_far :
      (m : Bytes) (dst : ℕ) (src : Bytes) (k : ℕ)
      → shift (sum_step sat m dst src) (dst + 2) k ≡ shift m dst (k + 2)
  unfolding sum_step
  sum_step_far m dst src k = ground arith

  sum_step_below :
      (m : Bytes) (dst : ℕ) (src : Bytes) (i : ℕ) → i < dst → sum_step sat m dst src i ≡ m i
  unfolding sum_step
  sum_step_below m dst src i h = ground arith

  sum_step_above :
      (m : Bytes) (dst : ℕ) (src : Bytes) (i : ℕ) → dst + 2 ≤ i → sum_step sat m dst src i ≡ m i
  unfolding sum_step
  sum_step_above m dst src i h = ground arith

  sum_step_here :
      (m : Bytes) (dst : ℕ) (src : Bytes) (j : ℕ)
      → j < 2
      → sum_step sat m dst src (dst + j) ≡ mixed (shift m dst) src j
  unfolding sum_step mixed
  sum_step_here m dst src zero h = ground arith
  sum_step_here m dst src (suc zero) h = ground arith
  sum_step_here m dst src (suc (suc j)) h = absurd (omega arith)

  -- `n` rounds change the `2 * n` bytes from `dst` on to the sums, and no others.
  sum_loop_out :
      (n : ℕ) (m : Bytes) (dst : ℕ) (src : Bytes) (i : ℕ)
      → (i < dst) ⊎ (dst + 2 * n ≤ i)
      → sum_loop sat n m dst src i ≡ m i
  unfolding sum_loop
  sum_loop_out zero m dst src i h = refl
  sum_loop_out (suc n) m dst src i (inl b) =
      sum_loop_out n (sum_step sat m dst src) (dst + 2) (shift src 2) i (inl (omega arith))
      ∙ sum_step_below m dst src i b
  sum_loop_out (suc n) m dst src i (inr a) =
      sum_loop_out n (sum_step sat m dst src) (dst + 2) (shift src 2) i (inr (omega arith))
      ∙ sum_step_above m dst src i (omega arith)

  sum_loop_in :
      (n : ℕ) (m : Bytes) (dst : ℕ) (src : Bytes) (j : ℕ)
      → j < 2 * n
      → sum_loop sat n m dst src (dst + j) ≡ mixed (shift m dst) src j
  unfolding sum_loop
  sum_loop_in zero m dst src j h = absurd (omega arith)
  sum_loop_in (suc n) m dst src j h = elim (dec_lt j 2) [
    | yes l ↦
        sum_loop_out n (sum_step sat m dst src) (dst + 2) (shift src 2) (dst + j)
          (inl (omega arith))
        ∙ sum_step_here m dst src j l
    | no l ↦
        ap (sum_loop sat n (sum_step sat m dst src) (dst + 2) (shift src 2)) {x = dst + j}
          (omega arith)
        ∙ sum_loop_in n (sum_step sat m dst src) (dst + 2) (shift src 2) (j - 2) (omega arith)
        ∙ mixed_next (shift m dst) (shift (sum_step sat m dst src) (dst + 2)) src (j - 2)
            (sum_step_far m dst src)
        ∙ ap (mixed (shift m dst) src) (omega arith)
  ]

  saturated_sum_in :
      (m : Bytes) (dst : ℕ) (src : Bytes) (n j : ℕ)
      → j < 2 * (n / 2)
      → saturated_sum sat m dst src n (dst + j) ≡ mixed (shift m dst) src j
  unfolding saturated_sum
  saturated_sum_in m dst src n j h = sum_loop_in (n / 2) m dst src j h

  saturated_sum_out :
      (m : Bytes) (dst : ℕ) (src : Bytes) (n i : ℕ)
      → (i < dst) ⊎ (dst + 2 * (n / 2) ≤ i)
      → saturated_sum sat m dst src n i ≡ m i
  unfolding saturated_sum
  saturated_sum_out m dst src n i h = sum_loop_out (n / 2) m dst src i h

  -- `saturated_sum` replaces the whole samples among the `n` bytes at `dst` by the sums with those of
  -- the source: `j` is a place among them, and `i` is a place that is not, which it leaves alone.
  pub saturated_sum_lem :
      (m : Bytes) (dst : ℕ) (src : Bytes) (n j i : ℕ)
      → j < 2 * (n / 2)
      → (i < dst) ⊎ (dst + 2 * (n / 2) ≤ i)
      → (saturated_sum sat m dst src n (dst + j) ≡ mixed (shift m dst) src j)
        × (saturated_sum sat m dst src n i ≡ m i)
  saturated_sum_lem m dst src n j i h out =
      (saturated_sum_in m dst src n j h, saturated_sum_out m dst src n i out)
