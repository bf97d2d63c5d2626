-- ===== src/Pdu/Validity.antt =====
-- `pdu_relative_validity` against the table of periods that its comment gives.
use native.Mathlib.Decide.{dec_lt}
use chan_svistok.Base.{
  ◌⊎◌, inl, inr, ℕ, ◌+◌, ◌-◌, ◌*◌, ◌≤◌, ◌<◌, ◌≡◌, ltb, if◌then◌else◌, arith, pos, negsuc,
}
use chan_svistok.Pdu.{pdu_relative_validity}

-- The minutes that a validity period value stands for.
unfoldable pub vp_minutes : ℕ → ℕ
vp_minutes vp =
    if ltb vp 144
    then (vp + 1) * 5
    else (if ltb vp 168
        then 720 + (vp - 143) * 30
        else (if ltb vp 197 then (vp - 166) * 1440 else (vp - 192) * 10080))

abbrev value : ℕ → ℕ
value minutes = elim (pdu_relative_validity minutes) [ pos n ↦ n | negsuc n ↦ 0 ]

value-pos :
    (minutes : ℕ)
    → 0 < minutes
    → minutes ≤ 635040
    → pdu_relative_validity minutes ≡ pos (value minutes)
unfolding pdu_relative_validity
value-pos minutes p h = ground arith

value-least :
    (minutes v : ℕ) → 0 < minutes → minutes ≤ 635040 → v < value minutes → vp_minutes v < minutes
unfolding pdu_relative_validity vp_minutes
value-least minutes v p h l = ground arith

value_enough :
    (minutes : ℕ)
    → 0 < minutes
    → minutes ≤ 635040
    → (value minutes < 256) × (minutes ≤ vp_minutes (value minutes))
unfolding pdu_relative_validity vp_minutes
value_enough minutes p h = (ground arith, ground arith)

-- For 1 to 635040 minutes the value fits a byte, its period is at least the minutes that were
-- asked for, and every value `v` below it has a period shorter than that.
pub pdu_relative_validity_least :
    (minutes v : ℕ)
    → 0 < minutes
    → minutes ≤ 635040
    → (vp : ℕ) × (pdu_relative_validity minutes ≡ pos vp)
      × (vp < 256)
      × (minutes ≤ vp_minutes vp)
      × ((vp ≤ v) ⊎ (vp_minutes v < minutes))
pdu_relative_validity_least minutes v p h = (
  value minutes,
  value-pos minutes p h,
  (value_enough minutes p h).0,
  (value_enough minutes p h).1,
  least,
)
  where
    least : (value minutes ≤ v) ⊎ (vp_minutes v < minutes)
    least = elim (dec_lt v (value minutes)) [
      | yes l ↦ inr (value-least minutes v p h l)
      | no n ↦ inl (omega arith)
    ]
