-- ===== src/Dongle/Possible.antt =====
-- chan_dongle.c: what the tests of Dongle/Dial say of the list of the calls.
use chan_svistok.Base.{
  ℕ, zero, suc, ◌+◌, ◌≤◌, ◌<◌, ◌≡◌, ◌≢◌, refl, List, [], ◌∷◌, Bool, true, false, not, ◌&&◌, ◌||◌,
  Bool-cases, Option-cases, sym, ◌∙◌, Option, none, some, ltb, ◌==◌, if◌then◌else◌, arith, inl, inr,
  length, ◌⊎◌, ltb→le, ltb→lt, ◌/◌, ◌%◌, le→ltb, lt→ltb, ap,
}
use chan_svistok.Calls.{Call, Device, find_idx, pvt_find_cpvt}
use chan_svistok.Calls.Inv.{in_state, IsTallied}
use chan_svistok.Calls.State.{
  active, onhold, dialing_state, alerting, incoming, waiting_state, init_state,
}
use chan_svistok.Dongle.{Dongle}
use chan_svistok.Dongle.Dial.{
  is_ignored, dial_step, dial_loop, is_dial_possible2, can_sms, Words, set_bit, test_bit, set_all,
  idx_from, pvt_get_pseudo_call_idx,
}

-- The calls that forbid another one in any case: those that are being set up, but `ignore`.
abbrev pub is_setup : Option ℕ → Call → Bool
is_setup ignore c =
    (c.state == init_state && not (is_ignored ignore c.address))
    || (c.state == dialing_state
        || (c.state == alerting || (c.state == incoming || c.state == waiting_state)))

abbrev pub any_setup : Option ℕ → List Call → Bool
any_setup ignore [] = false
any_setup ignore (c ∷ cs) = is_setup ignore c || any_setup ignore cs

abbrev pub any_in : ℕ → List Call → Bool
any_in s [] = false
any_in s (c ∷ cs) = c.state == s || any_in s cs

-- With another call allowed to wait, the rest is all active or all held; without, there is none.
abbrev pub fits : Bool → Bool → Bool → Bool
fits waiting held act = if waiting then not (held && act) else not (held || act)

dial_step-none :
    (waiting : Bool) (ignore : Option ℕ) (c : Call) (hold act : Bool)
    → dial_step waiting ignore c hold act ≡ none
    → (is_setup ignore c
        || not (fits waiting (hold || c.state == onhold) (act || c.state == active)))
      ≡ true
unfolding dial_step
dial_step-none waiting ignore c hold act e = ground arith

dial_step-some :
    (waiting : Bool) (ignore : Option ℕ) (c : Call) (hold act : Bool) {hold' act' : Bool}
    → fits waiting hold act ≡ true
    → dial_step waiting ignore c hold act ≡ some (hold', act')
    → (is_setup ignore c ≡ false)
      × (hold' ≡ (hold || c.state == onhold))
      × (act' ≡ (act || c.state == active))
      × (fits waiting hold' act' ≡ true)
unfolding dial_step
dial_step-some waiting ignore c hold act h e = ground arith

-- Once it does not fit, it does not with more calls; `s`, `x`, `y` are of the call, `ss`, `xs`, `ys` of the rest.
stopped_lem :
    (w s ss h x xs a y ys : Bool)
    → (s || not (fits w (h || x) (a || y))) ≡ true
    → (not (s || ss) && fits w (h || (x || xs)) (a || (y || ys))) ≡ false
stopped_lem w true ss h x xs a y ys e = refl
stopped_lem true false ss h x xs a y ys e = ground arith
stopped_lem false false ss h x xs a y ys e = ground arith

or_assoc : (a b c : Bool) → ((a || b) || c) ≡ (a || (b || c))
or_assoc true b c = refl
or_assoc false b c = refl

dial_loop_lem :
    (waiting : Bool) (ignore : Option ℕ) (cs : List Call) (hold act : Bool)
    → fits waiting hold act ≡ true
    → dial_loop waiting ignore cs hold act ≡ (
        not (any_setup ignore cs)
        && fits waiting (hold || any_in onhold cs) (act || any_in active cs))
unfolding dial_loop
dial_loop_lem waiting ignore [] hold act h = ground arith
dial_loop_lem waiting ignore (c ∷ cs) hold act h =
    elim (Option-cases (dial_step waiting ignore c hold act)) [
      | inl e ↦
          rw (dial_loop, e)
            (sym (
              stopped_lem waiting (is_setup ignore c) (any_setup ignore cs) hold (c.state == onhold)
                (any_in onhold cs) act (c.state == active) (any_in active cs)
                (dial_step-none waiting ignore c hold act e)))
      | inr ((hold', act'), e) ↦
          let r = dial_step-some waiting ignore c hold act h e in
          rw (dial_loop, e)
            (dial_loop_lem waiting ignore cs hold' act' r.3
              ∙ rw (r.0, r.1, r.2, or_assoc, or_assoc) refl)
    ]

-- `is_dial_possible2` says yes exactly if the device has no ring, no waiting call and none being dialed, no call of
-- the list is being set up but `ignore_cpvt` in its first state, and the others are all held or all active where
-- one may be put on hold, or there is none active and none held.
pub is_dial_possible2_lem :
    (d : Dongle) (waiting : Bool) (ignore : Option ℕ)
    → is_dial_possible2 d waiting ignore ≡ (
        not (d.bits.ring || (d.bits.cwaiting || d.bits.dialing))
        && (not (any_setup ignore d.device.chans)
            && fits waiting (any_in onhold d.device.chans) (any_in active d.device.chans)))
unfolding is_dial_possible2
is_dial_possible2_lem d waiting ignore =
    ground (arith, dial_loop_lem waiting ignore d.device.chans false false)

abbrev pub any_of : List ℕ → List Call → Bool
any_of [] cs = false
any_of (s ∷ ss) cs = any_in s cs || any_of ss cs

-- Every state but CALL_STATE_RELEASED.
abbrev pub live_states : List ℕ
live_states =
    incoming
    ∷ (waiting_state ∷ (init_state ∷ (dialing_state ∷ (alerting ∷ (active ∷ (onhold ∷ []))))))

in_state-le : (s : ℕ) (cs : List Call) → in_state s cs ≤ length cs
in_state-le s [] = omega arith
in_state-le s (c ∷ cs) = ground (arith, in_state-le s cs)

in_state-any_in : (s : ℕ) (cs : List Call) → ltb 0 (in_state s cs) ≡ any_in s cs
in_state-any_in s [] = refl
in_state-any_in s (c ∷ cs) = ground (arith, in_state-any_in s cs)

count-any_in :
    (d : Device) (s : ℕ)
    → IsTallied d
    → length d.chans < 256
    → ltb 0 (d.chan_count s) ≡ any_in s d.chans
count-any_in d s v l = ground (arith, v.each s, in_state-le s d.chans, in_state-any_in s d.chans)

-- With counters that are right and fewer than 256 calls, `can_sms` says yes exactly if the device has no ring, no
-- waiting call and none being dialed, and every call of the list is in none of the seven states of a call that
-- goes on.
pub can_sms_lem :
    (d : Dongle)
    → IsTallied d.device
    → length d.device.chans < 256
    → can_sms d ≡ (
        not (d.bits.ring || (d.bits.cwaiting || d.bits.dialing))
        && not (any_of live_states d.device.chans))
unfolding can_sms
can_sms_lem d v l = ground (
  arith,
  count-any_in d.device 0 v l,
  count-any_in d.device 1 v l,
  count-any_in d.device 2 v l,
  count-any_in d.device 3 v l,
  count-any_in d.device 4 v l,
  count-any_in d.device 5 v l,
  count-any_in d.device 7 v l,
)

-- Every index has its bit in the array of 8 words.
abbrev pub InWords : List Call → Type 0
InWords [] = Unit {0}
InWords (c ∷ cs) = (c.call_idx < 256) × InWords cs

-- Whether a call of the list has the index.
abbrev pub has_idx : ℕ → List Call → Bool
has_idx i [] = false
has_idx i (c ∷ cs) = c.call_idx == i || has_idx i cs

same_place : (i j : ℕ) → (i / 32 == j / 32 && i % 32 == j % 32) ≡ (j == i)
same_place i j = ground arith

set_bit-in :
    (bits : Words) (j : ℕ)
    → j < 256
    → set_bit bits j ≡ some (λ w b. (w == j / 32 && b == j % 32) || bits w b)
unfolding set_bit
set_bit-in bits j l = rw (lt→ltb (j / 32) 8 (omega arith)) refl

set_bit-out : (bits : Words) (j : ℕ) → 256 ≤ j → set_bit bits j ≡ none
unfolding set_bit
set_bit-out bits j l = rw (le→ltb (j / 32) 8 (omega arith)) refl

or_move : (h : Bool) {p q : Bool} (b : Bool) → p ≡ q → (h || (p || b)) ≡ ((q || h) || b)
or_move h b e = rw e (ground arith)

or_false : {h b : Bool} → (h || false) ≡ b → h ≡ b
or_false {h} {b} e = ground arith

set_all_lem :
    (cs : List Call) (bits : Words)
    → ((set_all cs bits ≡ none) × ¬ (InWords cs))
      ⊎ ((bits' : Words) × (set_all cs bits ≡ some bits')
          × InWords cs
          × ((i : ℕ) → test_bit bits' i ≡ (has_idx i cs || test_bit bits i)))
unfolding set_all
set_all_lem [] bits = inr (bits, refl, tt, λ i. refl)
set_all_lem (c ∷ cs) bits = elim (Bool-cases (ltb c.call_idx 256)) [
  | inr f ↦
      let g = ltb→le c.call_idx 256 f in
      inl (rw (set_all, set_bit-out bits c.call_idx g) refl, λ w. absurd (omega (arith, w.0, g)))
  | inl e ↦
      let l = ltb→lt c.call_idx 256 e in
      let next : Words = λ w b. (w == c.call_idx / 32 && b == c.call_idx % 32) || bits w b in
      elim (set_all_lem cs next) [
        | inl (e, never) ↦ inl (rw (set_all, set_bit-in bits c.call_idx l) e, λ w. never w.1)
        | inr (bits', e, all, same) ↦ inr (
          bits',
          rw (set_all, set_bit-in bits c.call_idx l) e,
          (l, all),
          λ i. same i ∙ or_move (has_idx i cs) (test_bit bits i) (same_place i c.call_idx),
        )
      ]
]

idx_from_lem :
    (left i : ℕ) (bits : Words)
    → ((idx_from left i bits ≡ 0) × ((k : ℕ) → i ≤ k → k < i + left → test_bit bits k ≡ true))
      ⊎ ((i ≤ idx_from left i bits)
          × (idx_from left i bits < i + left)
          × (test_bit bits (idx_from left i bits) ≡ false))
unfolding idx_from
idx_from_lem zero i bits = inl (refl, λ k a b. absurd (omega arith))
idx_from_lem (suc left) i bits = elim (Bool-cases (test_bit bits i)) [
  | inl t ↦ rw t (elim (idx_from_lem left (i + 1) bits) [
    | inl (z, all) ↦ inl (
      z,
      λ k a b. elim (Bool-cases (ltb i k)) [
        | inl g ↦ all k (omega (arith, ltb→lt i k g)) (omega arith)
        | inr g ↦ ap (test_bit bits) (omega (arith, ltb→le i k g)) ∙ t
      ],
    )
    | inr (a, b, f) ↦ inr (omega arith, omega arith, f)
  ])
  | inr f ↦ rw f (inr (omega arith, omega arith, f))
]

has_idx-find_idx : (i : ℕ) (cs : List Call) → has_idx i cs ≡ false → find_idx i cs ≡ none
unfolding find_idx
has_idx-find_idx i [] h = refl
has_idx-find_idx i (c ∷ cs) h = ground (arith, has_idx-find_idx i cs)

find_idx-has_idx : (i : ℕ) (cs : List Call) → has_idx i cs ≡ true → find_idx i cs ≢ none
unfolding find_idx
find_idx-has_idx i [] h = cc
find_idx-has_idx i (c ∷ cs) h = ground (arith, find_idx-has_idx i cs)

-- What the function is to give for the calls of the device: an index from 1 to 31 of no call, 0 if there is none, or
-- nothing where an index has no bit in the array.
abbrev pub IsPseudo : Device → Option ℕ → Type 0
IsPseudo d none = ¬ (InWords d.chans)
IsPseudo d (some i) =
    InWords d.chans
    × (((i ≡ 0) × ((k : ℕ) → 1 ≤ k → k ≤ 31 → pvt_find_cpvt d k ≢ none))
        ⊎ ((1 ≤ i) × (i ≤ 31) × (pvt_find_cpvt d i ≡ none)))

found-IsPseudo :
    (d : Device) (bits : Words)
    → InWords d.chans
    → ((i : ℕ) → test_bit bits i ≡ (has_idx i d.chans || false))
    → IsPseudo d (some (idx_from 31 1 bits))
unfolding pvt_find_cpvt
found-IsPseudo d bits w same = elim (idx_from_lem 31 1 bits) [
  | inl (z, all) ↦ (
    w,
    inl (z, λ k a b. find_idx-has_idx k d.chans (or_false (sym (same k) ∙ all k a (omega arith)))),
  )
  | inr (a, b, f) ↦
      (w, inr (a, omega arith, has_idx-find_idx _ d.chans (or_false (sym (same _) ∙ f))))
]

-- `pvt_get_pseudo_call_idx` writes outside of its array of 8 words exactly if a call of the list has an index
-- of 256 or more, negative ones of the `short` among them; else it gives an index from 1 to 31 that
-- `pvt_find_cpvt` finds no call for, or 0 where it finds one for each of the 31.
pub pvt_get_pseudo_call_idx_lem : (d : Dongle) → IsPseudo d.device (pvt_get_pseudo_call_idx d)
unfolding pvt_get_pseudo_call_idx
pvt_get_pseudo_call_idx_lem d = elim (set_all_lem d.device.chans (λ w b. false)) [
  | inl (e, never) ↦ rw (pvt_get_pseudo_call_idx, e) never
  | inr (bits, e, w, same) ↦ rw (pvt_get_pseudo_call_idx, e) (found-IsPseudo d.device bits w same)
]
