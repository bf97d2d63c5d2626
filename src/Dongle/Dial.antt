-- ===== src/Dongle/Dial.antt =====
-- chan_dongle.c: whether a device can take a call or an SMS, and an index that no call has.
use chan_svistok.Base.{
  ◌/◌, ◌%◌, ℕ, zero, suc, ◌+◌, List, [], ◌∷◌, Bool, true, false, not, ◌&&◌, ◌||◌, Option, none,
  some, ltb, ◌==◌, if◌then◌else◌,
}
use chan_svistok.Calls.{Call}
use chan_svistok.Calls.State.{
  active, onhold, dialing_state, alerting, incoming, waiting_state, init_state,
}
use chan_svistok.Dongle.{Dongle, pvt_enabled}

-- The loop of `is_dial_possible2`: whether a call is held, and whether one is active, of those that were passed;
-- `ignore` is the address of `ignore_cpvt`, none for NULL.
abbrev pub is_ignored : Option ℕ → ℕ → Bool
is_ignored none a = false
is_ignored (some b) a = a == b

-- One round: none where the function returns 0.
unfoldable pub dial_step : Bool → Option ℕ → Call → Bool → Bool → Option (Bool × Bool)
dial_step waiting ignore c hold act =
    if c.state == init_state
    then (if is_ignored ignore c.address then some (hold, act) else none)
    else if c.state == dialing_state
        || (c.state == alerting || (c.state == incoming || c.state == waiting_state))
    then none
    else if c.state == active
    then (if hold || not waiting then none else some (hold, true))
    else if c.state == onhold
    then (if act || not waiting then none else some (true, act))
    else some (hold, act)

unfoldable pub dial_loop : Bool → Option ℕ → List Call → Bool → Bool → Bool
dial_loop waiting ignore [] hold act = true
dial_loop waiting ignore (c ∷ cs) hold act = elim (dial_step waiting ignore c hold act) [
  | none ↦ false
  | some (hold', act') ↦ dial_loop waiting ignore cs hold' act'
]

-- `is_dial_possible2`, where `waiting` is CALL_FLAG_HOLD_OTHER of `opts`.
unfoldable pub is_dial_possible2 : Dongle → Bool → Option ℕ → Bool
unfolding dial_loop
is_dial_possible2 d waiting ignore =
    not (d.bits.ring || (d.bits.cwaiting || d.bits.dialing))
    && dial_loop waiting ignore d.device.chans false false

unfoldable pub is_dial_possible : Dongle → Bool → Bool
unfolding is_dial_possible2
is_dial_possible d waiting = is_dial_possible2 d waiting none

unfoldable pub ready4voice_call : Dongle → Option ℕ → Bool → Bool
unfolding pvt_enabled is_dial_possible2
ready4voice_call d current waiting =
    if not d.link.connected
      || (not d.link.initialized
          || (not d.link.has_voice
              || (not d.link.gsm_registered
                  || (not (pvt_enabled d)
                      || (d.messages.outgoing_sms
                          || (d.messages.outgoing_ussd || d.link.selectbusy))))))
    then false
    else is_dial_possible2 d waiting current

-- `channels_loop` of channel.c is an argument: whether the requestor is a channel of this device.
unfoldable pub can_dial : Dongle → Bool → Bool → Bool
unfolding ready4voice_call
can_dial d waiting is_loop = if waiting && is_loop then false else ready4voice_call d none waiting

-- `can_sms`; the sum is one of `int`.
unfoldable pub can_sms : Dongle → Bool
can_sms d =
    if d.bits.ring || ltb 0 (n incoming)
    then false
    else if d.bits.cwaiting || ltb 0 (n waiting_state)
    then false
    else if d.bits.dialing || ltb 0 (n init_state + (n dialing_state + n alerting))
    then false
    else if ltb 0 (n active)
    then false
    else if ltb 0 (n onhold)
    then false
    else true
  where
    n : ℕ → ℕ
    n = d.device.chan_count

-- The array of `pvt_get_pseudo_call_idx`, by word and bit. It has (MAX_CALL_IDX + 3) / 4 = 8 words.
abbrev pub Words : Type 0
Words = ℕ → ℕ → Bool

-- SET_BIT, none where the word is outside of the array, and TEST_BIT.
unfoldable pub set_bit : Words → ℕ → Option Words
set_bit bits i =
    if ltb (i / 32) 8 then some (λ w b. (w == i / 32 && b == i % 32) || bits w b) else none

abbrev pub test_bit : Words → ℕ → Bool
test_bit bits i = bits (i / 32) (i % 32)

unfoldable pub set_all : List Call → Words → Option Words
unfolding set_bit
set_all [] bits = some bits
set_all (c ∷ cs) bits = elim (set_bit bits c.call_idx) [
  | none ↦ none
  | some bits' ↦ set_all cs bits'
]

unfoldable pub idx_from : ℕ → ℕ → Words → ℕ
idx_from zero i bits = 0
idx_from (suc left) i bits =
    let rest = idx_from left (i + 1) bits in if test_bit bits i then rest else i

-- `pvt_get_pseudo_call_idx`: the first index from 1 to MAX_CALL_IDX, 31, whose bit is not set, or 0; none where
-- it writes outside of its array.
unfoldable pub pvt_get_pseudo_call_idx : Dongle → Option ℕ
unfolding set_all idx_from
pvt_get_pseudo_call_idx d = elim (set_all d.device.chans (λ w b. false)) [
  | none ↦ none
  | some bits ↦ some (idx_from 31 1 bits)
]
