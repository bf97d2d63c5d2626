-- ===== src/Calls/State.antt =====
-- channel.c: `change_channel_state`, and that it keeps the counters of cpvt.c. What it asks of other functions
-- of channel.c and of Asterisk is kept as a list, in order; cpvt_free stands between the last two of a released
-- call. The log, the files and the manager's event are left out.
use chan_svistok.Base.{
  ℕ, ◌+◌, ◌≡◌, refl, List, [], ◌∷◌, ◌++◌, Bool, false, ◌||◌, Bool-cases, Option, none, some,
  Option-cases, length, ◌==◌, if◌then◌else◌, arith, inl, inr,
}
use chan_svistok.Calls.{Call, Device, count_up, count_down, find_chan, cpvt_free}
use chan_svistok.Calls.Inv.{in_state, IsTallied, cpvt_free-IsTallied}

-- `call_state_t`.
abbrev pub active : ℕ
active = 0

abbrev pub onhold : ℕ
onhold = 1

abbrev pub dialing_state : ℕ
dialing_state = 2

abbrev pub alerting : ℕ
alerting = 3

abbrev pub incoming : ℕ
incoming = 4

abbrev pub waiting_state : ℕ
waiting_state = 5

abbrev pub released : ℕ
released = 6

abbrev pub init_state : ℕ
init_state = 7

pub data Action : Type 0 where
  activate_call disactivate_call drop_reference queue_hangup v_stat_call_connected : Action
  progress ringing answer unhold hold : Action
  set_dialing set_ringing set_up : Action
  congestion busy hangup : Action

-- The bits of the cached state of the device.
pub record Bits : Type 0 where
  pub dialing : Bool
  pub ring : Bool
  pub cwaiting : Bool

-- `cpvt->state = newstate` for the call with this address.
unfoldable pub set_state : ℕ → ℕ → List Call → List Call
set_state a s [] = []
set_state a s (c ∷ cs) =
    if c.address == a then record c { state = s } ∷ cs else c ∷ set_state a s cs

abbrev pub is_calling : ℕ → Bool
is_calling s = s == init_state || (s == dialing_state || s == alerting)

unfoldable pub update_bits : ℕ → ℕ → Bits → Bits
update_bits old new b =
    if new == active || new == released
    then (if is_calling old
        then record b { dialing = false }
        else (if old == incoming
            then record b { ring = false }
            else (if old == waiting_state then record b { cwaiting = false } else b)))
    else b

-- What is asked for a call that has a channel; `fas` says that `pvt->fas` is 1.
unfoldable pub actions : Bool → ℕ → ℕ → ℕ → List Action
actions fas old dir new =
    if new == dialing_state
    then activate_call ∷ (if fas then [] else progress ∷ (set_dialing ∷ []))
    else if new == alerting
    then activate_call ∷ (ringing ∷ (set_ringing ∷ []))
    else if new == active
    then activate_call
      ∷ (if old == onhold
          then unhold ∷ []
          else (if dir == 0
              then (if fas then [] else answer ∷ []) ++ (v_stat_call_connected ∷ [])
              else set_up ∷ (v_stat_call_connected ∷ [])))
    else if new == onhold
    then disactivate_call ∷ (hold ∷ [])
    else if new == released
    then disactivate_call ∷ (drop_reference ∷ (queue_hangup ∷ []))
    else []

pub record Changed : Type 0 where
  pub pvt : Device
  pub bits : Bits
  pub asked : List Action

abbrev pub moved : Device → ℕ → ℕ → ℕ → Device
moved pvt a old new = record pvt {
  chans = set_state a new pvt.chans;
  chan_count = count_up (count_down pvt.chan_count old) new;
}

-- A released call is freed, with a channel and without.
abbrev settled : Device → ℕ → ℕ → Device
settled pvt a new = if new == released then cpvt_free pvt a else pvt

abbrev change_found : Device → Bits → Bool → Bool → ℕ → ℕ → Option Call → Changed
change_found pvt bits has_channel fas a new none = record { pvt = pvt; bits = bits; asked = [] }
change_found pvt bits has_channel fas a new (some c) =
    if new == c.state then record { pvt = pvt; bits = bits; asked = [] } else record {
      pvt = settled (moved pvt a c.state new) a new;
      bits = update_bits c.state new bits;
      asked = if has_channel then actions fas c.state c.dir new else [];
    }

-- `change_channel_state` of a call of the list.
unfoldable pub change_channel_state : Device → Bits → Bool → Bool → ℕ → ℕ → Changed
unfolding set_state count_up count_down cpvt_free find_chan update_bits actions
change_channel_state pvt bits has_channel fas a new =
    change_found pvt bits has_channel fas a new (find_chan a pvt.chans)

pub length-set_state : (a s : ℕ) (cs : List Call) → length (set_state a s cs) ≡ length cs
unfolding set_state
length-set_state a s [] = refl
length-set_state a s (c ∷ cs) = ground (arith, length-set_state a s cs)

in_state-set_state :
    (s a new : ℕ) (cs : List Call) (c : Call)
    → find_chan a cs ≡ some c
    → in_state s (set_state a new cs) + (if c.state == s then 1 else 0)
      ≡ in_state s cs + (if new == s then 1 else 0)
unfolding find_chan set_state
in_state-set_state s a new [] c h = ground arith
in_state-set_state s a new (d ∷ ds) c h = ground (arith, in_state-set_state s a new ds c)

moved-IsTallied :
    {pvt : Device} (a new : ℕ) (c : Call)
    → find_chan a pvt.chans ≡ some c
    → (new == c.state) ≡ false
    → IsTallied pvt
    → IsTallied (moved pvt a c.state new)
unfolding count_up count_down
moved-IsTallied {pvt} a new c e n v = record {
  total = omega (arith, v.total, length-set_state a new pvt.chans);
  few = omega (arith, v.few, length-set_state a new pvt.chans);
  each = λ s. ground (arith, v.each s, in_state-set_state s a new pvt.chans c e);
}

-- `change_channel_state` of any call to any state keeps the counters right, also where the call is released,
-- and with it freed, or its state is the same as before.
pub change_channel_state-IsTallied :
    {pvt : Device} (bits : Bits) (has_channel fas : Bool) (a new : ℕ)
    → IsTallied pvt
    → IsTallied (change_channel_state pvt bits has_channel fas a new).pvt
unfolding change_channel_state
change_channel_state-IsTallied {pvt} bits has_channel fas a new v =
    elim (Option-cases (find_chan a pvt.chans)) [
      | inl e ↦ rw (change_channel_state, e) v
      | inr (c, e) ↦
          rw (change_channel_state, e)
            (elim (Bool-cases (new == c.state)) [
              | inl t ↦ rw t v
              | inr t ↦ rw t (elim (Bool-cases (new == released)) [
                | inl r ↦ rw r (cpvt_free-IsTallied a (moved-IsTallied a new c e t v))
                | inr r ↦ rw r (moved-IsTallied a new c e t v)
              ])
            ])
    ]
