-- ===== src/Dongle/Tests.antt =====
-- Devices with a call that is held and one that talks.
use chan_svistok.Base.{ℕ, ◌≡◌, refl, [], ◌∷◌, true, false, not, ◌&&◌, some, none, arith}
use chan_svistok.Queue.{wrote}
use chan_svistok.Calls.State.{active, onhold, released}
use chan_svistok.Dongle.{Dongle, dev_removed, time_gracefully, time_convenient, change_state}
use chan_svistok.Dongle.Dial.{
  is_dial_possible2, dial_loop, dial_step, can_sms, set_bit, set_all, pvt_get_pseudo_call_idx,
}
use chan_svistok.Dongle.Possible.{
  any_setup, any_in, fits, any_of, live_states, is_dial_possible2_lem, can_sms_lem,
  pvt_get_pseudo_call_idx_lem, IsPseudo,
}
use chan_svistok.Dongle.Restate.{
  Wire, Turn, disconnect_dongle, discover, reload_config, schedule_restart_event,
}
use chan_svistok.Dongle.Disconnect.{disconnect_dongle-clears}
use chan_svistok.Dongle.Graceful.{schedule_restart_event-waits, reload_config-removes}
use chan_svistok.Dongle.Sample.{device_of-IsTallied, started, held, talking}

abbrev busy : Dongle
busy = started (held ∷ (talking ∷ [])) []

-- One call is held and one talks: another cannot be held.
is_dial_possible2_test : is_dial_possible2 busy true none ≡ false
unfolding is_dial_possible2 dial_loop dial_step
is_dial_possible2_test = refl

is_dial_possible2_lem_example : is_dial_possible2 busy true (some 100) ≡ (
    not (any_setup (some 100) busy.device.chans)
    && fits true (any_in onhold busy.device.chans) (any_in active busy.device.chans))
is_dial_possible2_lem_example = is_dial_possible2_lem busy true (some 100)

can_sms_lem_example : can_sms busy ≡ not (any_of live_states busy.device.chans)
can_sms_lem_example =
    can_sms_lem busy (device_of-IsTallied busy.device.chans [] (omega arith)) (omega arith)

-- An index that +CLCC may give has no bit in the array.
pvt_get_pseudo_call_idx_test :
    pvt_get_pseudo_call_idx (started (record held { call_idx = 300 } ∷ []) []) ≡ none
unfolding pvt_get_pseudo_call_idx set_all set_bit
pvt_get_pseudo_call_idx_test = refl

pvt_get_pseudo_call_idx_lem_example : IsPseudo busy.device (pvt_get_pseudo_call_idx busy)
pvt_get_pseudo_call_idx_lem_example = pvt_get_pseudo_call_idx_lem busy

abbrev wire : Wire
wire = record { written = λ a. wrote 8 ∷ []; fas = false }

abbrev turn : Turn
turn = record {
  wire = wire;
  opening = record {
    found = true;
    opened = true;
    no_audio = false;
    audio_opened = true;
    thread = true;
  };
  locked = false;
}

disconnect_dongle-clears_example :
    ((disconnect_dongle wire busy).device.chans ≡ [])
    × ((disconnect_dongle wire busy).device.chansno ≡ 0)
    × ((s : ℕ) → (disconnect_dongle wire busy).device.chan_count s ≡ 0)
    × ((disconnect_dongle wire busy).device.at_queue ≡ [])
disconnect_dongle-clears_example =
    disconnect_dongle-clears wire busy (device_of-IsTallied busy.device.chans [] (omega arith))
      (refl, (refl, tt))

abbrev single : Dongle
single = started (talking ∷ []) []

abbrev leaving : Dongle
leaving = schedule_restart_event dev_removed time_gracefully single

schedule_restart_event-waits_example :
    (discover (λ n. turn) (leaving ∷ [])
      ≡ record leaving { stage = record leaving.stage { must_remove = false } } ∷ [])
    × (discover (λ n. turn) (change_state false leaving 200 released ∷ []) ≡ [])
schedule_restart_event-waits_example =
    schedule_restart_event-waits (λ n. turn) time_gracefully false single talking (λ n. refl)
      (device_of-IsTallied single.device.chans [] (omega arith)) refl refl refl (refl, refl, refl)
      refl refl

reload_config-removes_example :
    (discover (λ n. turn) (reload_config time_convenient (busy ∷ (single ∷ []))).0 ≡ [])
    × ((reload_config time_convenient (busy ∷ (single ∷ []))).1 ≡ 2)
reload_config-removes_example =
    reload_config-removes (λ n. turn) time_convenient (busy ∷ (single ∷ [])) (λ n. refl)
      (refl, λ e. absurd (omega arith), (refl, λ e. absurd (omega arith), tt))
