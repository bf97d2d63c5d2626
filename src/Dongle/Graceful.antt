-- ===== src/Dongle/Graceful.antt =====
-- When a restart that is asked for takes place, from `schedule_restart_event` or `reload_config`, over the calls of
-- the device, to the passes of `do_discovery`.
use chan_svistok.Base.{
  ℕ, ◌+◌, ◌≡◌, ◌≢◌, refl, ap, ◌∙◌, List, [], ◌∷◌, Bool, true, false, length, ◌==◌, arith, sub_uint,
}
use chan_svistok.Calls.{
  Call, Device, on_remove_last_channel, try_restate, find_chan, remove_chan, unlink, unlink_found,
  cpvt_free,
}
use chan_svistok.Calls.Inv.{IsTallied}
use chan_svistok.Calls.State.{Bits, released, set_state, change_channel_state}
use chan_svistok.Dongle.{
  Dongle, Stage, hurry, dev_started, dev_removed, time_now, run_hooks, run_hook, change_state,
  pvt_time4restate, pvt_try_restate,
}
use chan_svistok.Dongle.Restate.{
  Turn, discover, discover_one, reload_one, reload_config, schedule_restart_event,
}

-- A device that is to be removed now.
abbrev pub IsDue : Stage → Type 0
IsDue s =
    (s.restart_time ≡ time_now) × (s.desired_state ≡ dev_removed) × (s.current_state ≢ dev_removed)

abbrev pub Unlocked : (ℕ → Turn) → Type 0
Unlocked turns = (n : ℕ) → (turns n).locked ≡ false

discover_one-due :
    (turns : ℕ → Turn) (d : Dongle)
    → IsDue d.stage
    → (discover_one (turns 0).wire (turns 0).opening d).stage.must_remove ≡ true
unfolding discover_one
discover_one-due turns d (n, r, c) = ground (arith, c)

discover-due :
    (turns : ℕ → Turn) (d : Dongle) (ds : List Dongle)
    → (turns 0).locked ≡ false
    → IsDue d.stage
    → discover turns (d ∷ ds) ≡ discover (λ n. turns (n + 1)) ds
unfolding discover
discover-due turns d ds u h = rw (u, discover_one-due turns d h) refl

discover-nil : (turns : ℕ → Turn) → discover turns [] ≡ []
unfolding discover
discover-nil turns = refl

-- The last call: what its release leaves of the device.
change_channel_state-last :
    (pvt : Device) (bits : Bits) (has_channel fas : Bool) (c : Call)
    → pvt.chans ≡ c ∷ []
    → pvt.chansno ≡ 1
    → pvt.hooks ≡ []
    → (c.state == released) ≡ false
    → ((change_channel_state pvt bits has_channel fas c.address released).pvt.chansno ≡ 0)
      × ((change_channel_state pvt bits has_channel fas c.address released).pvt.hooks
          ≡ on_remove_last_channel ∷ (try_restate ∷ []))
unfolding change_channel_state find_chan set_state cpvt_free unlink unlink_found remove_chan
    sub_uint
change_channel_state-last pvt bits has_channel fas c e l h n = ground arith

-- The SMS and USSD of a device that none is under way of.
abbrev pub IsQuiet : Dongle → Type 0
IsQuiet d =
    (d.messages.outgoing_sms ≡ false)
    × (d.messages.incoming_sms ≡ false)
    × (d.messages.outgoing_ussd ≡ false)

pvt_try_restate-hurry :
    (d : Dongle)
    → d.device.chansno ≡ 0
    → IsQuiet d
    → d.stage.desired_state ≢ d.stage.current_state
    → (pvt_try_restate d).stage ≡ hurry d.stage
unfolding pvt_try_restate pvt_time4restate
pvt_try_restate-hurry d z q n = ground (arith, n)

change_state-last :
    (fas : Bool) (d : Dongle) (c : Call)
    → d.device.chans ≡ c ∷ []
    → d.device.chansno ≡ 1
    → d.device.hooks ≡ []
    → (c.state == released) ≡ false
    → IsQuiet d
    → d.stage.desired_state ≢ d.stage.current_state
    → (change_state fas d c.address released).stage ≡ hurry d.stage
unfolding change_state
change_state-last fas d c e l h n q s =
    let r =
      change_channel_state d.device d.bits (d.marks c.address).channel fas c.address released in
    let (z, hooks) =
      change_channel_state-last d.device d.bits (d.marks c.address).channel fas c e l h n in
    rw (hooks, run_hooks, run_hook) (pvt_try_restate-hurry _ z q s)

abbrev scheduled : ℕ → Dongle → Dongle
scheduled when d = record d {
  stage = record d.stage { desired_state = dev_removed; restart_time = when };
}

discover-waits :
    (turns : ℕ → Turn) (d : Dongle)
    → (turns 0).locked ≡ false
    → (d.stage.restart_time == time_now) ≡ false
    → discover turns (d ∷ []) ≡ record d { stage = record d.stage { must_remove = false } } ∷ []
unfolding discover discover_one
discover-waits turns d u w = rw (u, w) refl

schedule_restart_event-used :
    (when : ℕ) (d : Dongle)
    → d.device.chansno ≡ 1
    → (when == time_now) ≡ false
    → schedule_restart_event dev_removed when d ≡ scheduled when d
unfolding schedule_restart_event pvt_try_restate pvt_time4restate
schedule_restart_event-used when d l w = rw (w, l) (ground arith)

-- A device that runs, with one call and no SMS or USSD on its way, that is to be removed, but not at once: the next
-- pass of `do_discovery` leaves it as it is, and once the call has ended, a pass takes it off the list. Its counters
-- are right, no function that the last call ends with is still to be called, the call was in a state but
-- CALL_STATE_RELEASED, and the locks are free.
pub schedule_restart_event-waits :
    (turns : ℕ → Turn) (when : ℕ) (fas : Bool) (d : Dongle) (c : Call)
    → Unlocked turns
    → IsTallied d.device
    → d.device.chans ≡ c ∷ []
    → d.device.hooks ≡ []
    → (c.state == released) ≡ false
    → IsQuiet d
    → d.stage.current_state ≡ dev_started
    → (when == time_now) ≡ false
    → let s = schedule_restart_event dev_removed when d in
      (discover turns (s ∷ []) ≡ record s { stage = record s.stage { must_remove = false } } ∷ [])
      × (discover turns (change_state fas s c.address released ∷ []) ≡ [])
schedule_restart_event-waits turns when fas d c u v e h n q st w =
    let one : d.device.chansno ≡ 1 = v.total ∙ ap length e in
    let differs : (scheduled when d).stage.desired_state ≢ (scheduled when d).stage.current_state =
      λ r. absurd (omega (arith, st, r)) in
    let last = change_state-last fas (scheduled when d) c e one h n q differs in
    rw (schedule_restart_event-used when d one w) (
      discover-waits turns (scheduled when d) (u 0) w,
      discover-due turns (change_state fas (scheduled when d) c.address released) [] (u 0)
            (rw last (refl, refl, λ r. absurd (omega (arith, st, r))))
          ∙ discover-nil (λ n. turns (n + 1)),
    )

-- Devices that are not removed, each of whose last change of state took place at once, or that has had none:
-- `pvt_create` leaves `restart_time` at RESTATE_TIME_NOW, and nothing sets it back.
abbrev pub AllUsed : List Dongle → Type 0
AllUsed [] = Unit {0}
AllUsed (d ∷ ds) =
    (d.stage.restart_time ≡ time_now) × (d.stage.current_state ≢ dev_removed) × AllUsed ds

reload_one-IsDue :
    (when : ℕ) (d : Dongle)
    → d.stage.restart_time ≡ time_now
    → d.stage.current_state ≢ dev_removed
    → IsDue (reload_one when d).0.stage × ((reload_one when d).1 ≡ true)
unfolding reload_one pvt_time4restate
reload_one-IsDue when d n s = ((ground (arith, n, s), refl, s), ground (arith, n, s))

-- Of a list where every device has RESTATE_TIME_NOW as its restart time, as it is from the start, and none is
-- in the state DEV_STATE_REMOVED, whether it is started, stopped or restarted, `reload_config`, at whatever
-- time it asks for, removes every device: with the locks free, the next pass of `do_discovery` empties the
-- list, also of devices with calls, and `reload_now` has counted each of them.
pub reload_config-removes :
    (turns : ℕ → Turn) (when : ℕ) (ds : List Dongle)
    → Unlocked turns
    → AllUsed ds
    → (discover turns (reload_config when ds).0 ≡ []) × ((reload_config when ds).1 ≡ length ds)
unfolding reload_config
reload_config-removes turns when [] u a = (discover-nil turns, refl)
reload_config-removes turns when (d ∷ ds) u (n, s, a) =
    let (due, time) = reload_one-IsDue when d n s in
    let (gone, all) = reload_config-removes (λ n. turns (n + 1)) when ds (λ n. u (n + 1)) a in
    (
      discover-due turns (reload_one when d).0 (reload_config when ds).0 (u 0) due ∙ gone,
      rw time (omega (arith, all)),
    )
