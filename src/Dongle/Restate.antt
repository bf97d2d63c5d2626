-- ===== src/Dongle/Restate.antt =====
-- chan_dongle.c and helpers.c: how a device is stopped, started and removed: `disconnect_dongle`, a pass of
-- `do_discovery`, `reload_config` and `schedule_restart_event`. What the threads, the ttys and the files answer are
-- arguments; a monitor that is told to end is taken to do that at once.
use chan_svistok.Base.{
  ℕ, ◌+◌, List, [], ◌∷◌, ◌++◌, Bool, true, false, not, ◌&&◌, ◌||◌, none, ◌==◌, if◌then◌else◌, ascii,
  pos, negsuc,
}
use chan_svistok.Queue.{Outcome, at_queue_flush}
use chan_svistok.Calls.{Call, on_remove_last_channel}
use chan_svistok.Calls.State.{released}
use chan_svistok.Command.Start.{at_hangup_immediality}
use chan_svistok.Dongle.{
  Dongle, Link, Messages, Sim, Radio, Names, no_thread, running, ended, dev_stopped, dev_restarted,
  dev_removed, dev_started, time_now, queue, with_queue, mark, change_state, pvt_time4restate,
  pvt_try_restate,
}

-- What `write` answers to the hang-up of each call, by its address; `fas` is `pvt->fas == 1`.
pub record Wire : Type 0 where
  pub written : ℕ → List Outcome
  pub fas : Bool

-- The loop of `disconnect_dongle` over the calls that there are at its start.
unfoldable pub hang_up_all : Wire → List Call → Dongle → Dongle
unfolding at_hangup_immediality change_state
hang_up_all w [] d = d
hang_up_all w (c ∷ cs) d =
    let d₁ = with_queue d (at_hangup_immediality (queue d) c.call_idx (w.written c.address)) in
    let d₂ = mark d₁ c.address (λ m. record m { need_hangup = false }) in
    hang_up_all w cs (change_state w.fas d₂ c.address released)

abbrev pub hung_up : Wire → Dongle → Dongle
hung_up w d = if d.device.chansno == 0 then d else hang_up_all w d.device.chans d

abbrev unlinked : Link → Link
unlinked l = record l {
  connected = false;
  initialized = false;
  gsm_registered = false;
  has_voice = false;
  has_call_waiting = false;
  selectbusy = false;
  rings = 0;
  volume_sync_step = 0;
}

abbrev no_messages : Messages
no_messages = record {
  has_sms = false;
  use_pdu = false;
  use_ucs2_encoding = false;
  cusd_use_7bit_encoding = false;
  cusd_use_ucs2_decoding = true;
  outgoing_sms = false;
  outgoing_ussd = false;
  incoming_sms = false;
}

abbrev removed_sim : Sim → Sim
removed_sim s = record s {
  pinrequired = 0;
  nosim = false;
  sim_ready = false;
  sim_start = false;
  cfun = negsuc 0;
  simst = negsuc 0;
  srvst = negsuc 0;
}

abbrev no_radio : Radio → Radio
no_radio r = record r {
  gsm_reg_status = negsuc 0;
  rssi = pos 0;
  linkmode = pos 0;
  linksubmode = pos 0;
}

abbrev no_names : Names → Names
no_names n = record n {
  provider_name = ascii "NONE";
  provider_name2 = [];
  manufacturer = [];
  model = [];
  firmware = [];
  imei = [];
  imsi = [];
  serial = [];
  has_subscriber_number = false;
  subscriber_number = ascii "Unknown";
  location_area_code = [];
  cell_id = [];
  sms_scenter = [];
}

-- `disconnect_dongle`, but the ttys, the DTMF state and the statistics.
unfoldable pub disconnect_dongle : Wire → Dongle → Dongle
unfolding hang_up_all at_queue_flush
disconnect_dongle w d =
    let d₁ = hung_up w d in
    let d₂ = with_queue d₁ (at_queue_flush (queue d₁)) in
    record d₂ {
      device = record d₂.device { last_dialed_cpvt = none };
      audio = d₂.audio ++ (on_remove_last_channel ∷ []);
      bits = record { dialing = false; ring = false; cwaiting = false };
      link = unlinked d₂.link;
      messages = no_messages;
      sim = removed_sim d₂.sim;
      radio = no_radio d₂.radio;
      names = no_names d₂.names;
      stage = record d₂.stage { current_state = dev_stopped };
    }

-- `pvt_stop`.
unfoldable pub pvt_stop : Wire → Dongle → Dongle
unfolding disconnect_dongle
pvt_stop w d =
    let stopped = λ (e : Dongle). record e { stage = record e.stage { monitor = no_thread } } in
    elim d.stage.monitor [
      | no_thread ↦ d
      | running ↦ stopped (disconnect_dongle w d)
      | ended ↦ stopped d
    ]

-- What `pvt_adiscovery`, the two calls of `opentty` and `start_monitor` answer to `pvt_start`; `no_audio` says that
-- the device has no audio tty.
pub record Opening : Type 0 where
  pub found : Bool
  pub opened : Bool
  pub no_audio : Bool
  pub audio_opened : Bool
  pub thread : Bool

abbrev connect : Opening → Dongle → Dongle
connect o d =
    if (o.audio_opened || o.no_audio) && o.thread
    then record d {
      link = record d.link { connected = true; selectbusy = false };
      stage = record d.stage { current_state = dev_started; monitor = running };
    }
    else d

abbrev open_tty : Wire → Opening → Dongle → Dongle
open_tty w o d =
    let d₁ = record d { names = record d.names { imei = []; serial = []; imsi = [] } } in
    if d.stage.diagmode
    then disconnect_dongle w (record d₁ { stage = record d₁.stage { diagmode = false } })
    else if d.stage.changeimei
    then disconnect_dongle w (record d₁ { stage = record d₁.stage { changeimei = false } })
    else connect o d₁

unfoldable pub pvt_start : Wire → Opening → Dongle → Dongle
unfolding pvt_stop disconnect_dongle
pvt_start w o d =
    if not d.link.connected && d.stage.desired_state == dev_started
    then (let d₁ = pvt_stop w d in if o.found && o.opened then open_tty w o d₁ else d₁)
    else d

abbrev to_start : Dongle → Dongle
to_start d = record d { stage = record d.stage { desired_state = dev_started } }

abbrev to_remove : Dongle → Dongle
to_remove d = record d { stage = record d.stage { must_remove = true } }

abbrev restate : Wire → Opening → Dongle → Dongle
restate w o d =
    if d.stage.desired_state == dev_restarted
    then pvt_start w o (to_start (pvt_stop w d))
    else if d.stage.desired_state == dev_started
    then pvt_start w o d
    else if d.stage.desired_state == dev_removed
    then to_remove (pvt_stop w d)
    else if d.stage.desired_state == dev_stopped
    then pvt_stop w d
    else d

-- What `do_discovery` does for one device that it has locked.
unfoldable pub discover_one : Wire → Opening → Dongle → Dongle
unfolding pvt_start pvt_stop
discover_one w o d =
    let d₁ = record d { stage = record d.stage { must_remove = false } } in
    if d.stage.restart_time == time_now && not (d.stage.desired_state == d.stage.current_state)
    then restate w o d₁
    else d₁

-- A device with what its surroundings answer, and whether its lock is free.
pub record Turn : Type 0 where
  pub wire : Wire
  pub opening : Opening
  pub locked : Bool

-- A pass of `do_discovery` over the devices, and the removal that ends it; `turns` has what is answered for each.
unfoldable pub discover : (ℕ → Turn) → List Dongle → List Dongle
unfolding discover_one
discover turns [] = []
discover turns (d ∷ ds) =
    let d₁ = (if (turns 0).locked then d else discover_one (turns 0).wire (turns 0).opening d) in
    let rest = discover (λ n. turns (n + 1)) ds in if d₁.stage.must_remove then rest else d₁ ∷ rest

-- `reload_config` of one device. The part that reads the devices of the file is a comment in the source, so that
-- `must_remove` is set for each.
unfoldable pub reload_one : ℕ → Dongle → Dongle × Bool
unfolding pvt_time4restate
reload_one when d =
    let d₁ = record d {
      stage = record d.stage { must_remove = true; desired_state = dev_removed };
    } in
    let time = pvt_time4restate d₁ in
    (record d₁ { stage = record d₁.stage { restart_time = if time then time_now else when } }, time)

-- `reload_config` with a file that loads: the devices, and `reload_now`.
unfoldable pub reload_config : ℕ → List Dongle → List Dongle × ℕ
unfolding reload_one
reload_config when [] = ([], 0)
reload_config when (d ∷ ds) =
    let (d', time) = reload_one when d in
    let (ds', n) = reload_config when ds in (d' ∷ ds', (if time then 1 else 0) + n)

-- `schedule_restart_event` of a device that is found.
unfoldable pub schedule_restart_event : ℕ → ℕ → Dongle → Dongle
unfolding pvt_try_restate
schedule_restart_event event when d =
    pvt_try_restate
      (record d { stage = record d.stage { desired_state = event; restart_time = when } })
