-- ===== src/Dongle.antt =====
-- chan_dongle.c and chan_dongle.h: the state of a device that its handlers share, on top of Queue and
-- Calls, the change of its state that is wanted, and when a call or an SMS may begin.
pub mod Restate
pub mod Dial
pub mod Possible
pub mod Disconnect
pub mod Graceful
pub mod Inv
pub mod Sample
mod Tests
use chan_svistok.Base.{
  ℕ, ◌+◌, List, [], ◌∷◌, ◌++◌, Bool, not, ◌&&◌, ◌||◌, none, ◌==◌, if◌then◌else◌, ℤ,
}
use chan_svistok.Queue.{Pvt}
use chan_svistok.Calls.{
  Device, Hook, on_create_1st_channel, on_remove_last_channel, try_restate, cpvt_free,
}
use chan_svistok.Calls.State.{Bits, Action, change_channel_state}

-- `dev_state_t`.
abbrev pub dev_stopped : ℕ
dev_stopped = 0

abbrev pub dev_restarted : ℕ
dev_restarted = 1

abbrev pub dev_removed : ℕ
dev_removed = 2

abbrev pub dev_started : ℕ
dev_started = 3

-- `restate_time_t`.
abbrev pub time_now : ℕ
time_now = 0

abbrev pub time_gracefully : ℕ
time_gracefully = 1

abbrev pub time_convenient : ℕ
time_convenient = 2

-- `flags` of a call, whether it has a channel, the rings of that, and `answered`.
pub record Marks : Type 0 where
  pub need_hangup : Bool
  pub alive : Bool
  pub hold_other : Bool
  pub conference : Bool
  pub multiparty : Bool
  pub channel : Bool
  pub rings : ℕ
  pub answered : Bool

-- The part of Queue's `Pvt` that is not the list of tasks.
pub record Counts : Type 0 where
  pub at_tasks : ℕ
  pub at_cmds : ℕ
  pub stat_at_tasks : ℕ
  pub stat_at_cmds : ℕ
  pub d_write_bytes : ℕ
  pub freed : List ℕ

-- The monitor thread: none, one that runs, or one that has ended and is not joined.
pub data Monitor : Type 0 where
  no_thread running ended : Monitor

-- What the device is and is to be; `wakes` counts the calls of `discovery_restart`.
pub record Stage : Type 0 where
  pub current_state : ℕ
  pub desired_state : ℕ
  pub restart_time : ℕ
  pub must_remove : Bool
  pub monitor : Monitor
  pub diagmode : Bool
  pub changeimei : Bool
  pub wakes : ℕ

pub record Link : Type 0 where
  pub connected : Bool
  pub initialized : Bool
  pub gsm_registered : Bool
  pub has_voice : Bool
  pub novoice : Bool
  pub has_call_waiting : Bool
  pub selectbusy : Bool
  pub rings : ℕ
  pub volume_sync_step : ℕ

pub record Messages : Type 0 where
  pub has_sms : Bool
  pub use_pdu : Bool
  pub use_ucs2_encoding : Bool
  pub cusd_use_7bit_encoding : Bool
  pub cusd_use_ucs2_decoding : Bool
  pub outgoing_sms : Bool
  pub outgoing_ussd : Bool
  pub incoming_sms : Bool

pub record Sim : Type 0 where
  pub nosim : Bool
  pub eerror : Bool
  pub cardlock : Bool
  pub sim_ready : Bool
  pub sim_start : Bool
  pub pinrequired : ℕ
  pub cfun : ℤ
  pub simst : ℤ
  pub srvst : ℤ

pub record Radio : Type 0 where
  pub rssi : ℤ
  pub linkmode : ℤ
  pub linksubmode : ℤ
  pub gsm_reg_status : ℤ
  pub freqlock : ℤ

-- The texts, without their closing NUL.
pub record Names : Type 0 where
  pub manufacturer : List ℕ
  pub model : List ℕ
  pub firmware : List ℕ
  pub imei : List ℕ
  pub imsi : List ℕ
  pub iccid : List ℕ
  pub serial : List ℕ
  pub subscriber_number : List ℕ
  pub has_subscriber_number : Bool
  pub provider_name : List ℕ
  pub provider_name2 : List ℕ
  pub location_area_code : List ℕ
  pub cell_id : List ℕ
  pub sms_scenter : List ℕ

-- What `start_local_channel` is called with: the extension, the number, and the text of the message.
pub record Delivery : Type 0 where
  pub exten : List ℕ
  pub number : List ℕ
  pub text : List ℕ

-- `struct pvt`. `hooks` of `device` is empty between two operations; `audio` has the calls of the two
-- functions that open and close the audio, in order, `asked` what is asked of Asterisk, and `made` the texts
-- that were put into allocations, and `delivered` the messages that were passed on.
pub record Dongle : Type 0 where
  pub device : Device
  pub counts : Counts
  pub marks : ℕ → Marks
  pub bits : Bits
  pub stage : Stage
  pub link : Link
  pub messages : Messages
  pub sim : Sim
  pub radio : Radio
  pub names : Names
  pub audio : List Hook
  pub asked : List (ℕ × Action)
  pub made : List (ℕ × List ℕ)
  pub delivered : List Delivery

-- The queue of Queue, and the device after an operation on it.
abbrev pub queue : Dongle → Pvt
queue d = record {
  at_queue = d.device.at_queue;
  at_tasks = d.counts.at_tasks;
  at_cmds = d.counts.at_cmds;
  stat_at_tasks = d.counts.stat_at_tasks;
  stat_at_cmds = d.counts.stat_at_cmds;
  d_write_bytes = d.counts.d_write_bytes;
  freed = d.counts.freed;
}

abbrev pub with_queue : Dongle → Pvt → Dongle
with_queue d pvt = record d {
  device = record d.device { at_queue = pvt.at_queue };
  counts = record {
    at_tasks = pvt.at_tasks;
    at_cmds = pvt.at_cmds;
    stat_at_tasks = pvt.stat_at_tasks;
    stat_at_cmds = pvt.stat_at_cmds;
    d_write_bytes = pvt.d_write_bytes;
    freed = pvt.freed;
  };
}

-- `PVT_NO_CHANS`.
abbrev pub no_chans : Dongle → Bool
no_chans d = d.device.chansno == 0

unfoldable pub pvt_time4restate : Dongle → Bool
pvt_time4restate d =
    not (d.stage.desired_state == d.stage.current_state)
    && (d.stage.restart_time == time_now
        || (no_chans d
            && (not d.messages.outgoing_sms
                && (not d.messages.incoming_sms && not d.messages.outgoing_ussd))))

-- `discovery_restart` wakes the thread that looks at the devices; it is counted.
abbrev pub hurry : Stage → Stage
hurry s = record s { restart_time = time_now; wakes = s.wakes + 1 }

unfoldable pub pvt_try_restate : Dongle → Dongle
unfolding pvt_time4restate
pvt_try_restate d = if pvt_time4restate d then record d { stage = hurry d.stage } else d

-- What `cpvt_alloc` and `cpvt_free` call at the first and the last call.
unfoldable pub run_hook : Dongle → Hook → Dongle
unfolding pvt_try_restate
run_hook d on_create_1st_channel = record d { audio = d.audio ++ (on_create_1st_channel ∷ []) }
run_hook d on_remove_last_channel = record d { audio = d.audio ++ (on_remove_last_channel ∷ []) }
run_hook d try_restate = pvt_try_restate d

unfoldable pub run_hooks : List Hook → Dongle → Dongle
unfolding run_hook
run_hooks [] d = d
run_hooks (h ∷ hs) d = run_hooks hs (run_hook d h)

-- The device after an operation on its calls.
abbrev pub with_calls : Dongle → Device → Dongle
with_calls d device = run_hooks device.hooks (record d { device = record device { hooks = [] } })

abbrev pub ask_all : ℕ → List Action → List (ℕ × Action)
ask_all a [] = []
ask_all a (x ∷ xs) = (a, x) ∷ ask_all a xs

unfoldable pub free_call : Dongle → ℕ → Dongle
unfolding cpvt_free run_hooks
free_call d a = with_calls d (cpvt_free d.device a)

-- `change_channel_state` of a device; `fas` is `pvt->fas == 1`.
unfoldable pub change_state : Bool → Dongle → ℕ → ℕ → Dongle
unfolding change_channel_state run_hooks
change_state fas d a new =
    let r = change_channel_state d.device d.bits (d.marks a).channel fas a new in
    with_calls (record d { bits = r.bits; asked = d.asked ++ ask_all a r.asked }) r.pvt

-- `CPVT_SET_FLAGS` and the like: the marks of one call.
abbrev pub mark : Dongle → ℕ → (Marks → Marks) → Dongle
mark d a f = record d { marks = λ b. if b == a then f (d.marks b) else d.marks b }

unfoldable pub pvt_enabled : Dongle → Bool
pvt_enabled d =
    d.stage.current_state == dev_started
    && (d.stage.desired_state == d.stage.current_state || d.stage.restart_time == time_convenient)
