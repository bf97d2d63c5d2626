-- ===== src/Dongle/Sample.antt =====
-- A device that runs, with the calls and the queue that are given, for tests.
use chan_svistok.Base.{refl, List, [], true, false, none, length, ascii, pos, ◌%◌, ◌<◌, ◌^◌}
use chan_svistok.Queue.{Task}
use chan_svistok.Calls.{Call, Device}
use chan_svistok.Calls.Inv.{in_state, IsTallied}
use chan_svistok.Dongle.{Dongle, Marks, running, dev_started, time_now}

abbrev pub plain : Marks
plain = record {
  need_hangup = false;
  alive = false;
  hold_other = false;
  conference = false;
  multiparty = false;
  channel = true;
  rings = 0;
  answered = false;
}

abbrev pub device_of : List Call → List Task → Device
device_of cs ts = record {
  chans = cs;
  chansno = length cs;
  chan_count = λ s. in_state s cs % 256;
  at_queue = ts;
  sys_chan = 1;
  last_dialed_cpvt = none;
  hooks = [];
}

pub device_of-IsTallied :
    (cs : List Call) (ts : List Task) → length cs < 2 ^ 32 → IsTallied (device_of cs ts)
device_of-IsTallied cs ts l = record { total = refl; few = l; each = λ s. refl }

abbrev pub started : List Call → List Task → Dongle
started cs ts = record {
  device = device_of cs ts;
  counts = record {
    at_tasks = length ts;
    at_cmds = 0;
    stat_at_tasks = 0;
    stat_at_cmds = 0;
    d_write_bytes = 0;
    freed = [];
  };
  marks = λ a. plain;
  bits = record { dialing = false; ring = false; cwaiting = false };
  stage = record {
    current_state = dev_started;
    desired_state = dev_started;
    restart_time = time_now;
    must_remove = false;
    monitor = running;
    diagmode = false;
    changeimei = false;
    wakes = 0;
  };
  link = record {
    connected = true;
    initialized = true;
    gsm_registered = true;
    has_voice = true;
    novoice = false;
    has_call_waiting = false;
    selectbusy = false;
    rings = 0;
    volume_sync_step = 0;
  };
  messages = record {
    has_sms = true;
    use_pdu = true;
    use_ucs2_encoding = true;
    cusd_use_7bit_encoding = false;
    cusd_use_ucs2_decoding = true;
    outgoing_sms = false;
    outgoing_ussd = false;
    incoming_sms = false;
  };
  sim = record {
    nosim = false;
    eerror = false;
    cardlock = false;
    sim_ready = true;
    sim_start = true;
    pinrequired = 0;
    cfun = pos 1;
    simst = pos 1;
    srvst = pos 2;
  };
  radio = record {
    rssi = pos 20;
    linkmode = pos 3;
    linksubmode = pos 2;
    gsm_reg_status = pos 1;
    freqlock = pos 0;
  };
  names = record {
    manufacturer = ascii "huawei";
    model = ascii "E1550";
    firmware = [];
    imei = [];
    imsi = [];
    iccid = [];
    serial = [];
    subscriber_number = ascii "Unknown";
    has_subscriber_number = false;
    provider_name = ascii "NONE";
    provider_name2 = [];
    location_area_code = [];
    cell_id = [];
    sms_scenter = [];
  };
  audio = [];
  asked = [];
  made = [];
  delivered = [];
}

-- A call that is held, and one that talks.
abbrev pub held : Call
held = record { address = 100; call_idx = 1; state = 1; dir = 0 }

abbrev pub talking : Call
talking = record { address = 200; call_idx = 2; state = 0; dir = 1 }
