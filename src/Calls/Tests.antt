-- ===== src/Calls/Tests.antt =====
-- A device with two calls and a queued task of one of them.
use chan_svistok.Base.{◌≡◌, refl, [], ◌∷◌, some, true, false, pos, negsuc, arith}
use chan_svistok.Queue.{Task}
use chan_svistok.Calls.{
  Call, Device, Answers, is_fail, init_pipe, find_chan, cpvt_free, remove_chan, unlink,
}
use chan_svistok.Calls.State.{Bits, set_state, change_channel_state}
use chan_svistok.Calls.Inv.{IsTallied, in_state, refers, cpvt_free-forgets}

abbrev dialing : Call
dialing = record { address = 100; call_idx = 1; state = 2; dir = 0 }

abbrev waiting : Call
waiting = record { address = 200; call_idx = 2; state = 5; dir = 1 }

abbrev queued : Task
queued = record { address = 7; cmdsno = 0; cindex = 0; cpvt = 200; cmds = [] }

abbrev busy : Device
busy = record {
  chans = dialing ∷ waiting ∷ [];
  chansno = 2;
  chan_count = λ s. in_state s (dialing ∷ waiting ∷ []);
  at_queue = queued ∷ [];
  sys_chan = 1;
  last_dialed_cpvt = some 100;
  hooks = [];
}

busy-IsTallied : IsTallied busy
busy-IsTallied = record { total = refl; few = omega arith; each = λ s. ground arith }

abbrev fine : Answers
fine = record { getfl = pos 0; getfd = pos 0; setfl = pos 0; setfd = pos 0 }

-- The flags of the read end, 0, are taken for success when F_GETFD fails.
init_pipe_closed : init_pipe (pos 0) (record fine { getfd = negsuc 0 }) fine ≡ (pos 0, false)
unfolding init_pipe is_fail
init_pipe_closed = refl

abbrev all_set : Bits
all_set = record { dialing = true; ring = true; cwaiting = true }

-- The second call is released without a channel: it is gone, and the bit of a waiting call with it.
change_channel_state_released :
    (change_channel_state busy all_set false false 200 6).pvt.chans ≡ dialing ∷ []
unfolding change_channel_state set_state find_chan cpvt_free remove_chan unlink
change_channel_state_released = refl

cpvt_free-forgets_example : refers 200 (cpvt_free busy 200).at_queue ≡ false
unfolding find_chan
cpvt_free-forgets_example =
    (cpvt_free-forgets busy 200 (refl, (refl, tt)) (λ e. absurd (omega arith))).1
