-- ===== src/Handler/Calling.antt =====
-- at_response.c: the handlers of the responses about single calls, and `new_channel` of channel.c. The
-- statistics, the files, and the number of the other side are left out.
use chan_svistok.Base.{
  ℕ, zero, ◌+◌, ◌%◌, List, [], ◌∷◌, Bool, true, false, ◌&&◌, Option, none, some, leb, ◌==◌,
  if◌then◌else◌, ascii, ℤ, pos, negsuc,
}
use chan_svistok.Calls.{Call, find_chan, pvt_find_cpvt, cpvt_alloc}
use chan_svistok.Calls.State.{active, dialing_state, released}
use chan_svistok.Parse.Values.{literal, scan_ints}
use chan_svistok.Command.Dial.{
  at_enque_volsync, at_enque_clcc, at_enque_hangup, at_enque_conference,
}
use chan_svistok.Dongle.{Dongle, Marks, queue, with_calls, mark, change_state, free_call}
use chan_svistok.Handler.{World, put, is_init, sys_chan, with_link, need_hangup}

-- "HEAD%d,%d", the `n` numbers of the format.
abbrev pub scan : List ℕ → ℕ → List ℕ → List ℤ
scan prefix n text = elim (literal prefix text) [ none ↦ [] | some rest ↦ scan_ints n rest ]

unfoldable pub request_clcc : World → ℕ → Dongle → Dongle
request_clcc w n d = put d (at_enque_clcc (w.env n) (queue d) (sys_chan d))

-- `at_enque_volsync`, and the step after it if that succeeds; `n` is its place among the calls.
abbrev pub step_volume : ℤ → Dongle → Dongle
step_volume (pos zero) d =
    with_link d (λ l. record l { volume_sync_step = (l.volume_sync_step + 1) % 4 })
step_volume e d = d

unfoldable pub sync_volume : World → ℕ → ℕ → Dongle → Dongle
sync_volume w n a d =
    let r = at_enque_volsync (w.env n) (queue d) a in step_volume r.result (put d r)

-- The call with its index.
unfoldable pub set_idx : ℕ → ℕ → List Call → List Call
set_idx a i [] = []
set_idx a i (c ∷ cs) = if c.address == a then record c { call_idx = i } ∷ cs else c ∷ set_idx a i cs

abbrev pub rename : Dongle → ℕ → ℕ → Dongle
rename d a i = record d { device = record d.device { chans = set_idx a i d.device.chans } }

-- `^ORIG` of a voice call whose index is from 0 to MAX_CALL_IDX, 31.
abbrev pub orig_voice : World → ℕ → ℕ → Dongle → Dongle
orig_voice w a i d =
    let d₁ = change_state w.fas (rename d a i) a dialing_state in
    let d₂ = if d₁.link.volume_sync_step == 0 then sync_volume w 0 a d₁ else d₁ in
    request_clcc w 1 d₂

-- CLCC_CALL_TYPE_VOICE is 0.
abbrev pub is_voice : ℤ → Bool
is_voice (pos t) = t == 0
is_voice (negsuc t) = false

abbrev pub device_idx : ℤ → Option ℕ
device_idx (pos i) = if leb i 31 then some i else none
device_idx (negsuc i) = none

-- The two numbers, if both are read.
abbrev pub both : List ℤ → Option (ℤ × ℤ)
both [] = none
both (a ∷ []) = none
both (a ∷ (b ∷ ns)) = some (a, b)

abbrev pub orig_numbers : World → ℕ → Option (ℤ × ℤ) → Dongle → ℤ × Dongle
orig_numbers w a none d = (negsuc 0, d)
orig_numbers w a (some (i, t)) d = (
  pos 0,
  elim (if is_voice t then device_idx i else none) [ none ↦ d | some k ↦ orig_voice w a k d ],
)

unfoldable pub at_response_orig : World → List ℕ → Dongle → ℤ × Dongle
at_response_orig w text d =
    let d₁ = record d { device = record d.device { last_dialed_cpvt = none } } in
    elim d.device.last_dialed_cpvt [
      | none ↦ (pos 0, d₁)
      | some a ↦ orig_numbers w a (both (scan (ascii "^ORIG:") 2 text)) d₁
    ]

-- The call of an index that was read; a negative one is no call's.
abbrev pub find_call : Dongle → ℤ → Option ℕ
find_call d (pos i) = pvt_find_cpvt d.device i
find_call d (negsuc i) = none

abbrev pub first_of : List ℤ → ℤ
first_of [] = pos 0
first_of (n ∷ ns) = n

-- `^CEND`: the index is 0 where none is read.
unfoldable pub at_response_cend : World → List ℕ → Dongle → Dongle
at_response_cend w text d =
    let d₁ = request_clcc w 0 d in
    elim (find_call d₁ (first_of (scan (ascii "^CEND:") 4 text))) [
      | none ↦ d₁
      | some a ↦ change_state w.fas (need_hangup false d₁ a) a released
    ]

-- `at_enque_hangup`, which forgets the call dialed last where this one has only been dialed.
unfoldable pub hang_up : World → ℕ → ℕ → Dongle → Dongle
hang_up w n a d =
    let d₁ =
      (if is_init d a
        then record d { device = record d.device { last_dialed_cpvt = none } }
        else d) in
    put d₁ (at_enque_hangup (w.env n) (queue d₁) a)

abbrev pub is_outgoing : ℕ → List Call → Bool
is_outgoing a cs = elim (find_chan a cs) [ none ↦ false | some c ↦ c.dir == 0 ]

abbrev pub conn_call : World → ℕ → Dongle → Dongle
conn_call w a d =
    let d₁ = change_state w.fas (mark d a (λ m. record m { answered = true })) a active in
    if w.group_295 && is_outgoing a d₁.device.chans
    then hang_up w 0 a d₁
    else (let d₂ = request_clcc w 0 d₁ in
        if (d₂.marks a).conference then put d₂ (at_enque_conference (w.env 1) (queue d₂) a) else d₂)

abbrev pub conn_found : World → Option ℕ → Dongle → Dongle
conn_found w none d = hang_up w 0 (sys_chan d) d
conn_found w (some a) d = conn_call w a d

abbrev pub conn_numbers : World → Option (ℤ × ℤ) → Dongle → ℤ × Dongle
conn_numbers w none d = (negsuc 0, d)
conn_numbers w (some (i, t)) d = (pos 0, if is_voice t then conn_found w (find_call d i) d else d)

unfoldable pub at_response_conn : World → List ℕ → Dongle → ℤ × Dongle
at_response_conn w text d =
    conn_numbers w (both (scan (ascii "^CONN:") 2 text))
      (record d { bits = record { dialing = false; ring = false; cwaiting = false } })

-- `start_pbx`, with `new_channel` of channel.c: a call that Asterisk gives no channel, or no thread, is freed again.
abbrev pub new_marks : Marks
new_marks = record {
  need_hangup = false;
  alive = false;
  hold_other = false;
  conference = false;
  multiparty = false;
  channel = true;
  rings = 1;
  answered = false;
}

abbrev pub with_channel : World → Dongle → Option ℕ → Dongle × Option ℕ
with_channel w d none = (d, none)
with_channel w d (some a) =
    if w.channel
    then (mark d a (λ m. new_marks), some a)
    else (free_call (mark d a (λ m. record new_marks { channel = false })) a, none)

unfoldable pub new_channel : World → ℕ → ℕ → ℕ → Dongle → Dongle × Option ℕ
new_channel w call_idx dir state d =
    let (device, room) =
      cpvt_alloc d.device call_idx dir state w.pipe (w.ends).0 (w.ends).1 w.call_mem in
    with_channel w (with_calls d device) room

-- The result is whether it succeeds.
abbrev pub start_thread : World → Dongle → Option ℕ → Dongle × Bool
start_thread w d none = (hang_up w 0 (sys_chan d) d, false)
start_thread w d (some a) =
    if w.pbx then (need_hangup true d a, true) else (free_call (need_hangup true d a) a, false)

unfoldable pub start_pbx : World → ℕ → ℕ → Dongle → Dongle × Bool
start_pbx w call_idx state d =
    let (d₁, room) = new_channel w call_idx 1 state d in start_thread w d₁ room
