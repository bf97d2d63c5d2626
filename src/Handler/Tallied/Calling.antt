-- ===== src/Handler/Tallied/Calling.antt =====
-- The counters of the calls under the handlers of Handler/Calling.
use chan_svistok.Base.{
  ◌&&◌, ℕ, zero, suc, List, Bool, true, false, Option, none, some, Option-cases, ◌==◌,
  if◌then◌else◌, inl, inr, ℤ, pos, negsuc, ascii,
}
use chan_svistok.Calls.{cpvt_alloc}
use chan_svistok.Calls.State.{active, dialing_state, released}
use chan_svistok.Dongle.{Dongle, with_calls, mark, change_state}
use chan_svistok.Handler.{World, need_hangup, is_init, sys_chan}
use chan_svistok.Handler.Calling.{
  scan, both, is_voice, device_idx, request_clcc, step_volume, sync_volume, rename, orig_voice,
  orig_numbers, at_response_orig, find_call, first_of, at_response_cend, is_outgoing, hang_up,
  conn_call, conn_found, conn_numbers, at_response_conn, new_marks, with_channel, new_channel,
  start_thread, start_pbx,
}
use chan_svistok.Handler.Tallied.Steps.{
  either, touch, free_call-HasRoom, with_calls-HasRoom, cpvt_alloc-HasRoom, set_idx-HasRoom,
}
use chan_svistok.Handler.Tallied.{Roomy, on, change_state-Roomy, at_call}

pub request_clcc-Roomy :
    (n : ℕ) (w : World) (k : ℕ) (d : Dongle) → Roomy n d → Roomy n (request_clcc w k d)
unfolding request_clcc
request_clcc-Roomy n w k d v = on (touch v.has)

pub step_volume-Roomy : (n : ℕ) (r : ℤ) (d : Dongle) → Roomy n d → Roomy n (step_volume r d)
step_volume-Roomy n (pos zero) d v = on v.has
step_volume-Roomy n (pos (suc k)) d v = v
step_volume-Roomy n (negsuc k) d v = v

pub sync_volume-Roomy :
    (n : ℕ) (w : World) (k a : ℕ) (d : Dongle) → Roomy n d → Roomy n (sync_volume w k a d)
unfolding sync_volume
sync_volume-Roomy n w k a d v = step_volume-Roomy n _ _ (on (touch v.has))

pub orig_voice-Roomy :
    (n : ℕ) (w : World) (a i : ℕ) (d : Dongle) → Roomy n d → Roomy n (orig_voice w a i d)
orig_voice-Roomy n w a i d v =
    let d₁ = change_state w.fas (rename d a i) a dialing_state in
    let u =
      change_state-Roomy n w.fas (rename d a i) a dialing_state
        (on (set_idx-HasRoom n d.device a i v.has)) in
    let d₂ = (if d₁.link.volume_sync_step == 0 then sync_volume w 0 a d₁ else d₁) in
    request_clcc-Roomy n w 1 d₂
      (either (Roomy n) (d₁.link.volume_sync_step == 0) (sync_volume-Roomy n w 0 a d₁ u) u)

pub orig_numbers-Roomy :
    (n : ℕ) (w : World) (a : ℕ) (o : Option (ℤ × ℤ)) (d : Dongle)
    → Roomy n d
    → Roomy n (orig_numbers w a o d).1
orig_numbers-Roomy n w a none d v = v
orig_numbers-Roomy n w a (some (i, t)) d v =
    at_call n (if is_voice t then device_idx i else none) (λ k. orig_voice w a k d) d v
      (λ k. orig_voice-Roomy n w a k d v)

pub at_response_orig-Roomy :
    (n : ℕ) (w : World) (str : List ℕ) (d : Dongle)
    → Roomy n d
    → Roomy n (at_response_orig w str d).1
unfolding at_response_orig
at_response_orig-Roomy n w str d v =
    let d₁ = record d { device = record d.device { last_dialed_cpvt = none } } in
    let u : Roomy n d₁ = on (touch v.has) in
    elim (Option-cases d.device.last_dialed_cpvt) [
      | inl e ↦ rw (at_response_orig, e) u
      | inr (a, e) ↦
          rw (at_response_orig, e)
            (orig_numbers-Roomy n w a (both (scan (ascii "^ORIG:") 2 str)) d₁ u)
    ]

pub at_response_cend-Roomy :
    (n : ℕ) (w : World) (text : List ℕ) (d : Dongle)
    → Roomy n d
    → Roomy n (at_response_cend w text d)
unfolding at_response_cend
at_response_cend-Roomy n w text d v =
    let u = request_clcc-Roomy n w 0 d v in
    at_call n (find_call (request_clcc w 0 d) (first_of (scan (ascii "^CEND:") 4 text)))
      (λ a. change_state w.fas (need_hangup false (request_clcc w 0 d) a) a released)
      (request_clcc w 0 d) u
      (λ a.
        change_state-Roomy n w.fas (need_hangup false (request_clcc w 0 d) a) a released (on u.has))

pub hang_up-Roomy :
    (n : ℕ) (w : World) (k a : ℕ) (d : Dongle) → Roomy n d → Roomy n (hang_up w k a d)
unfolding hang_up
hang_up-Roomy n w k a d v =
    let forgot : Roomy n (
        if is_init d a
        then record d { device = record d.device { last_dialed_cpvt = none } }
        else d) =
      either (Roomy n) _ (on (touch v.has)) v in
    on (touch (forgot.has))

pub conn_call-Roomy :
    (n : ℕ) (w : World) (a : ℕ) (d : Dongle) → Roomy n d → Roomy n (conn_call w a d)
conn_call-Roomy n w a d v =
    let u =
      change_state-Roomy n w.fas (mark d a (λ m. record m { answered = true })) a active
        (on v.has) in
    let d₁ = change_state w.fas (mark d a (λ m. record m { answered = true })) a active in
    either (Roomy n) (w.group_295 && is_outgoing a d₁.device.chans) (hang_up-Roomy n w 0 a d₁ u) (
      either (Roomy n) ((request_clcc w 0 d₁).marks a).conference
        (on (touch (request_clcc-Roomy n w 0 d₁ u).has)) (request_clcc-Roomy n w 0 d₁ u))

pub conn_found-Roomy :
    (n : ℕ) (w : World) (o : Option ℕ) (d : Dongle) → Roomy n d → Roomy n (conn_found w o d)
conn_found-Roomy n w none d v = hang_up-Roomy n w 0 (sys_chan d) d v
conn_found-Roomy n w (some a) d v = conn_call-Roomy n w a d v

pub conn_numbers-Roomy :
    (n : ℕ) (w : World) (o : Option (ℤ × ℤ)) (d : Dongle)
    → Roomy n d
    → Roomy n (conn_numbers w o d).1
conn_numbers-Roomy n w none d v = v
conn_numbers-Roomy n w (some (i, t)) d v =
    either (Roomy n) (is_voice t) (conn_found-Roomy n w (find_call d i) d v) v

pub at_response_conn-Roomy :
    (n : ℕ) (w : World) (str : List ℕ) (d : Dongle)
    → Roomy n d
    → Roomy n (at_response_conn w str d).1
unfolding at_response_conn
at_response_conn-Roomy n w str d v =
    conn_numbers-Roomy n w (both (scan (ascii "^CONN:") 2 str))
      (record d { bits = record { dialing = false; ring = false; cwaiting = false } }) (on v.has)

-- `new_channel` takes the place of one call.
channel_of :
    (n : ℕ) (w : World) (d : Dongle) (room : Option ℕ)
    → Roomy n d
    → Roomy n (with_channel w d room).0
channel_of n w d none v = v
channel_of n w d (some a) v =
    either (λ (r : Dongle × Option ℕ). Roomy n r.0) w.channel (on v.has)
      (on (free_call-HasRoom n (mark d a (λ m. record new_marks { channel = false })) a v.has))

pub new_channel-Roomy :
    (n : ℕ) (w : World) (call_idx dir state : ℕ) (d : Dongle)
    → Roomy (suc n) d
    → Roomy n (new_channel w call_idx dir state d).0
unfolding new_channel
new_channel-Roomy n w call_idx dir state d v =
    let r = cpvt_alloc d.device call_idx dir state w.pipe (w.ends).0 (w.ends).1 w.call_mem in
    channel_of n w (with_calls d r.0) r.1 (
      on (
        with_calls-HasRoom n d r.0 (
          cpvt_alloc-HasRoom n d.device call_idx dir state w.pipe (w.ends).0 (w.ends).1 w.call_mem
            v.has)))

pub start_thread-Roomy :
    (n : ℕ) (w : World) (d : Dongle) (room : Option ℕ)
    → Roomy n d
    → Roomy n (start_thread w d room).0
start_thread-Roomy n w d none v = hang_up-Roomy n w 0 (sys_chan d) d v
start_thread-Roomy n w d (some a) v =
    either (λ (r : Dongle × Bool). Roomy n r.0) w.pbx (on v.has)
      (on (free_call-HasRoom n (need_hangup true d a) a v.has))

pub start_pbx-Roomy :
    (n : ℕ) (w : World) (call_idx state : ℕ) (d : Dongle)
    → Roomy (suc n) d
    → Roomy n (start_pbx w call_idx state d).0
unfolding start_pbx
start_pbx-Roomy n w call_idx state d v =
    let r = new_channel w call_idx 1 state d in
    start_thread-Roomy n w r.0 r.1 (new_channel-Roomy n w call_idx 1 state d v)
