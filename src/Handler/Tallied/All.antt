-- ===== src/Handler/Tallied/All.antt =====
-- The counters of the calls under the handlers of Handler/Listing: +CLCC, +CCWA and RING.
use chan_svistok.Base.{
  ℕ, zero, suc, ◌+◌, ◌%◌, List, [], ◌∷◌, true, false, not, ◌&&◌, ◌||◌, Option, none, some,
  Option-cases, length, leb, ◌==◌, if◌then◌else◌, arith, inl, inr, ℤ, pos, negsuc, ascii,
}
use chan_svistok.Calls.{Call, find_chan, pvt_find_cpvt}
use chan_svistok.Calls.State.{waiting_state, dialing_state, alerting, incoming}
use chan_svistok.Parse.{until_nul}
use chan_svistok.Parse.Values.{Clcc, at_parse_clcc, at_parse_ccwa}
use chan_svistok.Parse.Scan.{low_bits}
use chan_svistok.Dongle.{Dongle, mark, pvt_enabled, no_chans}
use chan_svistok.Handler.{World, sys_chan}
use chan_svistok.Handler.Calling.{scan, request_clcc}
use chan_svistok.Handler.Listing.{
  note_state, is_new, pass_rings, known_call, clcc_call, clcc_entry, next_line, left_text, entry_of,
  clcc_loop, none_alive, at_response_clcc, call_waits, ccwa_range, ccwa_status, at_response_ccwa,
  only_ringing, ring_again, at_response_ring,
}
use chan_svistok.Handler.Tallied.{Roomy, on, change_state-Roomy}
use chan_svistok.Handler.Tallied.Calling.{request_clcc-Roomy, sync_volume-Roomy, start_pbx-Roomy}
use chan_svistok.Handler.Tallied.Steps.{either}

-- A step that takes no place leaves what there was room for.
fewer : (n : ℕ) (d : Dongle) → Roomy (suc n) d → Roomy n d
fewer n d v = on (record { tallied = v.has.tallied; left = omega (arith, v.has.left) })

note_state-Roomy : (n state : ℕ) (d : Dongle) → Roomy n d → Roomy n (note_state state d)
unfolding note_state
note_state-Roomy n state d v = either (Roomy n) (state == waiting_state) (on v.has) (
    either (Roomy n) (state == dialing_state || state == alerting) (on v.has)
      (either (Roomy n) (state == incoming) (on v.has) v))

pass_rings-Roomy : (n a : ℕ) (d : Dongle) → Roomy n d → Roomy n (pass_rings a d)
unfolding pass_rings
pass_rings-Roomy n a d v = either (Roomy n) (d.marks a).channel (on v.has) v

known_call-Roomy :
    (n : ℕ) (w : World) (r : Clcc) (a : ℕ) (o : Option Call) (d : Dongle)
    → Roomy n d
    → Roomy n (known_call w r a o d)
known_call-Roomy n w r a none d v = v
known_call-Roomy n w r a (some c) d v =
    let d₁ = mark d a (λ m. record m { multiparty = not (r.mpty == 0) }) in
    let u : Roomy n d₁ = on v.has in
    let d₂ = (if is_new r then pass_rings a d₁ else d₁) in
    let t : Roomy n d₂ = either (Roomy n) (is_new r) (pass_rings-Roomy n a d₁ u) u in
    either (Roomy n) (r.dir == c.dir)
      (either (Roomy n) (r.state == c.state) t (change_state-Roomy n w.fas d₂ a r.state t)) v

clcc_call-Roomy :
    (n : ℕ) (w : World) (r : Clcc) (d : Dongle) → Roomy (suc n) d → Roomy n (clcc_call w r d)
unfolding clcc_call
clcc_call-Roomy n w r d v = elim (Option-cases (pvt_find_cpvt d.device r.call_idx)) [
  | inl e ↦
      rw (clcc_call, e)
        (either (Roomy n) (is_new r && pvt_enabled d) (start_pbx-Roomy n w r.call_idx r.state d v)
          (fewer n d v))
  | inr (a, e) ↦
      rw (clcc_call, e)
        (known_call-Roomy n w r a (find_chan a d.device.chans)
          (mark d a (λ m. record m { alive = true })) (on (fewer n d v).has))
]

clcc_entry-Roomy :
    (n : ℕ) (w : World) (r : Clcc) (d : Dongle) → Roomy (suc n) d → Roomy n (clcc_entry w r d)
unfolding clcc_entry
clcc_entry-Roomy n w r d v =
    either (Roomy n) (r.mode == 0 && leb r.state waiting_state)
      (note_state-Roomy n r.state (clcc_call w r d) (clcc_call-Roomy n w r d v)) (fewer n d v)

entry_of-Roomy :
    (n : ℕ) (w : World) (o : Option Clcc) (d : Dongle) → Roomy (suc n) d → Roomy n (entry_of w o d)
entry_of-Roomy n w none d v = fewer n d v
entry_of-Roomy n w (some r) d v = clcc_entry-Roomy n w r d v

pub all_left : (k : ℕ) (d : Dongle) → Roomy k d → Roomy 0 d
all_left zero d v = v
all_left (suc k) d v = all_left k d (fewer k d v)

clcc_loop-Roomy :
    (w : ℕ → World) (fuel : ℕ) (str : List ℕ) (d : Dongle)
    → Roomy fuel d
    → Roomy 0 (clcc_loop w fuel str d)
unfolding clcc_loop
clcc_loop-Roomy w zero str d v = v
clcc_loop-Roomy w (suc fuel) str d v =
    let u = entry_of-Roomy fuel (w 0) (at_parse_clcc str) d v in
    elim (Option-cases (next_line (until_nul (left_text str (at_parse_clcc str))))) [
      | inl e ↦ rw (clcc_loop, e) (all_left fuel _ u)
      | inr (rest, e) ↦ rw (clcc_loop, e) (clcc_loop-Roomy (λ n. w (n + 1)) fuel rest _ u)
    ]

none_alive-Roomy : (n : ℕ) (cs : List Call) (d : Dongle) → Roomy n d → Roomy n (none_alive cs d)
unfolding none_alive
none_alive-Roomy n [] d v = v
none_alive-Roomy n (c ∷ cs) d v =
    none_alive-Roomy n cs (mark d c.address (λ m. record m { alive = false })) (on v.has)

pub at_response_clcc-Roomy :
    (w : ℕ → World) (str : List ℕ) (d : Dongle)
    → Roomy (length str + 1) d
    → Roomy 0 (at_response_clcc w str d)
unfolding at_response_clcc
at_response_clcc-Roomy w str d v =
    either (Roomy 0) d.link.initialized
      (clcc_loop-Roomy w (length str + 1) str _
        (none_alive-Roomy (length str + 1) d.device.chans d v))
      (all_left (length str + 1) d v)

call_waits-Roomy :
    (n : ℕ) (w : World) (o : Option ℕ) (d : Dongle) → Roomy n d → Roomy n (call_waits w o d)
call_waits-Roomy n w none d v = v
call_waits-Roomy n w (some class) d v =
    either (Roomy n) (class == 1) (request_clcc-Roomy n w 0 _ (on v.has)) v

ccwa_status-Roomy :
    (n : ℕ) (w : World) (str : List ℕ) (ns : List ℤ) (d : Dongle)
    → Roomy n d
    → Roomy n (ccwa_status w str ns d)
ccwa_status-Roomy n w str [] d v =
    either (Roomy n) d.link.initialized (call_waits-Roomy n w (at_parse_ccwa str) d v) v
ccwa_status-Roomy n w str (pos s ∷ []) d v = v
ccwa_status-Roomy n w str (negsuc s ∷ []) d v = v
ccwa_status-Roomy n w str (pos s ∷ (class ∷ ns)) d v =
    either (Roomy n) (low_bits class % 2 == 1 && leb s 1) (on v.has) v
ccwa_status-Roomy n w str (negsuc s ∷ (class ∷ ns)) d v = v

pub at_response_ccwa-Roomy :
    (n : ℕ) (w : World) (str : List ℕ) (d : Dongle) → Roomy n d → Roomy n (at_response_ccwa w str d)
unfolding at_response_ccwa
at_response_ccwa-Roomy n w str d v =
    either (Roomy n) (ccwa_range str) v
      (ccwa_status-Roomy n w str (scan (ascii "+CCWA:") 2 str) d v)

pub at_response_ring-Roomy :
    (n : ℕ) (w : World) (d : Dongle) → Roomy n d → Roomy n (at_response_ring w d)
unfolding at_response_ring
at_response_ring-Roomy n w d v =
    let d₁ = request_clcc w 0 (ring_again (only_ringing d)) in
    let u = request_clcc-Roomy n w 0 (ring_again (only_ringing d)) (on v.has) in
    either (Roomy n) d.link.initialized
      (either (Roomy n) (d₁.link.volume_sync_step == 0 && no_chans d₁)
        (sync_volume-Roomy n w 1 (sys_chan d₁) d₁ u) u)
      v
