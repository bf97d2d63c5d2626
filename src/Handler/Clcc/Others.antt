-- ===== src/Handler/Clcc/Others.antt =====
-- The calls that an entry of +CLCC does not name, under its handling.
use chan_svistok.Base.{
  ℕ, zero, suc, ◌≡◌, ◌≢◌, refl, ap, ◌∙◌, List, [], ◌∷◌, ◌++◌, Bool, true, false, not, ◌&&◌, Option,
  none, some, Option-cases, leb, ◌==◌, if◌then◌else◌, arith, inl, inr, ℤ, pos, negsuc,
}
use mathlib.Core.Option.{none-ne-some}
use chan_svistok.Calls.{
  Call, Device, find_chan, remove_chan, unlink, unlink_found, cpvt_free, init_pipe, insert_call,
  cpvt_alloc, pvt_find_cpvt,
}
use chan_svistok.Calls.State.{Bits, moved, set_state, change_channel_state, waiting_state}
use chan_svistok.Parse.Values.{Clcc}
use chan_svistok.Dongle.{Dongle, ask_all, mark, change_state, free_call, with_calls, pvt_enabled}
use chan_svistok.Dongle.Inv.{run_hooks-device}
use chan_svistok.Handler.{World, is_init, need_hangup, sys_chan}
use chan_svistok.Handler.Calling.{
  new_marks, with_channel, new_channel, start_thread, start_pbx, hang_up,
}
use chan_svistok.Handler.Listing.{
  note_state, is_new, pass_rings, known_call, clcc_call, clcc_entry, none_alive,
}
use chan_svistok.Handler.Tallied.Steps.{either}

-- The call is on the list.
pub record IsOn (a : ℕ) (c : Call) (d : Dongle) : Type 0 where
  pub found : find_chan a d.device.chans ≡ some c

find_chan-set_state :
    (a b s : ℕ) (cs : List Call) → b ≢ a → find_chan a (set_state b s cs) ≡ find_chan a cs
unfolding find_chan set_state
find_chan-set_state a b s [] n = refl
find_chan-set_state a b s (c ∷ cs) n = ground (arith, n, find_chan-set_state a b s cs n)

find_chan-other :
    (a b : ℕ) (cs : List Call) → b ≢ a → find_chan a (remove_chan b cs) ≡ find_chan a cs
unfolding find_chan remove_chan
find_chan-other a b [] n = refl
find_chan-other a b (c ∷ cs) n = ground (arith, n, find_chan-other a b cs n)

find_chan-append :
    (a : ℕ) (cs ds : List Call) (c : Call)
    → find_chan a cs ≡ some c
    → find_chan a (cs ++ ds) ≡ some c
unfolding find_chan
find_chan-append a [] ds c e = cc
find_chan-append a (x ∷ cs) ds c e = ground (arith, e, find_chan-append a cs ds c)

find_chan-cpvt_free :
    (a b : ℕ) (pvt : Device) → b ≢ a → find_chan a (cpvt_free pvt b).chans ≡ find_chan a pvt.chans
unfolding cpvt_free unlink unlink_found
find_chan-cpvt_free a b pvt n = elim (Option-cases (find_chan b pvt.chans)) [
  | inl e ↦ rw e refl
  | inr (x, e) ↦ rw e (find_chan-other a b pvt.chans n)
]

find_chan-change_channel_state :
    (a b : ℕ) (pvt : Device) (bits : Bits) (has_channel fas : Bool) (new : ℕ)
    → b ≢ a
    → find_chan a (change_channel_state pvt bits has_channel fas b new).pvt.chans
      ≡ find_chan a pvt.chans
unfolding change_channel_state
find_chan-change_channel_state a b pvt bits has_channel fas new n =
    elim (Option-cases (find_chan b pvt.chans)) [
      | inl e ↦ rw (change_channel_state, e) refl
      | inr (x, e) ↦
          rw (change_channel_state, e)
            (ground (
              arith,
              find_chan-set_state a b new pvt.chans n,
              find_chan-cpvt_free a b (moved pvt b x.state new) n,
            ))
    ]

with_calls-IsOn :
    (a : ℕ) (c : Call) (d : Dongle) (device : Device)
    → find_chan a device.chans ≡ some c
    → IsOn a c (with_calls d device)
with_calls-IsOn a c d device e = record {
  found = ap (λ (x : Device). find_chan a x.chans) (run_hooks-device device.hooks _) ∙ e;
}

change_state-IsOn :
    (a b : ℕ) (c : Call) (fas : Bool) (d : Dongle) (new : ℕ)
    → b ≢ a
    → IsOn a c d
    → IsOn a c (change_state fas d b new)
unfolding change_state
change_state-IsOn a b c fas d new n v =
    let r = change_channel_state d.device d.bits (d.marks b).channel fas b new in
    with_calls-IsOn a c (record d { bits = r.bits; asked = d.asked ++ ask_all b r.asked }) r.pvt
      (find_chan-change_channel_state a b d.device d.bits (d.marks b).channel fas new n ∙ v.found)

free_call-IsOn : (a b : ℕ) (c : Call) (d : Dongle) → b ≢ a → IsOn a c d → IsOn a c (free_call d b)
unfolding free_call
free_call-IsOn a b c d n v =
    with_calls-IsOn a c d (cpvt_free d.device b) (find_chan-cpvt_free a b d.device n ∙ v.found)

-- A list that is longer by a new call.
find_chan-insert_call :
    (a : ℕ) (c : Call) (pvt : Device) (call_idx dir state : ℕ) (pipe : ℤ) (room : Option ℕ)
    → find_chan a pvt.chans ≡ some c
    → find_chan a (insert_call pvt call_idx dir state pipe room).0.chans ≡ some c
unfolding insert_call
find_chan-insert_call a c pvt call_idx dir state (negsuc k) room e = e
find_chan-insert_call a c pvt call_idx dir state (pos (suc k)) room e = e
find_chan-insert_call a c pvt call_idx dir state (pos zero) none e = e
find_chan-insert_call a c pvt call_idx dir state (pos zero) (some b) e =
    find_chan-append a pvt.chans _ c e

insert_call-room :
    (a : ℕ) (pvt : Device) (call_idx dir state : ℕ) (pipe : ℤ) (room : Option ℕ)
    → room ≢ some a
    → (insert_call pvt call_idx dir state pipe room).1 ≢ some a
unfolding insert_call
insert_call-room a pvt call_idx dir state (negsuc k) room n = none-ne-some a
insert_call-room a pvt call_idx dir state (pos (suc k)) room n = none-ne-some a
insert_call-room a pvt call_idx dir state (pos zero) none n = none-ne-some a
insert_call-room a pvt call_idx dir state (pos zero) (some b) n = n

-- Of the device of a result, and the address in it.
abbrev Others : ℕ → Call → Dongle × Option ℕ → Type 0
Others a c r = IsOn a c r.0 × (r.1 ≢ some a)

with_channel-IsOn :
    (a : ℕ) (c : Call) (w : World) (d : Dongle) (room : Option ℕ)
    → room ≢ some a
    → IsOn a c d
    → Others a c (with_channel w d room)
with_channel-IsOn a c w d none n v = (v, n)
with_channel-IsOn a c w d (some b) n v =
    either (Others a c) w.channel (record { found = v.found }, n)
      (
        free_call-IsOn a b c (mark d b (λ m. record new_marks { channel = false }))
            (λ e. n (ap some e)) (record { found = v.found }),
        none-ne-some a,
      )

new_channel-IsOn :
    (a : ℕ) (c : Call) (w : World) (call_idx dir state : ℕ) (d : Dongle)
    → w.call_mem ≢ some a
    → IsOn a c d
    → Others a c (new_channel w call_idx dir state d)
unfolding new_channel cpvt_alloc
new_channel-IsOn a c w call_idx dir state d n v =
    let pipe = (init_pipe w.pipe (w.ends).0 (w.ends).1).0 in
    let r = insert_call d.device call_idx dir state pipe w.call_mem in
    with_channel-IsOn a c w (with_calls d r.0) r.1
      (insert_call-room a d.device call_idx dir state pipe w.call_mem n)
      (with_calls-IsOn a c d r.0
        (find_chan-insert_call a c d.device call_idx dir state pipe w.call_mem v.found))

hang_up-IsOn :
    (a b : ℕ) (c : Call) (w : World) (k : ℕ) (d : Dongle) → IsOn a c d → IsOn a c (hang_up w k b d)
unfolding hang_up
hang_up-IsOn a b c w k d v = record {
  found =
      either (λ (x : Dongle). find_chan a x.device.chans ≡ some c) (is_init d b) v.found v.found;
}

start_thread-IsOn :
    (a : ℕ) (c : Call) (w : World) (d : Dongle) (room : Option ℕ)
    → room ≢ some a
    → IsOn a c d
    → IsOn a c (start_thread w d room).0
start_thread-IsOn a c w d none n v = hang_up-IsOn a (sys_chan d) c w 0 d v
start_thread-IsOn a c w d (some b) n v =
    either (λ (r : Dongle × Bool). IsOn a c r.0) w.pbx (record { found = v.found })
      (free_call-IsOn a b c (need_hangup true d b) (λ e. n (ap some e))
        (record { found = v.found }))

start_pbx-IsOn :
    (a : ℕ) (c : Call) (w : World) (call_idx state : ℕ) (d : Dongle)
    → w.call_mem ≢ some a
    → IsOn a c d
    → IsOn a c (start_pbx w call_idx state d).0
unfolding start_pbx
start_pbx-IsOn a c w call_idx state d n v =
    let r = new_channel w call_idx 1 state d in
    let u = new_channel-IsOn a c w call_idx 1 state d n v in start_thread-IsOn a c w r.0 r.1 u.1 u.0

pass_rings-IsOn : (a b : ℕ) (c : Call) (d : Dongle) → IsOn a c d → IsOn a c (pass_rings b d)
unfolding pass_rings
pass_rings-IsOn a b c d v = either (IsOn a c) (d.marks b).channel (record { found = v.found }) v

known_call-IsOn :
    (a : ℕ) (c : Call) (w : World) (r : Clcc) (b : ℕ) (o : Option Call) (d : Dongle)
    → b ≢ a
    → IsOn a c d
    → IsOn a c (known_call w r b o d)
known_call-IsOn a c w r b none d n v = v
known_call-IsOn a c w r b (some x) d n v =
    let d₁ = mark d b (λ m. record m { multiparty = not (r.mpty == 0) }) in
    let u : IsOn a c d₁ = record { found = v.found } in
    let d₂ = (if is_new r then pass_rings b d₁ else d₁) in
    let t : IsOn a c d₂ = either (IsOn a c) (is_new r) (pass_rings-IsOn a b c d₁ u) u in
    either (IsOn a c) (r.dir == x.dir)
      (either (IsOn a c) (r.state == x.state) t (change_state-IsOn a b c w.fas d₂ r.state n t)) v

clcc_call-IsOn :
    (a : ℕ) (c : Call) (w : World) (r : Clcc) (d : Dongle)
    → pvt_find_cpvt d.device r.call_idx ≢ some a
    → w.call_mem ≢ some a
    → IsOn a c d
    → IsOn a c (clcc_call w r d)
unfolding clcc_call
clcc_call-IsOn a c w r d n m v = elim (Option-cases (pvt_find_cpvt d.device r.call_idx)) [
  | inl e ↦
      rw (clcc_call, e)
        (either (IsOn a c) (is_new r && pvt_enabled d)
          (start_pbx-IsOn a c w r.call_idx r.state d m v) v)
  | inr (b, e) ↦
      rw (clcc_call, e)
        (known_call-IsOn a c w r b (find_chan b d.device.chans)
          (mark d b (λ m. record m { alive = true })) (λ p. n (e ∙ ap some p))
          (record { found = v.found }))
]

note_state-device : (state : ℕ) (d : Dongle) → (note_state state d).device ≡ d.device
unfolding note_state
note_state-device state d = ground arith

pub clcc_entry-IsOn :
    (a : ℕ) (c : Call) (w : World) (r : Clcc) (d : Dongle)
    → pvt_find_cpvt d.device r.call_idx ≢ some a
    → w.call_mem ≢ some a
    → IsOn a c d
    → IsOn a c (clcc_entry w r d)
unfolding clcc_entry
clcc_entry-IsOn a c w r d n m v =
    either (IsOn a c) (r.mode == 0 && leb r.state waiting_state)
      (record {
        found =
            ap (λ (x : Device). find_chan a x.chans) (note_state-device r.state (clcc_call w r d))
            ∙ (clcc_call-IsOn a c w r d n m v).found;
      })
      v

pub none_alive-device : (cs : List Call) (d : Dongle) → (none_alive cs d).device ≡ d.device
unfolding none_alive
none_alive-device [] d = refl
none_alive-device (c ∷ cs) d =
    none_alive-device cs (mark d c.address (λ m. record m { alive = false }))
