-- ===== src/Dongle/Disconnect.antt =====
-- chan_dongle.c: what `disconnect_dongle` leaves.
use chan_svistok.Base.{
  ℕ, ◌≡◌, refl, ap, ◌∙◌, List, [], ◌∷◌, Bool, true, false, Bool-cases, inl, inr, length, ◌==◌,
  ==→eq, arith, ◌%◌,
}
use chan_svistok.Queue.{Task, Pvt, at_queue_flush, flush_loop, at_queue_remove, remove_from}
use chan_svistok.Calls.{Call, Device, find_chan, remove_chan, unlink, unlink_found, cpvt_free}
use chan_svistok.Calls.Inv.{in_state, IsTallied}
use chan_svistok.Calls.State.{Bits, released, set_state, change_channel_state}
use chan_svistok.Command.Start.{at_hangup_immediality}
use chan_svistok.Dongle.{Dongle, queue, with_queue, mark, change_state}
use chan_svistok.Dongle.Inv.{run_hooks-device, change_state-IsTallied}
use chan_svistok.Dongle.Restate.{Wire, hang_up_all, hung_up, disconnect_dongle}

-- No call of the list has been released, as holds for a call that is not freed.
abbrev pub NoneReleased : List Call → Type 0
NoneReleased [] = Unit {0}
NoneReleased (c ∷ cs) = ((c.state == released) ≡ false) × NoneReleased cs

-- Releasing the first call takes it off the list.
pub change_channel_state-first :
    (pvt : Device) (bits : Bits) (has_channel fas : Bool) (c : Call) (cs : List Call)
    → pvt.chans ≡ c ∷ cs
    → (c.state == released) ≡ false
    → (change_channel_state pvt bits has_channel fas c.address released).pvt.chans ≡ cs
unfolding change_channel_state find_chan set_state cpvt_free unlink unlink_found remove_chan
change_channel_state-first pvt bits has_channel fas c cs e n = ground arith

pub change_state-first :
    (fas : Bool) (d : Dongle) (c : Call) (cs : List Call)
    → d.device.chans ≡ c ∷ cs
    → (c.state == released) ≡ false
    → (change_state fas d c.address released).device.chans ≡ cs
unfolding change_state
change_state-first fas d c cs e n =
    let r =
      change_channel_state d.device d.bits (d.marks c.address).channel fas c.address released in
    ap (λ (x : Device). x.chans) (run_hooks-device r.pvt.hooks _)
    ∙ change_channel_state-first d.device d.bits (d.marks c.address).channel fas c cs e n

hang_up_all-none :
    (w : Wire) (cs : List Call) (d : Dongle)
    → d.device.chans ≡ cs
    → NoneReleased cs
    → (hang_up_all w cs d).device.chans ≡ []
unfolding hang_up_all
hang_up_all-none w [] d e n = e
hang_up_all-none w (c ∷ cs) d e n =
    let d₁ = with_queue d (at_hangup_immediality (queue d) c.call_idx (w.written c.address)) in
    let d₂ = mark d₁ c.address (λ m. record m { need_hangup = false }) in
    hang_up_all-none w cs (change_state w.fas d₂ c.address released)
      (change_state-first w.fas d₂ c cs e n.0) n.1

hang_up_all-IsTallied :
    (w : Wire) (cs : List Call) (d : Dongle)
    → IsTallied d.device
    → IsTallied (hang_up_all w cs d).device
unfolding hang_up_all
hang_up_all-IsTallied w [] d v = v
hang_up_all-IsTallied w (c ∷ cs) d v =
    let d₁ = with_queue d (at_hangup_immediality (queue d) c.call_idx (w.written c.address)) in
    let d₂ = mark d₁ c.address (λ m. record m { need_hangup = false }) in
    hang_up_all-IsTallied w cs (change_state w.fas d₂ c.address released) (
      change_state-IsTallied d₂ w.fas c.address released
        (record { total = v.total; few = v.few; each = v.each }))

no_chans-chans : (pvt : Device) → IsTallied pvt → (pvt.chansno == 0) ≡ true → pvt.chans ≡ []
no_chans-chans pvt v h = nil pvt.chans (omega (arith, v.total, ==→eq _ _ h))
  where
    nil : (cs : List Call) → length cs ≡ 0 → cs ≡ []
    nil [] e = refl
    nil (c ∷ cs) e = absurd (omega (arith, e))

hung_up-none :
    (w : Wire) (d : Dongle)
    → IsTallied d.device
    → NoneReleased d.device.chans
    → ((hung_up w d).device.chans ≡ []) × IsTallied (hung_up w d).device
hung_up-none w d v n = elim (Bool-cases (d.device.chansno == 0)) [
  | inl t ↦ rw t (no_chans-chans d.device v t, v)
  | inr f ↦
      rw f (hang_up_all-none w d.device.chans d refl n, hang_up_all-IsTallied w d.device.chans d v)
]

flush_loop-none :
    (ts : List Task) (pvt : Pvt) → pvt.at_queue ≡ ts → (flush_loop ts pvt).at_queue ≡ []
unfolding flush_loop at_queue_remove remove_from
flush_loop-none [] pvt e = e
flush_loop-none (t ∷ ts) pvt e = flush_loop-none ts (at_queue_remove pvt) (rw e)

-- A device that `disconnect_dongle` has let go of has no call and no task left, and its counters of calls are 0; the
-- counters were right before, and no call of the list was in the state CALL_STATE_RELEASED.
pub disconnect_dongle-clears :
    (w : Wire) (d : Dongle)
    → IsTallied d.device
    → NoneReleased d.device.chans
    → ((disconnect_dongle w d).device.chans ≡ [])
      × ((disconnect_dongle w d).device.chansno ≡ 0)
      × ((s : ℕ) → (disconnect_dongle w d).device.chan_count s ≡ 0)
      × ((disconnect_dongle w d).device.at_queue ≡ [])
unfolding disconnect_dongle at_queue_flush
disconnect_dongle-clears w d v n =
    let (none_left, t) = hung_up-none w d v n in
    (
      none_left,
      t.total ∙ ap length none_left,
      λ s. t.each s ∙ ap (λ cs. in_state s cs % 256) none_left,
      flush_loop-none (queue (hung_up w d)).at_queue (queue (hung_up w d)) refl,
    )
