-- ===== src/Dongle/Inv.antt =====
-- What the hooks leave alone, and the counters of the calls under the operations of a device.
use chan_svistok.Base.{ℕ, ◌≡◌, refl, sym, subst, List, [], ◌∷◌, ◌++◌, Bool, arith, ◌∙◌}
use chan_svistok.Calls.{Device, Hook, on_create_1st_channel, on_remove_last_channel, try_restate}
use chan_svistok.Calls.Inv.{IsTallied, cpvt_free-IsTallied}
use chan_svistok.Calls.State.{change_channel_state, change_channel_state-IsTallied}
use chan_svistok.Dongle.{
  Dongle, run_hook, run_hooks, pvt_try_restate, with_calls, ask_all, change_state, free_call,
}

pub pvt_try_restate-device : (d : Dongle) → (pvt_try_restate d).device ≡ d.device
unfolding pvt_try_restate
pvt_try_restate-device d = ground arith

run_hook-device : (h : Hook) (d : Dongle) → (run_hook d h).device ≡ d.device
unfolding run_hook
run_hook-device on_create_1st_channel d = refl
run_hook-device on_remove_last_channel d = refl
run_hook-device try_restate d = pvt_try_restate-device d

pub run_hooks-device : (hs : List Hook) (d : Dongle) → (run_hooks hs d).device ≡ d.device
unfolding run_hooks
run_hooks-device [] d = refl
run_hooks-device (h ∷ hs) d = run_hooks-device hs (run_hook d h) ∙ run_hook-device h d

pub with_calls-IsTallied :
    (d : Dongle) {device : Device} → IsTallied device → IsTallied (with_calls d device).device
with_calls-IsTallied d {device} v =
    subst IsTallied
      (sym (run_hooks-device device.hooks (record d { device = record device { hooks = [] } })))
      (record { total = v.total; few = v.few; each = v.each })

pub change_state-IsTallied :
    (d : Dongle) (fas : Bool) (a new : ℕ)
    → IsTallied d.device
    → IsTallied (change_state fas d a new).device
unfolding change_state
change_state-IsTallied d fas a new v =
    let r = change_channel_state d.device d.bits (d.marks a).channel fas a new in
    with_calls-IsTallied (record d { bits = r.bits; asked = d.asked ++ ask_all a r.asked })
      (change_channel_state-IsTallied d.bits (d.marks a).channel fas a new v)

pub free_call-IsTallied :
    (d : Dongle) (a : ℕ) → IsTallied d.device → IsTallied (free_call d a).device
unfolding free_call
free_call-IsTallied d a v = with_calls-IsTallied d (cpvt_free-IsTallied a v)
