-- ===== src/Handler/Tallied/Steps.antt =====
-- The counters of the calls, with room for more of them, under the steps that the handlers are made of.
use chan_svistok.Base.{
  ℕ, zero, suc, ◌+◌, ◌%◌, ◌^◌, ◌≤◌, ◌<◌, ◌≡◌, refl, sym, subst, ◌∙◌, List, [], ◌∷◌, ◌++◌, Bool,
  true, false, Bool-cases, Option, none, some, Option-cases, length, length-append, ◌==◌,
  if◌then◌else◌, arith, inl, inr, ℤ, pos, negsuc,
}
use chan_svistok.Queue.{Task}
use chan_svistok.Calls.{
  Call, Device, Answers, find_chan, remove_chan, unlink, unlink_found, cpvt_free, init_pipe,
  insert_call, to_short, cpvt_alloc,
}
use chan_svistok.Calls.Inv.{in_state, IsTallied, cpvt_free-IsTallied, cpvt_alloc-IsTallied}
use chan_svistok.Calls.State.{
  Bits, released, moved, length-set_state, change_channel_state, change_channel_state-IsTallied,
}
use chan_svistok.Dongle.{Dongle, with_calls, ask_all, change_state, free_call, pvt_try_restate}
use chan_svistok.Dongle.Inv.{run_hooks-device, pvt_try_restate-device}
use chan_svistok.Handler.Calling.{set_idx}

-- The counters are right, and there is room for `n` more calls.
pub record HasRoom (n : ℕ) (pvt : Device) : Type 0 where
  pub tallied : IsTallied pvt
  pub left : length pvt.chans + n < 2 ^ 32

-- What holds of both branches holds of the test.
pub either {ℓ κ} :
    {A : Type ℓ} (P : A → Type κ) (b : Bool) {x y : A} → P x → P y → P (if b then x else y)
either P true p q = p
either P false p q = q

-- The queue and the call dialed last may change.
pub touch :
    {n : ℕ} {pvt : Device} {q : List Task} {l : Option ℕ}
    → HasRoom n pvt
    → HasRoom n (record pvt { at_queue = q; last_dialed_cpvt = l })
touch v = record {
  tallied = record { total = v.tallied.total; few = v.tallied.few; each = v.tallied.each };
  left = v.left;
}

length-remove_chan_le : (a : ℕ) (cs : List Call) → length (remove_chan a cs) ≤ length cs
unfolding remove_chan
length-remove_chan_le a [] = omega arith
length-remove_chan_le a (c ∷ cs) = ground (arith, length-remove_chan_le a cs)

length-cpvt_free : (pvt : Device) (a : ℕ) → length (cpvt_free pvt a).chans ≤ length pvt.chans
unfolding cpvt_free unlink unlink_found
length-cpvt_free pvt a = elim (Option-cases (find_chan a pvt.chans)) [
  | inl e ↦ rw e (omega arith)
  | inr (c, e) ↦ rw e (length-remove_chan_le a pvt.chans)
]

length-change_channel_state :
    (pvt : Device) (bits : Bits) (has_channel fas : Bool) (a new : ℕ)
    → length (change_channel_state pvt bits has_channel fas a new).pvt.chans ≤ length pvt.chans
unfolding change_channel_state
length-change_channel_state pvt bits has_channel fas a new =
    elim (Option-cases (find_chan a pvt.chans)) [
      | inl e ↦ rw (change_channel_state, e) (omega arith)
      | inr (c, e) ↦
          rw (change_channel_state, e)
            (elim (Bool-cases (new == c.state)) [
              | inl t ↦ rw t (omega arith)
              | inr t ↦ rw t (elim (Bool-cases (new == released)) [
                | inl r ↦ rw r (
                    omega (
                      arith,
                      length-cpvt_free (moved pvt a c.state new) a,
                      length-set_state a new pvt.chans,
                    ))
                | inr r ↦ rw r (omega (arith, length-set_state a new pvt.chans))
              ])
            ])
    ]

pub with_calls-HasRoom :
    (n : ℕ) (d : Dongle) (device : Device)
    → HasRoom n device
    → HasRoom n (with_calls d device).device
with_calls-HasRoom n d device v =
    subst (HasRoom n)
      (sym (run_hooks-device device.hooks (record d { device = record device { hooks = [] } })))
      (record {
        tallied = record { total = v.tallied.total; few = v.tallied.few; each = v.tallied.each };
        left = v.left;
      })

pub pvt_try_restate-HasRoom :
    (n : ℕ) (d : Dongle) → HasRoom n d.device → HasRoom n (pvt_try_restate d).device
pvt_try_restate-HasRoom n d v = subst (HasRoom n) (sym (pvt_try_restate-device d)) v

pub change_state-HasRoom :
    (n : ℕ) (fas : Bool) (d : Dongle) (a new : ℕ)
    → HasRoom n d.device
    → HasRoom n (change_state fas d a new).device
unfolding change_state
change_state-HasRoom n fas d a new v =
    let r = change_channel_state d.device d.bits (d.marks a).channel fas a new in
    with_calls-HasRoom n (record d { bits = r.bits; asked = d.asked ++ ask_all a r.asked }) r.pvt
      (record {
        tallied = change_channel_state-IsTallied d.bits (d.marks a).channel fas a new v.tallied;
        left = omega (
          arith,
          v.left,
          length-change_channel_state d.device d.bits (d.marks a).channel fas a new,
        );
      })

pub free_call-HasRoom :
    (n : ℕ) (d : Dongle) (a : ℕ) → HasRoom n d.device → HasRoom n (free_call d a).device
unfolding free_call
free_call-HasRoom n d a v = with_calls-HasRoom n d (cpvt_free d.device a) (record {
  tallied = cpvt_free-IsTallied a v.tallied;
  left = omega (arith, v.left, length-cpvt_free d.device a);
})

length-insert_call :
    (pvt : Device) (call_idx dir state : ℕ) (pipe : ℤ) (room : Option ℕ)
    → length (insert_call pvt call_idx dir state pipe room).0.chans ≤ length pvt.chans + 1
unfolding insert_call
length-insert_call pvt call_idx dir state (negsuc k) room = omega arith
length-insert_call pvt call_idx dir state (pos (suc k)) room = omega arith
length-insert_call pvt call_idx dir state (pos zero) none = omega arith
length-insert_call pvt call_idx dir state (pos zero) (some a) =
    let e : Call = record {
      address = a;
      call_idx = to_short call_idx;
      state = state;
      dir = dir % 2;
    } in
    omega (arith, length-append pvt.chans (e ∷ []))

pub cpvt_alloc-HasRoom :
    (n : ℕ) (pvt : Device) (call_idx dir state : ℕ) (rv : ℤ) (a b : Answers) (room : Option ℕ)
    → HasRoom (suc n) pvt
    → HasRoom n (cpvt_alloc pvt call_idx dir state rv a b room).0
unfolding cpvt_alloc
cpvt_alloc-HasRoom n pvt call_idx dir state rv a b room v = record {
  tallied = cpvt_alloc-IsTallied call_idx dir state rv a b room (omega (arith, v.left)) v.tallied;
  left = omega (arith, v.left, length-insert_call pvt call_idx dir state (init_pipe rv a b).0 room);
}

length-set_idx : (a i : ℕ) (cs : List Call) → length (set_idx a i cs) ≡ length cs
unfolding set_idx
length-set_idx a i [] = refl
length-set_idx a i (c ∷ cs) = ground (arith, length-set_idx a i cs)

in_state-set_idx : (s a i : ℕ) (cs : List Call) → in_state s (set_idx a i cs) ≡ in_state s cs
unfolding set_idx
in_state-set_idx s a i [] = refl
in_state-set_idx s a i (c ∷ cs) = ground (arith, in_state-set_idx s a i cs)

pub set_idx-HasRoom :
    (n : ℕ) (pvt : Device) (a i : ℕ)
    → HasRoom n pvt
    → HasRoom n (record pvt { chans = set_idx a i pvt.chans })
set_idx-HasRoom n pvt a i v = record {
  tallied = record {
    total = v.tallied.total ∙ sym (length-set_idx a i pvt.chans);
    few = omega (arith, v.tallied.few, length-set_idx a i pvt.chans);
    each = λ s. omega (arith, v.tallied.each s, in_state-set_idx s a i pvt.chans);
  };
  left = omega (arith, v.left, length-set_idx a i pvt.chans);
}
