-- ===== src/Handler/Tallied.antt =====
-- The counters of the calls, with room for more of them, under the handlers of Handler, which answer a command.
pub mod Steps
pub mod Calling
pub mod All
pub mod Messages
pub mod Network
pub mod Whole
use chan_svistok.Base.{
  cases_all, ◌&&◌, ℕ, Bool, true, Option, none, some, Option-cases, ◌==◌, ◌||◌, if◌then◌else◌, inl,
  inr, ℤ,
}
use chan_svistok.Calls.State.{Action, congestion, hangup}
use chan_svistok.Response.{res_ok, res_cmgr, res_sms_prompt}
use chan_svistok.Queue.{Task}
use chan_svistok.Dongle.{Dongle, change_state}
use chan_svistok.Handler.{
  World, head, control, dialed, dial_failed, no_sms_support, need_hangup, with_sim, is_init,
  sys_chan, ok_effect, at_response_ok, error_effect, at_response_error, at_response_sms_prompt,
  at_response_busy,
}
use chan_svistok.Handler.Tallied.Steps.{
  HasRoom, either, touch, pvt_try_restate-HasRoom, change_state-HasRoom,
}

pub record Roomy (n : ℕ) (d : Dongle) : Type 0 where
  pub has : HasRoom n d.device

pub on : {n : ℕ} {d : Dongle} → HasRoom n d.device → Roomy n d
on v = record { has = v }

pub change_state-Roomy :
    (n : ℕ) (fas : Bool) (d : Dongle) (a new : ℕ) → Roomy n d → Roomy n (change_state fas d a new)
change_state-Roomy n fas d a new v = on (change_state-HasRoom n fas d a new v.has)

pub control-Roomy : (n : ℕ) (d : Dongle) (a : ℕ) (x : Action) → Roomy n d → Roomy n (control d a x)
control-Roomy n d a x v = either (Roomy n) (d.marks a).channel (on v.has) v

pub ok_effect-Roomy :
    (n : ℕ) (w : World) (cmd a : ℕ) (d : Dongle) → Roomy n d → Roomy n (ok_effect w cmd a d)
unfolding ok_effect
ok_effect-Roomy n w cmd a d v = cases_all (Roomy n) _ _ (
  on v.has,
  (
    on v.has,
    (
      on v.has,
      (
        on (need_dialed.has),
        (
          on v.has,
          (
            on v.has,
            (
              on v.has,
              (on v.has, (on (pvt_try_restate-HasRoom n _ v.has), (on v.has, (on v.has, v)))),
            ),
          ),
        ),
      ),
    ),
  ),
)
  where
    need_dialed : Roomy n (dialed d a)
    need_dialed = either (Roomy n) (a == sys_chan d) (on v.has) (on (touch v.has))

pub at_response_ok-Roomy :
    (n : ℕ) (w : World) (d : Dongle) → Roomy n d → Roomy n (at_response_ok w d)
unfolding at_response_ok
at_response_ok-Roomy n w d v = elim (Option-cases (head d)) [
  | inl e ↦ rw (at_response_ok, e) v
  | inr ((t, c), e) ↦
      rw (at_response_ok, e)
        (either (Roomy n) (c.res == res_ok || c.res == res_cmgr)
          (on (touch (ok_effect-Roomy n w c.cmd t.cpvt d v).has)) v)
]

-- Of a pair with the device in front.
abbrev Roomy₀ : ℕ → Dongle × Bool → Type 0
Roomy₀ n r = Roomy n r.0

pub dial_failed-Roomy :
    (n : ℕ) (w : World) (a : ℕ) (d : Dongle) → Roomy n d → Roomy n (dial_failed w a d)
dial_failed-Roomy n w a d v = on (
    touch
      (control-Roomy n (with_sim d (λ s. record s { eerror = true })) a congestion (on v.has)).has)

pub no_sms_support-Roomy :
    (n : ℕ) (w : World) (a : ℕ) (d : Dongle) → Roomy n d → Roomy₀ n (no_sms_support w a d)
no_sms_support-Roomy n w a d v = either (Roomy₀ n) d.link.initialized (on v.has) (
    either (Roomy₀ n) d.link.has_voice
      (either (Roomy n) w.no_result (on (touch v.has)) (on (touch v.has))) (on v.has))

pub error_effect-Roomy :
    (n : ℕ) (w : World) (cmd a : ℕ) (d : Dongle) → Roomy n d → Roomy n (error_effect w cmd a d).0
unfolding error_effect
error_effect-Roomy n w cmd a d v = cases_all (Roomy₀ n) _ _ (
  v,
  (
    on (touch v.has),
    (
      on v.has,
      (
        on v.has,
        (
          on v.has,
          (
            no_sms_support-Roomy n w a d v,
            (
              on v.has,
              (
                control-Roomy n d a hangup v,
                (
                  either (Roomy n) ((d.marks a).hold_other && is_init d a)
                      (dial_failed-Roomy n w a d v) v,
                  (
                    dial_failed-Roomy n w a d v,
                    (
                      on (pvt_try_restate-HasRoom n _ v.has),
                      (on (pvt_try_restate-HasRoom n _ v.has), (on v.has, (on v.has, v))),
                    ),
                  ),
                ),
              ),
            ),
          ),
        ),
      ),
    ),
  ),
)

pub at_response_error-Roomy :
    (n : ℕ) (w : World) (res : ℕ) (d : Dongle) → Roomy n d → Roomy n (at_response_error w res d).1
unfolding at_response_error
at_response_error-Roomy n w res d v = elim (Option-cases (head d)) [
  | inl e ↦ rw (at_response_error, e) v
  | inr ((t, c), e) ↦
      rw (at_response_error, e)
        (either (λ (r : ℤ × Dongle). Roomy n r.1) _
          (on (touch (error_effect-Roomy n w c.cmd t.cpvt d v).has)) v)
]

pub at_response_sms_prompt-Roomy :
    (n : ℕ) (d : Dongle) → Roomy n d → Roomy n (at_response_sms_prompt d)
unfolding at_response_sms_prompt
at_response_sms_prompt-Roomy n d v = elim (Option-cases (head d)) [
  | inl e ↦ rw (at_response_sms_prompt, e) v
  | inr ((t, c), e) ↦
      rw (at_response_sms_prompt, e)
        (either (Roomy n) (c.res == res_sms_prompt) (on (touch v.has)) v)
]

-- What is done at a call, if there is one.
pub at_call :
    (n : ℕ) (o : Option ℕ) (f : ℕ → Dongle) (d : Dongle)
    → Roomy n d
    → ((a : ℕ) → Roomy n (f a))
    → Roomy n (elim o [ none ↦ d | some a ↦ f a ])
at_call n none f d v k = v
at_call n (some a) f d v k = k a

pub at_response_busy-Roomy :
    (n : ℕ) (t : Task) (x : Action) (d : Dongle) → Roomy n d → Roomy n (at_response_busy t x d)
unfolding at_response_busy
at_response_busy-Roomy n t x d v =
    at_call n (if t.cpvt == sys_chan d then d.device.last_dialed_cpvt else some t.cpvt)
      (λ a. control (need_hangup true d a) a x) d v
      (λ a. control-Roomy n (need_hangup true d a) a x (on v.has))
