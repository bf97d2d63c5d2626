-- ===== src/Handler/Tallied/Whole.antt =====
-- The counters of the calls under `at_response`.
use chan_svistok.Base.{cases_all, ℕ, ◌+◌, ◌^◌, ◌<◌, ◌≡◌, subst, List, Option, none, some, length, ℤ}
use mathlib.Core.Option.{none-ne-some, some-injective}
use chan_svistok.Queue.{Task, at_queue_head_task}
use chan_svistok.Calls.Inv.{IsTallied}
use chan_svistok.Calls.State.{Action, busy, congestion}
use chan_svistok.Dongle.{Dongle, queue}
use chan_svistok.Handler.{World, head, at_response_busy}
use chan_svistok.Handler.Dispatch.{busy_task, calls_and_messages, at_response}
use chan_svistok.Handler.Tallied.{
  Roomy, on, at_response_ok-Roomy, at_response_error-Roomy, at_response_sms_prompt-Roomy,
  at_response_busy-Roomy,
}
use chan_svistok.Handler.Tallied.Calling.{
  at_response_orig-Roomy, at_response_cend-Roomy, at_response_conn-Roomy,
}
use chan_svistok.Handler.Tallied.All.{
  at_response_clcc-Roomy, at_response_ccwa-Roomy, at_response_ring-Roomy, all_left,
}
use chan_svistok.Handler.Tallied.Messages.{
  Roomy₁, at_response_cmti-Roomy, at_response_cmgr-Roomy, at_response_cds-Roomy,
  at_response_cusd-Roomy,
}
use chan_svistok.Handler.Tallied.Network.{data_of-Roomy, network-Roomy}

calls_and_messages-Roomy :
    (w : ℕ → World) (res : ℕ) (str : List ℕ) (d : Dongle)
    → Roomy (length str + 1) d
    → Roomy 0 d
    → Roomy 0 (calls_and_messages w res str d).1
calls_and_messages-Roomy w res str d u v = cases_all (Roomy₁ 0) _ _ (
  at_response_orig-Roomy 0 (w 0) str d v,
  (
    at_response_cend-Roomy 0 (w 0) str d v,
    (
      at_response_conn-Roomy 0 (w 0) str d v,
      (
        at_response_clcc-Roomy w str d u,
        (
          at_response_ccwa-Roomy 0 (w 0) str d v,
          (
            at_response_ring-Roomy 0 (w 0) d v,
            (
              at_response_cmti-Roomy 0 (w 0) str d v,
              (
                at_response_cmgr-Roomy 0 (w 0) str d v,
                (
                  at_response_cds-Roomy 0 (w 0) str d v,
                  (at_response_cusd-Roomy 0 (w 0) str d v, network-Roomy 0 (w 0) res str d v),
                ),
              ),
            ),
          ),
        ),
      ),
    ),
  ),
)

-- Of a result, if there is one.
abbrev Kept : Option (ℤ × Dongle) → Type 0
Kept o = (r : ℤ × Dongle) → o ≡ some r → Roomy 0 r.1

kept : (x : ℤ × Dongle) → Roomy 0 x.1 → Kept (some x)
kept x v r e = subst (Roomy₁ 0) (some-injective x r e) v

busy_task-Kept :
    (o : Option Task) (x : Action) (d : Dongle)
    → Roomy 0 d
    → Kept (busy_task o (λ t e. at_response_busy t x e) d)
busy_task-Kept none x d v r e = absurd (none-ne-some r e)
busy_task-Kept (some t) x d v r e = kept _ (at_response_busy-Roomy 0 t x d v) r e

-- The counters of the calls agree with the list of the calls after `at_response`, whatever the response is and
-- whatever Asterisk, the settings and the allocations answer, where they did before and the calls and the bytes of the
-- text together are fewer than 2^32, since +CLCC may add a call for each entry; BUSY and the like need a task.
pub at_response-IsTallied :
    (w : ℕ → World) (res : ℕ) (str : List ℕ) (d : Dongle) (r : ℤ × Dongle)
    → IsTallied d.device
    → length d.device.chans + (length str + 1) < 2 ^ 32
    → at_response w res str d ≡ some r
    → IsTallied r.1.device
unfolding at_response
at_response-IsTallied w res str d r t few h =
    (cases_all Kept _ _
      (
        kept _ (at_response_ok-Roomy 0 (w 0) d v),
        (
          kept _ (at_response_error-Roomy 0 (w 0) res d v),
          (
            kept _ (at_response_sms_prompt-Roomy 0 d v),
            (
              busy_task-Kept (at_queue_head_task (queue d)) busy d v,
              (
                busy_task-Kept (at_queue_head_task (queue d)) congestion d v,
                (
                  kept _ (data_of-Roomy 0 (w 0) str (head d) d v),
                  kept _ (calls_and_messages-Roomy w res str d u v),
                ),
              ),
            ),
          ),
        ),
      )
      r h).has.tallied
  where
    u : Roomy (length str + 1) d
    u = on (record { tallied = t; left = few })

    v : Roomy 0 d
    v = all_left (length str + 1) d u
