-- ===== src/Handler.antt =====
-- at_response.c: the handlers of the responses, on the state of Dongle; this file has those that answer a command.
-- What Asterisk, the allocations, the device and the settings answer is in `World`; the log, the files, the events of
-- the manager and `timeout` are left out.
pub mod Calling
pub mod Listing
pub mod Sms
pub mod Card
pub mod Dispatch
pub mod Tallied
pub mod Clcc
mod Tests
use chan_svistok.Base.{
  cases, ℕ, ◌+◌, ◌%◌, List, [], ◌∷◌, ◌++◌, Bool, true, false, not, ◌&&◌, ◌||◌, Option, none, some,
  ◌==◌, if◌then◌else◌, get_elem?, ℤ, pos, negsuc,
}
use chan_svistok.Queue.{Cmd, Task, at_queue_head_task, at_queue_handle_result}
use chan_svistok.Calls.{Answers, find_chan}
use chan_svistok.Calls.State.{Action, congestion, hangup, init_state}
use chan_svistok.CharConv.{Iconv, StrEncoding}
use chan_svistok.Response.{res_ok, res_cmgr, res_sms_prompt}
use chan_svistok.Command.{
  Env, Enqued, cmd_at, cmd_a, cmd_cfun, cmd_chup, cmd_clcc, cmd_clvl, cmd_cmgd, cmd_cmgr, cmd_cmgs,
  cmd_smstext, cmd_cusd, cmd_d, cmd_ddsetex, cmd_chld_2x, cmd_chld_2, cmd_chld_3,
}
use chan_svistok.Command.Start.{at_enque_cfun1, at_enque_initialization}
use chan_svistok.Dongle.{Dongle, Link, Messages, Sim, queue, with_queue, mark, pvt_try_restate}

-- The `n`th function of at_command.c that a handler calls has `env n`, and `mem n` for its text. `fas` is
-- `pvt->fas == 1`, `group_295` that the group of the settings is 295, `multiband` whether the model is a
-- MULTIBAND, `cds_enc` is what `msg_enc` of at_response_cds holds, which nothing sets, and `no_result` what is
-- found where at_enque_initialization, which has no `return`, leaves a result.
pub record World : Type 0 where
  pub env : ℕ → Env
  pub mem : ℕ → ℕ
  pub text_mem : ℕ → Option ℕ
  pub smsaspdu : Bool
  pub disablesms : Bool
  pub autodeletesms : Bool
  pub fas : Bool
  pub group_295 : Bool
  pub multiband : Bool
  pub nosim2offline : Bool
  pub no_result : Bool
  pub pipe : ℤ
  pub ends : Answers × Answers
  pub call_mem : Option ℕ
  pub channel : Bool
  pub pbx : Bool
  pub iconv : Iconv
  pub cds_enc : StrEncoding
  pub einval : List ℕ → Bool

-- The device after a function of at_command.c.
abbrev pub put : Dongle → Enqued → Dongle
put d r = record (with_queue d r.pvt) { made = d.made ++ r.made }

abbrev pub sys_chan : Dongle → ℕ
sys_chan d = d.device.sys_chan

abbrev pub with_messages : Dongle → (Messages → Messages) → Dongle
with_messages d f = record d { messages = f d.messages }

abbrev pub with_link : Dongle → (Link → Link) → Dongle
with_link d f = record d { link = f d.link }

abbrev pub with_sim : Dongle → (Sim → Sim) → Dongle
with_sim d f = record d { sim = f d.sim }

abbrev pub initialize : Dongle → Dongle
initialize d = with_link d (λ l. record l { initialized = true })

-- `queue_control_channel` and `queue_hangup`: asked for where the call has a channel.
abbrev pub control : Dongle → ℕ → Action → Dongle
control d a x = if (d.marks a).channel then record d { asked = d.asked ++ ((a, x) ∷ []) } else d

-- The head command is answered.
abbrev pub answered : ℕ → Dongle → Dongle
answered res d = with_queue d (at_queue_handle_result (queue d) res)

-- `at_queue_head_task` and its command.
unfoldable pub head : Dongle → Option (Task × Cmd)
head d = elim (at_queue_head_task (queue d)) [
  | none ↦ none
  | some t ↦ elim (get_elem? t.cmds t.cindex) [ none ↦ none | some c ↦ some (t, c) ]
]

abbrev pub need_hangup : Bool → Dongle → ℕ → Dongle
need_hangup b d a = mark d a (λ m. record m { need_hangup = b })

-- `volume_sync_step` has two bits.
abbrev pub next_volume : Dongle → Dongle
next_volume d =
    let step = (d.link.volume_sync_step + 1) % 4 in
    with_link d (λ l. record l { volume_sync_step = if step == 3 then 0 else step })

abbrev pub dialed : Dongle → ℕ → Dongle
dialed d a =
    let d₁ = record d { bits = record d.bits { dialing = true } } in
    if a == sys_chan d
    then d₁
    else record d₁ { device = record d₁.device { last_dialed_cpvt = some a } }

-- The `switch` of `at_response_ok`, of the commands that it changes something for; the numbers are those of
-- `at_cmd_t`: 16 is CMD_AT_CMGF, 29 CMD_AT_CSCS, 20 CMD_AT_CNMI, and 43 CMD_AT_CHLD_1x.
unfoldable pub ok_effect : World → ℕ → ℕ → Dongle → Dongle
ok_effect w cmd a d =
    cases
      ((cmd == 16, with_messages d (λ m. record m { use_pdu = w.smsaspdu }))
        ∷ (cmd == 29, with_messages d (λ m. record m { use_ucs2_encoding = true }))
        ∷ (cmd == 20, initialize (with_messages d (λ m. record m { has_sms = true })))
        ∷ (cmd == cmd_d, need_hangup true (dialed d a) a)
        ∷ (cmd == cmd_a || cmd == cmd_chld_2x, need_hangup true d a)
        ∷ (
          cmd == cmd_cfun,
          record d { bits = record { dialing = false; ring = false; cwaiting = false } },
        )
        ∷ (cmd == cmd_ddsetex, initialize d)
        ∷ (cmd == cmd_chup || cmd == 43, need_hangup false d a)
        ∷ (
          cmd == cmd_smstext,
          pvt_try_restate (with_messages d (λ m. record m { outgoing_sms = false })),
        )
        ∷ (cmd == cmd_cusd, with_messages d (λ m. record m { outgoing_ussd = false }))
        ∷ (cmd == cmd_clvl, next_volume d)
        ∷ [])
      d

unfoldable pub at_response_ok : World → Dongle → Dongle
at_response_ok w d = elim (head d) [
  | none ↦ d
  | some (t, c) ↦
      if c.res == res_ok || c.res == res_cmgr
      then answered res_ok (ok_effect w c.cmd t.cpvt d)
      else d
]

-- A failed dial. `at_enque_cfun1` is called for the call.
abbrev pub dial_failed : World → ℕ → Dongle → Dongle
dial_failed w a d =
    let d₁ = control (with_sim d (λ s. record s { eerror = true })) a congestion in
    put d₁ (at_enque_cfun1 (w.env 0) (queue d₁) a (w.mem 0))

-- Whether the call is on the list in the state CALL_STATE_INIT; `sys_chan` is not.
abbrev pub is_init : Dongle → ℕ → Bool
is_init d a = elim (find_chan a d.device.chans) [ none ↦ false | some c ↦ c.state == init_state ]

abbrev pub no_sms_support : World → ℕ → Dongle → Dongle × Bool
no_sms_support w a d =
    let d₁ = with_messages d (λ m. record m { has_sms = false }) in
    if d.link.initialized
    then (d₁, false)
    else if d.link.has_voice
    then (
      let d₂ = with_queue d₁ (at_enque_initialization (w.env 0) (queue d₁) a) in
          (if w.no_result then d₂ else initialize d₂),
      true,
    )
    else (d₁, true)

-- The commands whose failure ends the connection: CMD_AT, _Z, _E, _CLCC, _CGMI, _CGMM, _CGMR, _CMEE, _SN, _CREG_INIT,
-- _CNUM and _CSSN.
abbrev pub critical : List ℕ
critical =
    cmd_at ∷ (40 ∷ (38 ∷ (cmd_clcc ∷ (7 ∷ (8 ∷ (9 ∷ (41 ∷ (48 ∷ (28 ∷ (21 ∷ (31 ∷ [])))))))))))

abbrev pub among : ℕ → List ℕ → Bool
among x [] = false
among x (y ∷ ys) = x == y || among x ys

-- The `switch` of `at_response_error`: the device, and whether it goes to `e_return`. 49 is CMD_AT_ICCID, 34
-- CMD_AT_CARDLOCK, 33 CMD_AT_CVOICE, and 10 CMD_AT_CGSN.
unfoldable pub error_effect : World → ℕ → ℕ → Dongle → Dongle × Bool
error_effect w cmd a d =
    cases
      ((among cmd critical, (d, true))
        ∷ (cmd == 10, (put d (at_enque_cfun1 (w.env 0) (queue d) (sys_chan d) (w.mem 0)), false))
        ∷ (cmd == 49, (with_sim d (λ s. record s { nosim = true }), true))
        ∷ (cmd == 34, (with_sim d (λ s. record s { cardlock = true }), true))
        ∷ (cmd == 33, (with_link d (λ l. record l { novoice = true; has_voice = false }), true))
        ∷ (cmd == 20, no_sms_support w a d)
        ∷ (cmd == 29, (with_messages d (λ m. record m { use_ucs2_encoding = false }), false))
        ∷ (cmd == cmd_a || (cmd == cmd_chld_2x || cmd == cmd_chld_3), (control d a hangup, false))
        ∷ (
          cmd == cmd_chld_2,
          ((if (d.marks a).hold_other && is_init d a then dial_failed w a d else d), false),
        )
        ∷ (cmd == cmd_d, (dial_failed w a d, false))
        ∷ (
          cmd == cmd_cmgr || cmd == cmd_cmgd,
          (pvt_try_restate (with_messages d (λ m. record m { incoming_sms = false })), false),
        )
        ∷ (
          cmd == cmd_cmgs || cmd == cmd_smstext,
          (pvt_try_restate (with_messages d (λ m. record m { outgoing_sms = false })), false),
        )
        ∷ (cmd == cmd_clvl, (with_link d (λ l. record l { volume_sync_step = 0 }), false))
        ∷ (cmd == cmd_cusd, (with_messages d (λ m. record m { outgoing_ussd = false }), false))
        ∷ [])
      ((d, false))

abbrev pub of_fatal : Bool → ℤ
of_fatal true = negsuc 0
of_fatal false = pos 0

-- `at_response_error`, with the response, RES_ERROR or RES_CMS_ERROR.
unfoldable pub at_response_error : World → ℕ → Dongle → ℤ × Dongle
at_response_error w res d = elim (head d) [
  | none ↦ (pos 0, d)
  | some (t, c) ↦
      if c.res == res_ok || (c.res == res_cmgr || c.res == res_sms_prompt)
      then (let r = error_effect w c.cmd t.cpvt d in (of_fatal r.1, answered res r.0))
      else (pos 0, d)
]

unfoldable pub at_response_sms_prompt : Dongle → Dongle
at_response_sms_prompt d = elim (head d) [
  | none ↦ d
  | some (t, c) ↦ if c.res == res_sms_prompt then answered res_sms_prompt d else d
]

-- `at_response_busy` of the head task, which is there.
unfoldable pub at_response_busy : Task → Action → Dongle → Dongle
at_response_busy t x d =
    elim (if t.cpvt == sys_chan d then d.device.last_dialed_cpvt else some t.cpvt) [
      | none ↦ d
      | some a ↦ control (need_hangup true d a) a x
    ]
