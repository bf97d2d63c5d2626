-- ===== src/Handler/Tallied/Messages.antt =====
-- The counters of the calls under the handlers of Handler/Sms.
use chan_svistok.Base.{ℕ, List, false, not, ◌||◌, Option, none, some, ◌==◌, ℤ, pos, negsuc, ascii}
use chan_svistok.CharConv.{Coded, text, error}
use chan_svistok.Pdu.Deliver.{Message}
use chan_svistok.Queue.{Task, Cmd}
use chan_svistok.Command.{Enqued, cmd_user, at_enque_retrive_sms}
use chan_svistok.Response.{res_cmgr}
use chan_svistok.Parse.Values.{Cusd, at_parse_cmti, at_parse_cusd}
use chan_svistok.Parse.Sms.{Sms, sms, fails, at_parse_cmgr, at_parse_cds}
use chan_svistok.Dongle.{Dongle, queue, pvt_enabled, pvt_try_restate}
use chan_svistok.Handler.{World, put, sys_chan, head, answered, with_messages}
use chan_svistok.Handler.Sms.{
  retrieved, stored_at, at_response_cmti, with_text, with_number, recode_message, read_message,
  retrieval, at_response_cmgr, report, at_response_cds, show_ussd, at_response_cusd,
}
use chan_svistok.Handler.Tallied.{Roomy, on}
use chan_svistok.Handler.Tallied.Steps.{either, touch, pvt_try_restate-HasRoom}

-- Of a pair with the device behind.
abbrev pub Roomy₁ : ℕ → ℤ × Dongle → Type 0
Roomy₁ n r = Roomy n r.1

put-Roomy : (n : ℕ) (d : Dongle) (r : Enqued) → Roomy n d → Roomy n (put d r)
put-Roomy n d r v = on (touch v.has)

retrieved-Roomy :
    (n : ℕ) (e : ℤ) (r : Enqued) (d : Dongle) → Roomy n d → Roomy n (retrieved e r d).1
retrieved-Roomy n (negsuc e) r d v = put-Roomy n d r v
retrieved-Roomy n (pos e) r d v =
    either (Roomy₁ n) (e == 0) (on (put-Roomy n d r v).has) (put-Roomy n d r v)

stored_at-Roomy : (n : ℕ) (w : World) (i : ℤ) (d : Dongle) → Roomy n d → Roomy n (stored_at w i d).1
stored_at-Roomy n w (negsuc i) d v = v
stored_at-Roomy n w (pos i) d v =
    let r =
      at_enque_retrive_sms (w.env 0) (queue d) (sys_chan d) i w.autodeletesms (w.text_mem 0)
        (w.text_mem 1) in
    either (Roomy₁ n) (w.disablesms || not (pvt_enabled d)) v (retrieved-Roomy n r.result r d v)

pub at_response_cmti-Roomy :
    (n : ℕ) (w : World) (str : List ℕ) (d : Dongle)
    → Roomy n d
    → Roomy n (at_response_cmti w str d).1
unfolding at_response_cmti
at_response_cmti-Roomy n w str d v = stored_at-Roomy n w (at_parse_cmti str) d v

with_text-Roomy :
    (n : ℕ) (exten number : List ℕ) (c : Coded) (d : Dongle)
    → Roomy n d
    → Roomy n (with_text exten number c d)
with_text-Roomy n exten number (error e) d v = v
with_text-Roomy n exten number (text str) d v = on v.has

with_number-Roomy :
    (n : ℕ) (w : World) (exten : List ℕ) (m : Message) (c : Coded) (d : Dongle)
    → Roomy n d
    → Roomy n (with_number w exten m c d)
with_number-Roomy n w exten m (error e) d v = v
with_number-Roomy n w exten m (text number) d v = with_text-Roomy n exten number _ d v

recode_message-Roomy :
    (n : ℕ) (w : World) (exten : List ℕ) (m : Message) (d : Dongle)
    → Roomy n d
    → Roomy n (recode_message w exten m d)
unfolding recode_message
recode_message-Roomy n w exten m d v = with_number-Roomy n w exten m _ d v

read_message-Roomy :
    (n : ℕ) (w : World) (s : Sms Message) (d : Dongle) → Roomy n d → Roomy n (read_message w s d)
read_message-Roomy n w (fails e) d v = v
read_message-Roomy n w (sms m) d v = recode_message-Roomy n w (ascii "sms") m d v

retrieval-Roomy :
    (n : ℕ) (w : World) (str : List ℕ) (o : Option (Task × Cmd)) (d : Dongle)
    → Roomy n d
    → Roomy n (retrieval w str o d)
retrieval-Roomy n w str none d v = v
retrieval-Roomy n w str (some (t, c)) d v =
    either (Roomy n) (c.res == res_cmgr || c.cmd == cmd_user)
      (read_message-Roomy n w (at_parse_cmgr str 512)
        (pvt_try_restate
          (with_messages (answered res_cmgr d) (λ m. record m { incoming_sms = false })))
        (on (pvt_try_restate-HasRoom n _ (touch v.has))))
      v

pub at_response_cmgr-Roomy :
    (n : ℕ) (w : World) (str : List ℕ) (d : Dongle) → Roomy n d → Roomy n (at_response_cmgr w str d)
unfolding at_response_cmgr
at_response_cmgr-Roomy n w str d v = retrieval-Roomy n w str (head d) d v

report-Roomy :
    (n : ℕ) (w : World) (s : Sms (List ℕ)) (d : Dongle) → Roomy n d → Roomy n (report w s d)
report-Roomy n w (fails e) d v = v
report-Roomy n w (sms oa) d v = recode_message-Roomy n w (ascii "cds") _ d v

pub at_response_cds-Roomy :
    (n : ℕ) (w : World) (str : List ℕ) (d : Dongle) → Roomy n d → Roomy n (at_response_cds w str d)
unfolding at_response_cds
at_response_cds-Roomy n w str d v = report-Roomy n w (at_parse_cds str 512) d v

show_ussd-Roomy :
    (n : ℕ) (w : World) (o : Option Cusd) (d : Dongle) → Roomy n d → Roomy n (show_ussd w o d)
show_ussd-Roomy n w none d v = v
show_ussd-Roomy n w (some r) d v = on v.has

pub at_response_cusd-Roomy :
    (n : ℕ) (w : World) (str : List ℕ) (d : Dongle) → Roomy n d → Roomy n (at_response_cusd w str d)
unfolding at_response_cusd
at_response_cusd-Roomy n w str d v = show_ussd-Roomy n w (at_parse_cusd str) d v
