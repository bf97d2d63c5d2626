-- ===== src/Handler/Sms.antt =====
-- at_response.c: the handlers of the responses that carry a message: +CMTI, +CMGR, +CDS and +CUSD.
use chan_svistok.Base.{
  ℕ, List, [], ◌∷◌, ◌++◌, Bool, true, false, not, ◌&&◌, ◌||◌, Option, none, some, ◌==◌,
  if◌then◌else◌, ascii, ℤ, pos, negsuc,
}
use chan_svistok.CharConv.{
  Coded, text, error, StrEncoding, bit7_hex, ucs2_hex, bit7, unknown, decode, str_recode,
}
use chan_svistok.Pdu.Deliver.{Message}
use chan_svistok.Queue.{Task, Cmd}
use chan_svistok.Response.{res_cmgr}
use chan_svistok.Parse.{Cut, until_nul, string_at}
use chan_svistok.Parse.Values.{Cusd, at_parse_cmti, at_parse_cusd}
use chan_svistok.Parse.Sms.{Sms, sms, fails, at_parse_cmgr, at_parse_cds}
use chan_svistok.Command.{Enqued, cmd_user, at_enque_retrive_sms}
use chan_svistok.Dongle.{Dongle, queue, pvt_enabled, pvt_try_restate}
use chan_svistok.Handler.{World, put, sys_chan, head, answered, with_messages}

-- `incoming_sms` is set where the commands are queued.
abbrev pub retrieved : ℤ → Enqued → Dongle → ℤ × Dongle
retrieved (negsuc e) r d = (negsuc 0, put d r)
retrieved (pos e) r d =
    if e == 0
    then (pos 0, with_messages (put d r) (λ m. record m { incoming_sms = true }))
    else (negsuc 0, put d r)

abbrev pub stored_at : World → ℤ → Dongle → ℤ × Dongle
stored_at w (negsuc n) d = (negsuc 0, d)
stored_at w (pos index) d =
    if w.disablesms || not (pvt_enabled d)
    then (pos 0, d)
    else (let r =
          at_enque_retrive_sms (w.env 0) (queue d) (sys_chan d) index w.autodeletesms (w.text_mem 0)
            (w.text_mem 1) in
        retrieved r.result r d)

unfoldable pub at_response_cmti : World → List ℕ → Dongle → ℤ × Dongle
at_response_cmti w str d = stored_at w (at_parse_cmti str) d

-- The last chance to define an encoding.
unfoldable pub define_encoding : Dongle → StrEncoding → StrEncoding
define_encoding d unknown = if d.messages.use_ucs2_encoding then ucs2_hex else bit7
define_encoding d e = e

abbrev pub deliver : List ℕ → List ℕ → List ℕ → Dongle → Dongle
deliver exten number str d = record d {
  delivered = d.delivered ++ (record { exten = exten; number = number; text = str } ∷ []);
}

abbrev pub with_text : List ℕ → List ℕ → Coded → Dongle → Dongle
with_text exten number (error e) d = d
with_text exten number (text str) d = deliver exten number str d

abbrev pub with_number : World → List ℕ → Message → Coded → Dongle → Dongle
with_number w exten m (error e) d = d
with_number w exten m (text number) d =
    with_text exten number
      (str_recode w.iconv decode (define_encoding d m.msg_enc) (until_nul m.msg) 4096) d

-- The number and the text are decoded, and passed on if both can be.
unfoldable pub recode_message : World → List ℕ → Message → Dongle → Dongle
recode_message w exten m d =
    with_number w exten m
      (str_recode w.iconv decode (define_encoding d m.oa_enc) (until_nul m.oa) 1024) d

abbrev pub read_message : World → Sms Message → Dongle → Dongle
read_message w (fails e) d = d
read_message w (sms m) d = recode_message w (ascii "sms") m d

abbrev pub retrieval : World → List ℕ → Option (Task × Cmd) → Dongle → Dongle
retrieval w str none d = d
retrieval w str (some (t, c)) d =
    if c.res == res_cmgr || c.cmd == cmd_user
    then read_message w (at_parse_cmgr str 512) (
        pvt_try_restate
          (with_messages (answered res_cmgr d) (λ m. record m { incoming_sms = false })))
    else d

unfoldable pub at_response_cmgr : World → List ℕ → Dongle → Dongle
at_response_cmgr w str d = retrieval w str (head d) d

-- A status report has no text.
abbrev pub report : World → Sms (List ℕ) → Dongle → Dongle
report w (fails e) d = d
report w (sms oa) d =
    recode_message w (ascii "cds")
      (record { oa = oa; oa_enc = bit7; msg = []; msg_enc = w.cds_enc }) d

unfoldable pub at_response_cds : World → List ℕ → Dongle → Dongle
at_response_cds w str d = report w (at_parse_cds str 512) d

abbrev pub is_7bit : ℤ → Bool
is_7bit (pos dcs) = dcs == 0 || (dcs == 15 || dcs == 1)
is_7bit (negsuc n) = false

-- The text of a USSD; "" where there is none.
abbrev pub ussd_text : Option Cut → List ℕ
ussd_text none = []
ussd_text (some c) = string_at c.text c.start

abbrev pub decoded : List ℕ → Coded → List ℕ
decoded str (text t) = t
decoded str (error e) = str

abbrev pub ussd_encoding : Dongle → ℤ → StrEncoding
ussd_encoding d dcs =
    if is_7bit dcs && not d.messages.cusd_use_ucs2_decoding then bit7_hex else ucs2_hex

-- A text that cannot be decoded is passed on as it is. What it is of is in other variables, which are left out.
abbrev pub show_ussd : World → Option Cusd → Dongle → Dongle
show_ussd w none d = d
show_ussd w (some r) d =
    deliver (ascii "ussd") (ascii "ussd")
      (decoded (ussd_text r.cusd)
        (str_recode w.iconv decode (ussd_encoding d r.dcs) (ussd_text r.cusd) 1024))
      d

unfoldable pub at_response_cusd : World → List ℕ → Dongle → Dongle
at_response_cusd w str d = show_ussd w (at_parse_cusd str) d
