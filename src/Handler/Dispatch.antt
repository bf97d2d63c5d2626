-- ===== src/Handler/Dispatch.antt =====
-- at_response.c: `at_response`, which gives a response to its handler.
use chan_svistok.Base.{cases, ℕ, List, [], ◌∷◌, ◌||◌, Option, none, some, ◌==◌, ℤ, pos}
use chan_svistok.Queue.{Task, Cmd, at_queue_head_task}
use chan_svistok.Calls.State.{busy, congestion}
use chan_svistok.Response
use chan_svistok.Dongle.{Dongle, queue}
use chan_svistok.Handler.{
  World, head, at_response_ok, at_response_error, at_response_sms_prompt, at_response_busy,
}
use chan_svistok.Handler.Calling.{at_response_orig, at_response_cend, at_response_conn}
use chan_svistok.Handler.Listing.{at_response_clcc, at_response_ccwa, at_response_ring}
use chan_svistok.Handler.Sms.{at_response_cmti, at_response_cmgr, at_response_cds, at_response_cusd}
use chan_svistok.Handler.Card.{
  at_response_rssi, at_response_mode, at_response_sysinfo, at_response_csq, at_response_cnum,
  at_response_cops, at_response_spn, at_response_csca, at_response_creg, at_response_cgmm,
  at_response_cvoice, at_response_cardlock, at_response_freqlock, at_response_cgmi,
  at_response_cgmr, at_response_cgsn, at_response_cimi, at_response_sn, at_response_iccid,
  at_response_cfun_v, at_response_cpin,
}

abbrev pub goes_on : Dongle → ℤ × Dongle
goes_on d = (pos 0, d)

-- A line that is no response: it is the answer to the command at the head, by its number.
unfoldable pub data_line : World → ℕ → List ℕ → Dongle → ℤ × Dongle
data_line w cmd str d =
    cases
      ((cmd == 33, at_response_cvoice str d)
        ∷ (cmd == 34, at_response_cardlock str d)
        ∷ (cmd == 7, goes_on (at_response_cgmi str d))
        ∷ (cmd == 8, goes_on (at_response_cgmm str d))
        ∷ (cmd == 9, goes_on (at_response_cgmr str d))
        ∷ (cmd == 10, goes_on (at_response_cgsn str d))
        ∷ (cmd == 48, goes_on (at_response_sn str d))
        ∷ (cmd == 49, at_response_iccid str d)
        ∷ (cmd == 5, goes_on (at_response_cfun_v w str d))
        ∷ (cmd == 50, goes_on (at_response_freqlock str d))
        ∷ (cmd == 12, goes_on (at_response_cimi str d))
        ∷ [])
      (goes_on d)

-- `at_response_busy` of a queue that may be empty: the source reads the call of a NULL task there.
abbrev pub busy_task : Option Task → (Task → Dongle → Dongle) → Dongle → Option (ℤ × Dongle)
busy_task none f d = none
busy_task (some t) f d = some (goes_on (f t d))

-- The responses of which nothing is done: RES_BOOT, RES_CSSI, RES_CSSU, RES_CMGS, RES_CPMS, RES_CONF, RES_DSFLOWRPT,
-- RES_SMMEMFULL, RES_SRVST and RES_SIMST, but for statistics.
abbrev pub data_of : World → List ℕ → Option (Task × Cmd) → Dongle → ℤ × Dongle
data_of w str none d = goes_on d
data_of w str (some (t, c)) d = data_line w c.cmd str d

abbrev pub network : World → ℕ → List ℕ → Dongle → ℤ × Dongle
network w res str d =
    cases
      ((res == Response.res_sysinfo, goes_on (at_response_sysinfo w str d))
        ∷ (res == Response.res_cfun_v, goes_on (at_response_cfun_v w str d))
        ∷ (res == Response.res_iccid, goes_on (at_response_iccid str d).1)
        ∷ (res == Response.res_sn, goes_on (at_response_sn str d))
        ∷ (res == Response.res_rssi, goes_on (at_response_rssi str d))
        ∷ (res == Response.res_mode, goes_on (at_response_mode str d))
        ∷ (res == Response.res_creg, goes_on (at_response_creg w str d))
        ∷ (res == Response.res_cops, goes_on (at_response_cops str d))
        ∷ (res == Response.res_spn, goes_on (at_response_spn str d))
        ∷ (res == Response.res_csq, goes_on (at_response_csq str d))
        ∷ (res == Response.res_cpin, goes_on (at_response_cpin w str d))
        ∷ (res == Response.res_cnum, goes_on (at_response_cnum str d))
        ∷ (res == Response.res_csca, goes_on (at_response_csca str d))
        ∷ [])
      (goes_on d)

abbrev pub calls_and_messages : (ℕ → World) → ℕ → List ℕ → Dongle → ℤ × Dongle
calls_and_messages w res str d =
    cases
      ((res == Response.res_orig, at_response_orig (w 0) str d)
        ∷ (res == Response.res_cend, goes_on (at_response_cend (w 0) str d))
        ∷ (res == Response.res_conn, at_response_conn (w 0) str d)
        ∷ (res == Response.res_clcc, goes_on (at_response_clcc w str d))
        ∷ (res == Response.res_ccwa, goes_on (at_response_ccwa (w 0) str d))
        ∷ (res == Response.res_ring, goes_on (at_response_ring (w 0) d))
        ∷ (res == Response.res_cmti, at_response_cmti (w 0) str d)
        ∷ (res == Response.res_cmgr, goes_on (at_response_cmgr (w 0) str d))
        ∷ (res == Response.res_cds, goes_on (at_response_cds (w 0) str d))
        ∷ (res == Response.res_cusd, goes_on (at_response_cusd (w 0) str d))
        ∷ [])
      (network (w 0) res str d)

-- `at_response` of a response that is not empty, by its number; the two io vectors are put together. RES_PARSE_ERROR
-- is -1, and not among them. `none` is where a NULL pointer is read.
unfoldable pub at_response : (ℕ → World) → ℕ → List ℕ → Dongle → Option (ℤ × Dongle)
at_response w res str d =
    cases
      ((res == Response.res_ok, some (goes_on (at_response_ok (w 0) d)))
        ∷ (
          res == Response.res_error || res == Response.res_cms_error,
          some (at_response_error (w 0) res d),
        )
        ∷ (res == Response.res_sms_prompt, some (goes_on (at_response_sms_prompt d)))
        ∷ (
          res == Response.res_busy,
          busy_task (at_queue_head_task (queue d)) (λ t e. at_response_busy t busy e) d,
        )
        ∷ (
          res == Response.res_no_dialtone || res == Response.res_no_carrier,
          busy_task (at_queue_head_task (queue d)) (λ t e. at_response_busy t congestion e) d,
        )
        ∷ (res == Response.res_unknown, some (data_of (w 0) str (head d) d))
        ∷ [])
      (some (calls_and_messages w res str d))
