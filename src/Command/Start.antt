-- ===== src/Command/Start.antt =====
-- at_command.c: the commands that set a device up, and those that ask it for a value.
pub mod Finish
use chan_svistok.Base.{
  ℕ, ◌+◌, List, [], ◌∷◌, ◌++◌, Bool, true, false, ltb, ◌==◌, if◌then◌else◌, length, take, ascii, ℤ,
  pos, negsuc,
}
use chan_svistok.Queue.{Cmd, Pvt, Outcome, at_write}
use chan_svistok.Command.{
  Env, Enqued, cmd_at, static_cmd, st, flag_ignore, decimal, insert, at_enque_cmd_proc,
}

-- ATQ_CMD_DECLARE_STI.
abbrev sti : Env → ℕ → List ℕ → Cmd
sti env cmd chars = static_cmd env cmd chars flag_ignore 2

-- The lists `st_cmds1` and `st_cmds2`; the numbers are those of `at_cmd_t`.
abbrev pub modem_cmds : Env → List Cmd
modem_cmds env =
    st env cmd_at (ascii "AT\r")
    ∷ st env 38 (ascii "ATE0\r")
    ∷ st env 7 (ascii "AT+CGMI\r")
    ∷ st env 8 (ascii "AT+CGMM\r")
    ∷ st env 9 (ascii "AT+CGMR\r")
    ∷ st env 41 (ascii "AT+CMEE=0\r")
    ∷ st env 10 (ascii "AT+CGSN\r")
    ∷ st env 5 (ascii "AT+CFUN?\r")
    ∷ []

abbrev pub sim_mb_cmds : Env → List Cmd
sim_mb_cmds env =
    st env 12 (ascii "AT+CIMI\r")
    ∷ sti env 28 (ascii "AT+CREG=2\r")
    ∷ st env 27 (ascii "AT+CREG?\r")
    ∷ st env 31 (ascii "AT+CSSN=1,1\r")
    ∷ st env 16 (ascii "AT+CMGF=0\r\r")
    ∷ st env 20 (ascii "AT+CNMI=1,1,0,1,0\r")
    ∷ st env 30 (ascii "AT+CSQ\r")
    ∷ st env 51 (ascii "AT^SYSINFO\r")
    ∷ []

abbrev pub sim_e_cmds : Env → List Cmd
sim_e_cmds env =
    st env 48 (ascii "AT^SN\r")
    ∷ st env 49 (ascii "AT^ICCID?\r")
    ∷ st env 24 (ascii "AT^SPN=0\r")
    ∷ st env 12 (ascii "AT+CIMI\r")
    ∷ st env 50 (ascii "AT^FREQLOCK?\r")
    ∷ st env 23 (ascii "AT+COPS=0,0\r")
    ∷ sti env 28 (ascii "AT+CREG=2\r")
    ∷ st env 27 (ascii "AT+CREG?\r")
    ∷ st env 21 (ascii "AT+CNUM\r")
    ∷ st env 31 (ascii "AT+CSSN=1,1\r")
    ∷ st env 16 (ascii "AT+CMGF=0\r\r")
    ∷ sti env 29 (ascii "AT+CSCS=\"UCS2\"\r")
    ∷ st env 20 (ascii "AT+CNMI=1,1,0,1,0\r")
    ∷ st env 30 (ascii "AT+CSQ\r")
    ∷ st env 51 (ascii "AT^SYSINFO\r")
    ∷ []

unfoldable pub at_enque_initialization_modem : Env → Pvt → ℕ → Enqued
at_enque_initialization_modem env pvt cpvt = insert env pvt cpvt (modem_cmds env) false []

unfoldable pub at_enque_initialization_sim_e : Env → Pvt → ℕ → Enqued
at_enque_initialization_sim_e env pvt cpvt = insert env pvt cpvt (sim_e_cmds env) false []

unfoldable pub at_enque_initialization_sim_mb : Env → Pvt → ℕ → Enqued
at_enque_initialization_sim_mb env pvt cpvt = insert env pvt cpvt (sim_mb_cmds env) false []

-- `at_enque_initialization_sim`, given whether "MULTIBAND" stands in the model; the two functions below it and
-- this one give their caller no result.
unfoldable pub at_enque_initialization_sim : Env → Pvt → ℕ → Bool → Pvt
unfolding at_enque_initialization_sim_e at_enque_initialization_sim_mb
at_enque_initialization_sim env pvt cpvt false = (at_enque_initialization_sim_e env pvt cpvt).pvt
at_enque_initialization_sim env pvt cpvt true = (at_enque_initialization_sim_mb env pvt cpvt).pvt

unfoldable pub at_enque_initialization : Env → Pvt → ℕ → Pvt
unfolding at_enque_initialization_modem
at_enque_initialization env pvt cpvt = (at_enque_initialization_modem env pvt cpvt).pvt

-- The questions, each over `at_enque_cmd_proc`.
abbrev pub at_enque_cops : Env → Pvt → ℕ → ℕ → Enqued
at_enque_cops env pvt cpvt a = at_enque_cmd_proc env pvt cpvt (ascii "AT+COPS?") a

abbrev pub at_enque_spn : Env → Pvt → ℕ → ℕ → Enqued
at_enque_spn env pvt cpvt a = at_enque_cmd_proc env pvt cpvt (ascii "AT^SPN=0") a

abbrev pub at_enque_iccid : Env → Pvt → ℕ → ℕ → Enqued
at_enque_iccid env pvt cpvt a = at_enque_cmd_proc env pvt cpvt (ascii "AT^ICCID?") a

abbrev pub at_enque_sn : Env → Pvt → ℕ → ℕ → Enqued
at_enque_sn env pvt cpvt a = at_enque_cmd_proc env pvt cpvt (ascii "AT^SN") a

abbrev pub at_enque_cfun_v : Env → Pvt → ℕ → ℕ → Enqued
at_enque_cfun_v env pvt cpvt a = at_enque_cmd_proc env pvt cpvt (ascii "AT+CFUN?") a

abbrev pub at_enque_cpin_v : Env → Pvt → ℕ → ℕ → Enqued
at_enque_cpin_v env pvt cpvt a = at_enque_cmd_proc env pvt cpvt (ascii "AT+CPIN?") a

abbrev pub at_enque_cfun1 : Env → Pvt → ℕ → ℕ → Enqued
at_enque_cfun1 env pvt cpvt a = at_enque_cmd_proc env pvt cpvt (ascii "AT+CFUN=1,1;+CFUN?") a

abbrev pub at_enque_cfun5 : Env → Pvt → ℕ → ℕ → Enqued
at_enque_cfun5 env pvt cpvt a = at_enque_cmd_proc env pvt cpvt (ascii "AT+CFUN=5;+CFUN?") a

abbrev pub at_enque_cfun6 : Env → Pvt → ℕ → ℕ → Enqued
at_enque_cfun6 env pvt cpvt a = at_enque_cmd_proc env pvt cpvt (ascii "AT+CFUN=6;+CFUN?") a

-- `at_hangup_immediality`: written without the queue. The length is that of the whole text, of which the buffer
-- of 20 bytes has room for any `short`.
unfoldable pub at_hangup_immediality : Pvt → ℕ → List Outcome → Pvt
unfolding decimal at_write
at_hangup_immediality pvt call_idx os =
    (at_write pvt os (length (ascii "AT+CHLD=1" ++ (decimal call_idx ++ ascii "\r")))).1
