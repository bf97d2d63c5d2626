-- ===== src/Response.antt =====
-- at_response.h and the table at the top of at_response.c: the responses of a device, their names, and
-- the texts that they begin with.
pub mod Names
use chan_svistok.Base.{
  ℕ, ◌+◌, List, [], ◌∷◌, ℤ, pos, negsuc, ascii, get_elem?, Option, none, some, leb, if◌then◌else◌,
}

-- `at_res_t`, but RES_PARSE_ERROR, which is -1.
abbrev pub res_unknown : ℕ
res_unknown = 0

abbrev pub res_boot : ℕ
res_boot = 1

abbrev pub res_busy : ℕ
res_busy = 2

abbrev pub res_cend : ℕ
res_cend = 3

abbrev pub res_cmgr : ℕ
res_cmgr = 4

abbrev pub res_cms_error : ℕ
res_cms_error = 5

abbrev pub res_cmti : ℕ
res_cmti = 6

abbrev pub res_cnum : ℕ
res_cnum = 7

abbrev pub res_conf : ℕ
res_conf = 8

abbrev pub res_conn : ℕ
res_conn = 9

abbrev pub res_cops : ℕ
res_cops = 10

abbrev pub res_spn : ℕ
res_spn = 11

abbrev pub res_sysinfo : ℕ
res_sysinfo = 12

abbrev pub res_cpin : ℕ
res_cpin = 13

abbrev pub res_creg : ℕ
res_creg = 14

abbrev pub res_csq : ℕ
res_csq = 15

abbrev pub res_cssi : ℕ
res_cssi = 16

abbrev pub res_cssu : ℕ
res_cssu = 17

abbrev pub res_cusd : ℕ
res_cusd = 18

abbrev pub res_error : ℕ
res_error = 19

abbrev pub res_mode : ℕ
res_mode = 20

abbrev pub res_no_carrier : ℕ
res_no_carrier = 21

abbrev pub res_no_dialtone : ℕ
res_no_dialtone = 22

abbrev pub res_ok : ℕ
res_ok = 23

abbrev pub res_orig : ℕ
res_orig = 24

abbrev pub res_ring : ℕ
res_ring = 25

abbrev pub res_rssi : ℕ
res_rssi = 26

abbrev pub res_dsflowrpt : ℕ
res_dsflowrpt = 27

abbrev pub res_smmemfull : ℕ
res_smmemfull = 28

abbrev pub res_sms_prompt : ℕ
res_sms_prompt = 29

abbrev pub res_srvst : ℕ
res_srvst = 30

abbrev pub res_simst : ℕ
res_simst = 31

abbrev pub res_cfun_v : ℕ
res_cfun_v = 32

abbrev pub res_iccid : ℕ
res_iccid = 33

abbrev pub res_sn : ℕ
res_sn = 34

abbrev pub res_cmgs : ℕ
res_cmgs = 35

abbrev pub res_cpms : ℕ
res_cpms = 36

abbrev pub res_csca : ℕ
res_csca = 37

abbrev pub res_clcc : ℕ
res_clcc = 38

abbrev pub res_ccwa : ℕ
res_ccwa = 39

abbrev pub res_cds : ℕ
res_cds = 40

-- RES_MIN and RES_MAX.
abbrev pub res_parse_error : ℤ
res_parse_error = negsuc 0

abbrev pub res_max : ℕ
res_max = res_ccwa

-- `at_response_t`.
pub record ResponseEntry : Type 0 where
  pub res : ℤ
  pub name : List ℕ
  pub id : List ℕ

abbrev entry : ℕ → List ℕ → List ℕ → ResponseEntry
entry res name id = record { res = pos res; name = name; id = id }

-- `at_responses_list`: the two entries that have a name and no text, and those that are searched.
abbrev pub unsearched : List ResponseEntry
unsearched =
    record { res = res_parse_error; name = ascii "PARSE ERROR"; id = [] }
    ∷ entry res_unknown (ascii "UNKNOWN") []
    ∷ []

abbrev pub searched : List ResponseEntry
searched =
    entry res_boot (ascii "^BOOT") (ascii "^BOOT:")
    ∷ entry res_busy (ascii "BUSY") (ascii "BUSY\r")
    ∷ entry res_cend (ascii "^CEND") (ascii "^CEND:")
    ∷ entry res_cmgr (ascii "+CMGR") (ascii "+CMGR:")
    ∷ entry res_cms_error (ascii "+CMS ERROR") (ascii "+CMS ERROR:")
    ∷ entry res_cmti (ascii "+CMTI") (ascii "+CMTI:")
    ∷ entry res_cnum (ascii "+CNUM") (ascii "+CNUM:")
    ∷ entry res_conf (ascii "^CONF") (ascii "^CONF:")
    ∷ entry res_conn (ascii "^CONN") (ascii "^CONN:")
    ∷ entry res_cops (ascii "+COPS") (ascii "+COPS:")
    ∷ entry res_spn (ascii "^SPN") (ascii "^SPN:")
    ∷ entry res_sysinfo (ascii "^SYSINFO") (ascii "^SYSINFO:")
    ∷ entry res_cpin (ascii "+CPIN") (ascii "+CPIN:")
    ∷ entry res_creg (ascii "+CREG") (ascii "+CREG:")
    ∷ entry res_csq (ascii "+CSQ") (ascii "+CSQ:")
    ∷ entry res_cssi (ascii "+CSSI") (ascii "+CSSI:")
    ∷ entry res_cssu (ascii "+CSSU") (ascii "+CSSU:")
    ∷ entry res_cusd (ascii "+CUSD") (ascii "+CUSD:")
    ∷ entry res_error (ascii "ERROR") (ascii "ERROR\r")
    ∷ entry res_mode (ascii "^MODE") (ascii "^MODE:")
    ∷ entry res_no_carrier (ascii "NO CARRIER") (ascii "NO CARRIER\r")
    ∷ entry res_no_dialtone (ascii "NO DIALTONE") (ascii "NO DIALTONE\r")
    ∷ entry res_ok (ascii "OK") (ascii "OK\r")
    ∷ entry res_orig (ascii "^ORIG") (ascii "^ORIG:")
    ∷ entry res_ring (ascii "RING") (ascii "RING\r")
    ∷ entry res_rssi (ascii "^RSSI") (ascii "^RSSI:")
    ∷ entry res_dsflowrpt (ascii "^DSFLOWRPT") (ascii "^DSFLOWRPT:")
    ∷ entry res_smmemfull (ascii "^SMMEMFULL") (ascii "^SMMEMFULL:")
    ∷ entry res_sms_prompt (ascii "> ") (ascii "> ")
    ∷ entry res_srvst (ascii "^SRVST") (ascii "^SRVST:")
    ∷ entry res_simst (ascii "^SIMST") (ascii "^SIMST:")
    ∷ entry res_cfun_v (ascii "+CFUN") (ascii "+CFUN:")
    ∷ entry res_iccid (ascii "^ICCID") (ascii "^ICCID:")
    ∷ entry res_sn (ascii "^SN") (ascii "^SN:")
    ∷ entry res_cmgs (ascii "+CMGS") (ascii "+CMGS:")
    ∷ entry res_cmgs (ascii "+CPMS") (ascii "+CPMS:")
    ∷ entry res_csca (ascii "+CSCA") (ascii "+CSCA:")
    ∷ entry res_clcc (ascii "+CLCC") (ascii "+CLCC:")
    ∷ entry res_ccwa (ascii "+CCWA") (ascii "+CCWA:")
    ∷ entry res_cds (ascii "+CDS") (ascii "+CDS:")
    ∷ entry res_cnum (ascii "+CNUM") (ascii "ERROR+CNUM:")
    ∷ entry res_error (ascii "ERROR") (ascii "COMMAND NOT SUPPORT\r")
    ∷ []
