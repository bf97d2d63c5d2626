-- ===== src/Command.antt =====
-- at_command.c: the functions that put AT commands into the queue of a device. What `ast_strdup` and
-- `ast_malloc` answer for each command are arguments, none where they fail; `put_text` keeps what was
-- written to the allocations.
pub mod Dial
pub mod Memory
pub mod Text
pub mod Start
mod Tests
use chan_svistok.Base.{
  ℕ, zero, suc, ◌+◌, ◌-◌, ◌*◌, ◌/◌, ◌%◌, List, [], ◌∷◌, ◌++◌, Bool, true, false, not, ◌&&◌, ◌||◌,
  Option, none, some, ltb, leb, ◌==◌, if◌then◌else◌, length, take, drop, ascii, ℤ, pos, negsuc,
}
use chan_svistok.Queue.{
  Cmd, Pvt, Outcome, at_queue_insert_const, at_queue_insert_task, at_queue_insert,
}
use chan_svistok.Response.{res_ok, res_cmgr, res_sms_prompt}
use chan_svistok.Pdu.{pdu_parse_sca}

-- `at_cmd_t`, the ones used here.
abbrev pub cmd_user : ℕ
cmd_user = 0

abbrev pub cmd_at : ℕ
cmd_at = 1

abbrev pub cmd_a : ℕ
cmd_a = 2

abbrev pub cmd_ccwa_status : ℕ
cmd_ccwa_status = 3

abbrev pub cmd_ccwa_set : ℕ
cmd_ccwa_set = 4

abbrev pub cmd_cfun : ℕ
cmd_cfun = 6

abbrev pub cmd_chup : ℕ
cmd_chup = 11

abbrev pub cmd_clir : ℕ
cmd_clir = 13

abbrev pub cmd_clvl : ℕ
cmd_clvl = 14

abbrev pub cmd_cmgd : ℕ
cmd_cmgd = 15

abbrev pub cmd_cmgr : ℕ
cmd_cmgr = 17

abbrev pub cmd_cmgs : ℕ
cmd_cmgs = 18

abbrev pub cmd_smstext : ℕ
cmd_smstext = 19

abbrev pub cmd_cusd : ℕ
cmd_cusd = 32

abbrev pub cmd_d : ℕ
cmd_d = 35

abbrev pub cmd_ddsetex : ℕ
cmd_ddsetex = 36

abbrev pub cmd_dtmf : ℕ
cmd_dtmf = 37

abbrev pub cmd_chld_2x : ℕ
cmd_chld_2x = 44

abbrev pub cmd_chld_2 : ℕ
cmd_chld_2 = 45

abbrev pub cmd_chld_3 : ℕ
cmd_chld_3 = 46

abbrev pub cmd_clcc : ℕ
cmd_clcc = 47

-- `call_state_t`, the ones used here.
abbrev pub state_active : ℕ
state_active = 0

abbrev pub state_onhold : ℕ
state_onhold = 1

abbrev pub state_incoming : ℕ
state_incoming = 4

abbrev pub state_waiting : ℕ
state_waiting = 5

abbrev pub seconds : ℕ → ℕ
seconds s = s * 1000000

-- Where the literals lie, what the allocation of the task answers, what the device does, and the time.
pub record Env : Type 0 where
  pub literal_at : List ℕ → ℕ
  pub room : Option ℕ
  pub device : List Outcome
  pub now : ℕ

-- A result, the device, and the new allocations, with the text that was put there, none for a task.
pub record Enqued : Type 0 where
  pub result : ℤ
  pub pvt : Pvt
  pub made : List (ℕ × List ℕ)

-- ATQ_CMD_DECLARE_STFT and ATQ_CMD_DECLARE_DYNFT.
abbrev pub static_cmd : Env → ℕ → List ℕ → ℕ → ℕ → Cmd
static_cmd env cmd chars flags s = record {
  cmd = cmd;
  res = res_ok;
  flags = flags + 1;
  timeout = seconds s;
  text = some (env.literal_at chars);
  len = length chars;
}

abbrev pub st : Env → ℕ → List ℕ → Cmd
st env cmd chars = static_cmd env cmd chars 0 2

abbrev pub flag_ignore : ℕ
flag_ignore = 2

-- A command that is filled with a text in a new allocation: `at_fill_generic_cmd_va`, whose `vsnprintf` writes at
-- most 4094 bytes and a NUL, and returns how many there would be.
abbrev pub dyn : ℕ → ℕ → ℕ → ℕ → ℕ → List ℕ → Cmd
dyn cmd res flags s a text = record {
  cmd = cmd;
  res = res;
  flags = flags;
  timeout = seconds s;
  text = some a;
  len = length text;
}

abbrev pub put_text : ℕ → List ℕ → ℕ × List ℕ
put_text a text = (a, take 4094 text)

-- The digits of a number, as many as the fuel has room for.
decimal_from : ℕ → ℕ → List ℕ → List ℕ
decimal_from zero n ds = ds
decimal_from (suc fuel) n ds =
    let d = 48 + n % 10 in
    elim (ltb n 10) [ true ↦ d ∷ ds | false ↦ decimal_from fuel (n / 10) (d ∷ ds) ]

-- "%d" of an `int` of 32 bits, with its sign.
unfoldable pub decimal : ℕ → List ℕ
unfolding decimal_from
decimal n =
    if ltb n 2147483648 then decimal_from 20 n [] else b'-' ∷ decimal_from 20 (4294967296 - n) []

abbrev pub of_fail : Bool → ℤ
of_fail true = negsuc 0
of_fail false = pos 0

-- The allocation of a task; the lists of commands below are not empty, so one is always asked for.
abbrev pub task_of : Option ℕ → List (ℕ × List ℕ)
task_of none = []
task_of (some a) = (a, []) ∷ []

abbrev pub insert : Env → Pvt → ℕ → List Cmd → Bool → List (ℕ × List ℕ) → Enqued
insert env pvt cpvt cmds prio made =
    let (fail, pvt') =
      at_queue_insert pvt cpvt cmds (length cmds) prio env.room env.device env.now in
    record { result = of_fail fail; pvt = pvt'; made = made ++ task_of env.room }

abbrev pub insert_const : Env → Pvt → ℕ → List Cmd → Bool → List (ℕ × List ℕ) → Enqued
insert_const env pvt cpvt cmds prio made =
    let (fail, pvt') =
      at_queue_insert_const pvt cpvt cmds (length cmds) prio env.room env.device env.now in
    record { result = of_fail fail; pvt = pvt'; made = made ++ task_of env.room }

abbrev pub refused : ℤ → Pvt → Enqued
refused e pvt = record { result = e; pvt = pvt; made = [] }

unfoldable pub at_enque_generic : Env → Pvt → ℕ → ℕ → Bool → List ℕ → Option ℕ → Enqued
at_enque_generic env pvt cpvt cmd prio text none = refused (negsuc 0) pvt
at_enque_generic env pvt cpvt cmd prio text (some a) =
    insert env pvt cpvt (dyn cmd res_ok 0 2 a text ∷ []) prio (put_text a text ∷ [])

unfoldable pub at_enque_user_cmd : Env → Pvt → ℕ → List ℕ → Option ℕ → Enqued
unfolding at_enque_generic
at_enque_user_cmd env pvt cpvt input mem =
    at_enque_generic env pvt cpvt cmd_user true (input ++ ascii "\r") mem

-- `at_enque_cmd_proc`, where `ast_malloc` does not fail; the text is put in by memcpy.
unfoldable pub at_enque_cmd_proc : Env → Pvt → ℕ → List ℕ → ℕ → Enqued
at_enque_cmd_proc env pvt cpvt cmd a =
    insert_const env pvt cpvt (dyn cmd_user res_ok 0 2 a (cmd ++ ascii "\r") ∷ []) false
      ((a, cmd ++ ascii "\r") ∷ [])

-- The bytes that the tones of the code are, but the letters.
abbrev pub is_tone : ℕ → Bool
is_tone c = (leb b'0' c && leb c b'9') || (c == b'*' || c == b'#')

abbrev pub is_letter_tone : ℕ → Bool
is_letter_tone c = (leb b'a' c && leb c b'd') || (leb b'A' c && leb c b'D')

unfoldable pub at_enque_dtmf : Env → Pvt → ℕ → ℕ → ℕ → Option ℕ → Enqued
unfolding at_enque_generic decimal
at_enque_dtmf env pvt cpvt call_idx digit mem =
    if is_letter_tone digit
    then refused (negsuc 1973) pvt
    else (if is_tone digit
        then at_enque_generic env pvt cpvt cmd_dtmf true
            (ascii "AT^DTMF=" ++ (decimal call_idx ++ (ascii "," ++ (digit ∷ ascii "\r")))) mem
        else refused (negsuc 0) pvt)

-- `at_enque_pdu`, of the PDU as it stands. The allocation of the body comes first; the other is freed if the
-- one of the head fails. `outgoing_sms` is left out.
abbrev pub pdu_head : List ℕ → List ℕ
pdu_head tpdu = ascii "AT+CMGS=" ++ (decimal (length tpdu / 2) ++ ascii "\r")

abbrev pub free : ℕ → Pvt → Pvt
free a pvt = record pvt { freed = a ∷ pvt.freed }

abbrev pub pdu_tasks : Env → Pvt → ℕ → List ℕ → List ℕ → Option ℕ → Option ℕ → Enqued
pdu_tasks env pvt cpvt pdu tpdu none head_mem = refused (negsuc 11) pvt
pdu_tasks env pvt cpvt pdu tpdu (some b) none = record {
  result = negsuc 11;
  pvt = free b pvt;
  made = (b, pdu ++ (26 ∷ [])) ∷ [];
}
pdu_tasks env pvt cpvt pdu tpdu (some b) (some a) =
    insert env pvt cpvt
      (dyn cmd_cmgs res_sms_prompt 0 2 a (pdu_head tpdu)
        ∷ (dyn cmd_smstext res_ok 0 40 b (pdu ++ (26 ∷ [])) ∷ []))
      false ((b, pdu ++ (26 ∷ [])) ∷ ((a, pdu_head tpdu) ∷ []))

abbrev pub sca_ok : ℤ → Bool
sca_ok (pos n) = leb 2 n
sca_ok (negsuc n) = false

unfoldable pub at_enque_pdu : Env → Pvt → ℕ → List ℕ → Option ℕ → Option ℕ → Enqued
unfolding decimal
at_enque_pdu env pvt cpvt pdu body_mem head_mem =
    let (scalen, tpdu) = pdu_parse_sca pdu in
    if sca_ok scalen && length pdu % 2 == 0
    then pdu_tasks env pvt cpvt pdu tpdu body_mem head_mem
    else refused (negsuc 21) pvt

-- `at_enque_retrive_sms`.
abbrev pub retrive_text : ℕ → List ℕ
retrive_text index = ascii "AT+CMGR=" ++ (decimal index ++ ascii "\r")

abbrev pub delete_text : ℕ → List ℕ
delete_text index = ascii "AT+CMGD=" ++ (decimal index ++ ascii "\r\r")

abbrev pub retrive_with : Env → Pvt → ℕ → ℕ → Bool → ℕ → Option ℕ → Enqued
retrive_with env pvt cpvt index false a mem =
    insert env pvt cpvt (dyn cmd_cmgr res_cmgr 0 2 a (retrive_text index) ∷ []) false
      (put_text a (retrive_text index) ∷ [])
retrive_with env pvt cpvt index true a none = record {
  result = negsuc 0;
  pvt = free a pvt;
  made = put_text a (retrive_text index) ∷ [];
}
retrive_with env pvt cpvt index true a (some b) =
    insert env pvt cpvt
      (dyn cmd_cmgr res_cmgr 0 2 a (retrive_text index)
        ∷ (dyn cmd_cmgd res_ok 0 2 b (delete_text index) ∷ []))
      false (put_text a (retrive_text index) ∷ (put_text b (delete_text index) ∷ []))

unfoldable pub at_enque_retrive_sms : Env → Pvt → ℕ → ℕ → Bool → Option ℕ → Option ℕ → Enqued
unfolding decimal
at_enque_retrive_sms env pvt cpvt index delete none mem = refused (negsuc 0) pvt
at_enque_retrive_sms env pvt cpvt index delete (some a) mem =
    retrive_with env pvt cpvt index delete a mem
