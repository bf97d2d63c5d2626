-- ===== src/Command/Dial.antt =====
-- at_command.c: the commands that make, take and end calls, and the short ones.
use chan_svistok.Base.{
  ℕ, List, [], ◌∷◌, ◌++◌, Bool, true, false, Option, none, some, ◌==◌, ◌||◌, if◌then◌else◌, ascii,
  pos, negsuc,
}
use chan_svistok.Queue.{Cmd, Pvt}
use chan_svistok.Response.{res_ok}
use chan_svistok.Command.{
  Env, Enqued, cmd_at, cmd_a, cmd_ccwa_status, cmd_ccwa_set, cmd_cfun, cmd_chup, cmd_clir, cmd_clvl,
  cmd_d, cmd_ddsetex, cmd_chld_2x, cmd_chld_2, cmd_chld_3, cmd_clcc, state_active, state_onhold,
  state_incoming, state_waiting, static_cmd, st, dyn, flag_ignore, put_text, decimal, insert,
  insert_const, refused, free,
}

-- `at_enque_dial`. `hold_others` says that a call is active and CALL_FLAG_HOLD_OTHER is set, `clir` is none for -1;
-- the flag that is set at the end is left out.
abbrev pub dial_text : List ℕ → List ℕ
dial_text number = ascii "ATD" ++ (number ++ ascii ";\r")

abbrev pub clir_text : ℕ → List ℕ
clir_text clir = ascii "AT+CLIR=" ++ (decimal clir ++ ascii "\r")

abbrev pub hold_cmds : Env → Bool → List Cmd
hold_cmds env true = st env cmd_chld_2 (ascii "AT+CHLD=2\r") ∷ []
hold_cmds env false = []

abbrev pub after_dial : Env → List Cmd
after_dial env =
    st env cmd_clcc (ascii "AT+CLCC\r") ∷ (st env cmd_ddsetex (ascii "AT^DDSETEX=2\r") ∷ [])

abbrev pub dial_with : Env → Pvt → ℕ → List Cmd → List (ℕ × List ℕ) → List ℕ → Option ℕ → Enqued
dial_with env pvt cpvt before made number none = record {
  result = negsuc 0;
  pvt = free_made pvt made;
  made = made;
}
  where
    free_made : Pvt → List (ℕ × List ℕ) → Pvt
    free_made p [] = p
    free_made p (m ∷ ms) = free m.0 p
dial_with env pvt cpvt before made number (some a) =
    insert env pvt cpvt
      (before ++ (dyn cmd_d res_ok flag_ignore 2 a (dial_text number) ∷ after_dial env)) true
      (put_text a (dial_text number) ∷ made)

abbrev pub dial_clir : Env → Pvt → ℕ → List Cmd → List ℕ → ℕ → Option ℕ → Option ℕ → Enqued
dial_clir env pvt cpvt hold number clir none dial_mem = refused (negsuc 0) pvt
dial_clir env pvt cpvt hold number clir (some a) dial_mem =
    dial_with env pvt cpvt (hold ++ (dyn cmd_clir res_ok flag_ignore 2 a (clir_text clir) ∷ []))
      (put_text a (clir_text clir) ∷ []) number dial_mem

unfoldable pub at_enque_dial :
    Env → Pvt → ℕ → Bool → List ℕ → Option ℕ → Option ℕ → Option ℕ → Enqued
unfolding decimal
at_enque_dial env pvt cpvt hold_others number none clir_mem dial_mem =
    dial_with env pvt cpvt (hold_cmds env hold_others) [] number dial_mem
at_enque_dial env pvt cpvt hold_others number (some clir) clir_mem dial_mem =
    dial_clir env pvt cpvt (hold_cmds env hold_others) number clir clir_mem dial_mem

-- `at_enque_answer`: a call that waits is answered by another command, without setting the audio.
unfoldable pub at_enque_answer : Env → Pvt → ℕ → ℕ → ℕ → Option ℕ → Enqued
unfolding decimal
at_enque_answer env pvt cpvt state call_idx mem =
    if state == state_incoming
    then answer_with cmd_a (ascii "ATA\r") (st env cmd_ddsetex (ascii "AT^DDSETEX=2\r") ∷ []) mem
    else (if state == state_waiting
        then answer_with cmd_chld_2x (ascii "AT+CHLD=2" ++ (decimal call_idx ++ ascii "\r")) [] mem
        else refused (negsuc 0) pvt)
  where
    answer_with : ℕ → List ℕ → List Cmd → Option ℕ → Enqued
    answer_with cmd text more none = refused (negsuc 0) pvt
    answer_with cmd text more (some a) =
        insert env pvt cpvt (dyn cmd res_ok 0 2 a text ∷ more) true (put_text a text ∷ [])

-- `at_enque_activate`.
unfoldable pub at_enque_activate : Env → Pvt → ℕ → ℕ → ℕ → Option ℕ → Enqued
unfolding decimal
at_enque_activate env pvt cpvt state call_idx mem =
    if state == state_active
    then refused (pos 0) pvt
    else (if state == state_onhold || state == state_waiting
        then activate_with mem
        else refused (negsuc 0) pvt)
  where
    text : List ℕ
    text = ascii "AT+CHLD=2" ++ (decimal call_idx ++ ascii "\r")

    activate_with : Option ℕ → Enqued
    activate_with none = refused (negsuc 0) pvt
    activate_with (some a) =
        insert env pvt cpvt
          (dyn cmd_chld_2x res_ok 0 2 a text ∷ (st env cmd_clcc (ascii "AT+CLCC\r") ∷ [])) true
          (put_text a text ∷ [])

-- `at_enque_hangup`; the pointer to the call that was dialed last is left out.
unfoldable pub at_enque_hangup : Env → Pvt → ℕ → Enqued
at_enque_hangup env pvt cpvt =
    insert env pvt cpvt
      (st env cmd_chup (ascii "AT+CHUP\r") ∷ (st env cmd_clcc (ascii "AT+CLCC\r") ∷ [])) true []

unfoldable pub at_enque_volsync : Env → Pvt → ℕ → Enqued
at_enque_volsync env pvt cpvt =
    insert_const env pvt cpvt
      (st env cmd_clvl (ascii "AT+CLVL=1\r") ∷ (st env cmd_clvl (ascii "AT+CLVL=5\r") ∷ [])) true []

unfoldable pub at_enque_clcc : Env → Pvt → ℕ → Enqued
at_enque_clcc env pvt cpvt =
    insert_const env pvt cpvt (st env cmd_clcc (ascii "AT+CLCC\r") ∷ []) true []

unfoldable pub at_enque_conference : Env → Pvt → ℕ → Enqued
at_enque_conference env pvt cpvt =
    insert_const env pvt cpvt
      (st env cmd_chld_3 (ascii "AT+CHLD=3\r") ∷ (st env cmd_clcc (ascii "AT+CLCC\r") ∷ [])) true []

unfoldable pub at_enque_ping : Env → Pvt → ℕ → Enqued
at_enque_ping env pvt cpvt =
    insert_const env pvt cpvt (static_cmd env cmd_at (ascii "AT\r") flag_ignore 1 ∷ []) true []

unfoldable pub at_enque_reset : Env → Pvt → ℕ → Enqued
at_enque_reset env pvt cpvt =
    insert_const env pvt cpvt (st env cmd_cfun (ascii "AT+CFUN=1,1\r") ∷ []) false []

-- `at_enque_set_ccwa`: CALL_WAITING_DISALLOWED is 0 and CALL_WAITING_ALLOWED 1; the setting that is changed is
-- left out.
abbrev pub ccwa_status : Env → Cmd
ccwa_status env = static_cmd env cmd_ccwa_status (ascii "AT+CCWA=1,2,1\r") flag_ignore 15

abbrev pub ccwa_text : ℕ → List ℕ
ccwa_text n = ascii "AT+CCWA=" ++ (decimal n ++ (ascii "," ++ (decimal n ++ ascii ",1\r")))

unfoldable pub at_enque_set_ccwa : Env → Pvt → ℕ → ℕ → Option ℕ → Enqued
unfolding decimal
at_enque_set_ccwa env pvt cpvt call_waiting mem =
    if call_waiting == 0 || call_waiting == 1
    then set_with mem
    else insert env pvt cpvt (ccwa_status env ∷ []) false []
  where
    set_with : Option ℕ → Enqued
    set_with none = refused (negsuc 0) pvt
    set_with (some a) =
        insert env pvt cpvt
          (dyn cmd_ccwa_set res_ok flag_ignore 15 a (ccwa_text call_waiting)
            ∷ (ccwa_status env ∷ []))
          false (put_text a (ccwa_text call_waiting) ∷ [])
