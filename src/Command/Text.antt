-- ===== src/Command/Text.antt =====
-- at_command.c: the commands that send an SMS and a USSD request, on top of Pdu and CharConv. The marks in
-- files that one is on its way are left out.
use chan_svistok.Base.{
  ℕ, ◌≤◌, List, [], ◌∷◌, ◌++◌, Bool, true, false, Bool-cases, Option, none, some, ltb, le→ltb, ◌==◌,
  if◌then◌else◌, length, take, arith, ascii, pos, negsuc, inl, inr,
}
use chan_svistok.CharConv.{
  Coded, text, error, Iconv, StrEncoding, encode, bit7_hex, ucs2_hex, bit7, str_recode,
}
use chan_svistok.Pdu.Submit.{pdu_build}
use chan_svistok.Queue.{Pvt}
use chan_svistok.Queue.Memory.{owned}
use chan_svistok.Response.{res_ok, res_sms_prompt}
use chan_svistok.Command.{
  Env, Enqued, cmd_cmgs, cmd_smstext, cmd_cusd, dyn, insert, refused, free, at_enque_pdu,
}
use chan_svistok.Command.Memory.{HasRoom, Accounts, insert-Accounts, at_enque_pdu-Accounts}

-- The parts of the settings of a device that are read here.
pub record Settings : Type 0 where
  pub use_pdu : Bool
  pub use_ucs2_encoding : Bool
  pub cusd_use_7bit_encoding : Bool

abbrev pub sms_end : List ℕ
sms_end = 26 ∷ []

module _ (iconv : Iconv) where
  -- The PDU of `pdu_build`, in 2048 bytes, or its error.
  abbrev sms_pdu : Env → Pvt → ℕ → Coded → Option ℕ → Option ℕ → Enqued
  sms_pdu env pvt cpvt (error e) mem mem' = refused e pvt
  sms_pdu env pvt cpvt (text t) mem mem' =
      if length t == 0
      then refused (pos 0) pvt
      else (if ltb 2046 (length t)
          then refused (negsuc 0) pvt
          else at_enque_pdu env pvt cpvt t mem mem')

  abbrev sms_head : List ℕ → List ℕ
  sms_head number = ascii "AT+CMGS=\"" ++ (number ++ ascii "\"\r")

  -- With the body of the message, the two texts; `a` has the head.
  abbrev sms_body : Env → Pvt → ℕ → ℕ → List ℕ → List ℕ → Option ℕ → Enqued
  sms_body env pvt cpvt a head body none = record {
    result = negsuc 11;
    pvt = free a pvt;
    made = (a, head) ∷ [];
  }
  sms_body env pvt cpvt a head body (some b) =
      insert env pvt cpvt
        (dyn cmd_cmgs res_sms_prompt 0 2 a head ∷ (dyn cmd_smstext res_ok 0 40 b body ∷ [])) false
        ((a, head) ∷ ((b, body) ∷ []))

  abbrev sms_ucs2 : Env → Pvt → ℕ → ℕ → List ℕ → Coded → Option ℕ → Enqued
  sms_ucs2 env pvt cpvt a head (error e) mem = record {
    result = negsuc 3;
    pvt = free a pvt;
    made = (a, head) ∷ [];
  }
  sms_ucs2 env pvt cpvt a head (text t) mem = sms_body env pvt cpvt a head (t ++ sms_end) mem

  -- A message that is too long ends the function as it stands.
  abbrev sms_text : Env → Pvt → ℕ → Bool → List ℕ → ℕ → List ℕ → Option ℕ → Enqued
  sms_text env pvt cpvt true msg a head mem =
      if ltb 70 (length msg)
      then record { result = negsuc 3; pvt = pvt; made = (a, head) ∷ [] }
      else sms_ucs2 env pvt cpvt a head (str_recode iconv encode ucs2_hex msg 2046) mem
  sms_text env pvt cpvt false msg a head mem =
      if ltb 140 (length msg)
      then record { result = negsuc 3; pvt = pvt; made = (a, head) ∷ [] }
      else sms_body env pvt cpvt a head (take 160 msg ++ sms_end) mem

  abbrev sms_number : Env → Pvt → ℕ → Bool → List ℕ → Coded → Option ℕ → Option ℕ → Enqued
  sms_number env pvt cpvt ucs2 msg (error e) mem mem' = refused (negsuc 3) pvt
  sms_number env pvt cpvt ucs2 msg (text []) mem mem' = refused (negsuc 3) pvt
  sms_number env pvt cpvt ucs2 msg (text (c ∷ cs)) none mem' = refused (negsuc 11) pvt
  sms_number env pvt cpvt ucs2 msg (text (c ∷ cs)) (some a) mem' =
      sms_text env pvt cpvt ucs2 msg a (sms_head (c ∷ cs)) mem'

  -- `at_enque_sms`; `mem` and `mem'` are what its allocations answer, in order.
  unfoldable pub at_enque_sms :
      Settings → Env → Pvt → ℕ → List ℕ → List ℕ → Option ℕ → Option ℕ → Enqued
  unfolding str_recode pdu_build at_enque_pdu
  at_enque_sms set env pvt cpvt destination msg mem mem' =
      if set.use_pdu
      then sms_pdu env pvt cpvt (pdu_build iconv 2048 [] destination msg) mem mem'
      else sms_number env pvt cpvt set.use_ucs2_encoding msg
          (str_recode iconv encode ucs2_hex destination 1012) mem mem'

  -- `at_enque_ussd`: the code is copied from behind a '=', or recoded.
  abbrev ussd_text : List ℕ → List ℕ
  ussd_text code = ascii "AT+CUSD=1,\"" ++ (code ++ ascii "\",15\r")

  abbrev ussd_with : Env → Pvt → ℕ → List ℕ → Option ℕ → Enqued
  ussd_with env pvt cpvt code none = refused (negsuc 0) pvt
  ussd_with env pvt cpvt code (some a) =
      insert env pvt cpvt (dyn cmd_cusd res_ok 0 2 a (ussd_text code) ∷ []) false
        ((a, ussd_text code) ∷ [])

  abbrev ussd_coded : Env → Pvt → ℕ → Coded → Option ℕ → Enqued
  ussd_coded env pvt cpvt (error e) mem = refused (negsuc 0) pvt
  ussd_coded env pvt cpvt (text []) mem = refused (negsuc 0) pvt
  ussd_coded env pvt cpvt (text (c ∷ cs)) mem = ussd_with env pvt cpvt (c ∷ cs) mem

  abbrev ussd_encoding : Settings → StrEncoding
  ussd_encoding set =
      if set.cusd_use_7bit_encoding
      then bit7_hex
      else (if set.use_ucs2_encoding then ucs2_hex else bit7)

  unfoldable pub at_enque_ussd : Settings → Env → Pvt → ℕ → List ℕ → Option ℕ → Enqued
  unfolding str_recode
  at_enque_ussd set env pvt cpvt [] mem =
      ussd_coded env pvt cpvt (str_recode iconv encode (ussd_encoding set) [] 4079) mem
  at_enque_ussd set env pvt cpvt (c ∷ cs) mem =
      if c == b'='
      then ussd_with env pvt cpvt cs mem
      else ussd_coded env pvt cpvt (str_recode iconv encode (ussd_encoding set) (c ∷ cs) 4079) mem

  -- The message is not too long for the mode.
  abbrev pub IsShort : Settings → List ℕ → Type 0
  IsShort set msg = length msg ≤ (if set.use_ucs2_encoding then 70 else 140)

  sms_pdu-Accounts :
      (env : Env) (pvt : Pvt) (cpvt : ℕ) (c : Coded) (mem mem' : Option ℕ)
      → HasRoom pvt 2
      → Accounts pvt (sms_pdu env pvt cpvt c mem mem')
  sms_pdu-Accounts env pvt cpvt (error e) mem mem' h = λ a. omega arith
  sms_pdu-Accounts env pvt cpvt (text t) mem mem' h = elim (Bool-cases (length t == 0)) [
    | inl e ↦ rw e (λ a. omega arith)
    | inr e ↦ rw e (elim (Bool-cases (ltb 2046 (length t))) [
      | inl g ↦ rw g (λ a. omega arith)
      | inr g ↦ rw g (at_enque_pdu-Accounts env pvt cpvt t mem mem' h)
    ])
  ]

  sms_body-Accounts :
      (env : Env) (pvt : Pvt) (cpvt a : ℕ) (head body : List ℕ) (mem : Option ℕ)
      → HasRoom pvt 2
      → Accounts pvt (sms_body env pvt cpvt a head body mem)
  unfolding owned
  sms_body-Accounts env pvt cpvt a head body none h = λ b. omega arith
  sms_body-Accounts env pvt cpvt a head body (some b) h =
      insert-Accounts env pvt cpvt _ false ((a, head) ∷ ((b, body) ∷ [])) (omega arith) h
        (λ c. omega arith)

  sms_ucs2-Accounts :
      (env : Env) (pvt : Pvt) (cpvt a : ℕ) (head : List ℕ) (c : Coded) (mem : Option ℕ)
      → HasRoom pvt 2
      → Accounts pvt (sms_ucs2 env pvt cpvt a head c mem)
  sms_ucs2-Accounts env pvt cpvt a head (error e) mem h = λ b. omega arith
  sms_ucs2-Accounts env pvt cpvt a head (text t) mem h =
      sms_body-Accounts env pvt cpvt a head (t ++ sms_end) mem h

  sms_number-Accounts :
      (env : Env) (pvt : Pvt) (cpvt : ℕ) (ucs2 : Bool) (msg : List ℕ) (c : Coded)
      (mem mem' : Option ℕ)
      → length msg ≤ (if ucs2 then 70 else 140)
      → HasRoom pvt 2
      → Accounts pvt (sms_number env pvt cpvt ucs2 msg c mem mem')
  sms_number-Accounts env pvt cpvt ucs2 msg (error e) mem mem' l h = λ a. omega arith
  sms_number-Accounts env pvt cpvt ucs2 msg (text []) mem mem' l h = λ a. omega arith
  sms_number-Accounts env pvt cpvt ucs2 msg (text (c ∷ cs)) none mem' l h = λ a. omega arith
  sms_number-Accounts env pvt cpvt true msg (text (c ∷ cs)) (some a) mem' l h =
      rw (le→ltb 70 (length msg) l) (
        sms_ucs2-Accounts env pvt cpvt a (sms_head (c ∷ cs))
          (str_recode iconv encode ucs2_hex msg 2046) mem' h)
  sms_number-Accounts env pvt cpvt false msg (text (c ∷ cs)) (some a) mem' l h =
      rw (le→ltb 140 (length msg) l)
        (sms_body-Accounts env pvt cpvt a (sms_head (c ∷ cs)) (take 160 msg ++ sms_end) mem' h)

  -- While the counters of the queue are right, and the tasks and the commands of the queue, with one more task
  -- and two more commands, stay below 2^32, `at_enque_sms` with a message of at most 140 bytes, or 70 where the
  -- device takes UCS-2, accounts in either mode for its allocations, those of the texts and that of the task,
  -- whatever of the coding, the allocations or the write fails: each ends once in the queue or is freed once,
  -- and no other is lost or freed twice.
  pub at_enque_sms-Accounts :
      (set : Settings) (env : Env) (pvt : Pvt) (cpvt : ℕ) (destination msg : List ℕ)
      (mem mem' : Option ℕ)
      → IsShort set msg
      → HasRoom pvt 2
      → Accounts pvt (at_enque_sms set env pvt cpvt destination msg mem mem')
  unfolding at_enque_sms
  at_enque_sms-Accounts set env pvt cpvt destination msg mem mem' l h =
      elim (Bool-cases set.use_pdu) [
        | inl e ↦
            rw (at_enque_sms, e)
              (sms_pdu-Accounts env pvt cpvt (pdu_build iconv 2048 [] destination msg) mem mem' h)
        | inr e ↦
            rw (at_enque_sms, e)
              (sms_number-Accounts env pvt cpvt set.use_ucs2_encoding msg
                (str_recode iconv encode ucs2_hex destination 1012) mem mem' l h)
      ]
