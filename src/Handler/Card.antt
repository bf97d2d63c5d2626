-- ===== src/Handler/Card.antt =====
-- at_response.c: the handlers of the responses about the SIM card, the network and the device itself. The
-- files that they write are left out.
use chan_svistok.Base.{
  ℕ, ◌-◌, List, [], ◌∷◌, Bool, true, false, not, ◌&&◌, ◌||◌, Option, none, some, leb, ◌==◌,
  if◌then◌else◌, length, take, ascii, ℤ, pos, negsuc,
}
use chan_svistok.Parse.{
  at, Cut, string_at, at_parse_cnum, at_parse_cops, at_parse_spn, at_parse_csca,
}
use chan_svistok.Parse.Scan.{strtol, int_of, low_bits}
use chan_svistok.Parse.Values.{
  literal, Sysinfo, at_parse_csq, at_parse_rssi, at_parse_mode, at_parse_sysinfo, at_parse_cpin,
}
use chan_svistok.Parse.Creg.{Registration, at_parse_creg}
use chan_svistok.Command.Start.{
  at_enque_cops, at_enque_iccid, at_enque_sn, at_enque_cfun_v, at_enque_cpin_v, at_enque_cfun5,
  at_enque_cfun6, at_enque_initialization_sim,
}
use chan_svistok.Dongle.{Dongle, Names, Radio, Sim, queue, with_queue}
use chan_svistok.Handler.{World, put, sys_chan, with_link, with_sim, with_messages}

-- `ast_copy_string` into a field of `size` bytes.
abbrev pub copy : ℕ → List ℕ → List ℕ
copy size str = take (size - 1) str

abbrev pub with_names : Dongle → (Names → Names) → Dongle
with_names d f = record d { names = f d.names }

abbrev pub with_radio : Dongle → (Radio → Radio) → Dongle
with_radio d f = record d { radio = f d.radio }

-- `strcmp` is 0.
abbrev pub same_text : List ℕ → List ℕ → Bool
same_text [] [] = true
same_text [] (y ∷ ys) = false
same_text (x ∷ xs) [] = false
same_text (x ∷ xs) (y ∷ ys) = x == y && same_text xs ys

abbrev pub is_some {ℓ} : {A : Type ℓ} → Option A → Bool
is_some none = false
is_some (some a) = true

-- `strstr`.
abbrev pub contains : List ℕ → List ℕ → Bool
contains needle [] = is_some (literal needle [])
contains needle (c ∷ cs) = is_some (literal needle (c ∷ cs)) || contains needle cs

abbrev pub is_minus_one : ℤ → Bool
is_minus_one (pos n) = false
is_minus_one (negsuc n) = n == 0

unfoldable pub at_response_rssi : List ℕ → Dongle → Dongle
at_response_rssi str d =
    let n = at_parse_rssi str in
    if is_minus_one n then d else with_radio d (λ r. record r { rssi = n })

-- `at_enque_sysinfo`, which ends the handlers of ^MODE, ^SRVST and ^SIMST, returns at once.
abbrev pub linked : Option (ℤ × ℤ) → Radio → Radio
linked none r = r
linked (some (mode, submode)) r = record r { linkmode = mode; linksubmode = submode }

unfoldable pub at_response_mode : List ℕ → Dongle → Dongle
at_response_mode str d = with_radio d (linked (at_parse_mode str))

abbrev pub in_service : Option Sysinfo → Sim → Sim
in_service none s = s
in_service (some i) s = record s { srvst = i.srvst; simst = i.simst }

unfoldable pub at_response_sysinfo : World → List ℕ → Dongle → Dongle
at_response_sysinfo w str d =
    let d₁ = with_sim d (in_service (at_parse_sysinfo str)) in
    put d₁ (at_enque_cfun_v (w.env 0) (queue d₁) (sys_chan d₁) (w.mem 0))

abbrev pub signal : Option ℤ → Radio → Radio
signal none r = r
signal (some n) r = record r { rssi = n }

unfoldable pub at_response_csq : List ℕ → Dongle → Dongle
at_response_csq str d = with_radio d (signal (at_parse_csq str))

abbrev pub cut_text : Cut → List ℕ
cut_text c = string_at c.text c.start

abbrev pub subscriber : Option Cut → Names → Names
subscriber none n = record n { subscriber_number = ascii "Unknown"; has_subscriber_number = false }
subscriber (some c) n = record n {
  subscriber_number = copy 128 (cut_text c);
  has_subscriber_number = not (length (copy 128 (cut_text c)) == 0) || n.has_subscriber_number;
}

unfoldable pub at_response_cnum : List ℕ → Dongle → Dongle
at_response_cnum str d = with_names d (subscriber (at_parse_cnum str))

abbrev pub provider : Option Cut → Names → Names
provider none n = record n { provider_name = ascii "NONE" }
provider (some c) n = record n { provider_name = copy 32 (cut_text c) }

unfoldable pub at_response_cops : List ℕ → Dongle → Dongle
at_response_cops str d = with_names d (provider (at_parse_cops str))

abbrev pub service_name : List ℕ → Option ℕ → Names → Names
service_name str none n = record n { provider_name2 = [] }
service_name str (some k) n = record n { provider_name2 = copy 32 (string_at str k) }

unfoldable pub at_response_spn : List ℕ → Dongle → Dongle
at_response_spn str d = with_names d (service_name str (at_parse_spn str))

abbrev pub centre : Option Cut → Names → Names
centre none n = n
centre (some c) n = record n { sms_scenter = copy 20 (cut_text c) }

unfoldable pub at_response_csca : List ℕ → Dongle → Dongle
at_response_csca str d = with_names d (centre (at_parse_csca str))

-- The status is stored also where the text is no registration.
abbrev pub place : Option (List ℕ) → Option (List ℕ) → Names → Names
place none none n = n
place none (some ci) n = record n { cell_id = copy 8 ci }
place (some lac) none n = record n { location_area_code = copy 8 lac }
place (some lac) (some ci) n = record n { location_area_code = copy 8 lac; cell_id = copy 8 ci }

abbrev pub registered : ℤ → Registration → Dongle → Dongle
registered (negsuc e) r d = d
registered (pos e) r d =
    with_names (with_link d (λ l. record l { gsm_registered = not (r.gsm_reg == 0) }))
      (place r.lac r.ci)

unfoldable pub at_response_creg : World → List ℕ → Dongle → Dongle
at_response_creg w str d =
    let d₁ = put d (at_enque_cops (w.env 0) (queue d) (sys_chan d) (w.mem 0)) in
    let r = at_parse_creg w.einval str in
    registered r.result r (with_radio d₁ (λ o. record o { gsm_reg_status = r.gsm_reg_status }))

abbrev pub seven_bit_modems : List (List ℕ)
seven_bit_modems =
    ascii "E1550"
    ∷ (ascii "E1750"
        ∷ (ascii "E160X"
            ∷ (ascii "E150"
                ∷ (ascii "E173" ∷ (ascii "E1552" ∷ (ascii "E171" ∷ (ascii "E153" ∷ [])))))))

abbrev pub is_listed : List ℕ → List (List ℕ) → Bool
is_listed model [] = false
is_listed model (m ∷ ms) = same_text model m || is_listed model ms

unfoldable pub at_response_cgmm : List ℕ → Dongle → Dongle
at_response_cgmm str d =
    let is_seven = is_listed (copy 32 str) seven_bit_modems in
    with_messages (with_names d (λ n. record n { model = copy 32 str }))
      (λ m. record m { cusd_use_7bit_encoding = is_seven; cusd_use_ucs2_decoding = not is_seven })

unfoldable pub at_response_cvoice : List ℕ → Dongle → ℤ × Dongle
at_response_cvoice str d =
    let has = same_text str (ascii "^CVOICE:0,8000,16,20") in
    (
      if has then pos 0 else pos 50,
      with_link d (λ l. record l { novoice = not has; has_voice = has }),
    )

abbrev pub behind : List ℕ → List ℕ → List ℕ
behind prefix str = elim (literal prefix str) [ none ↦ [] | some rest ↦ rest ]

abbrev pub begins_with : ℕ → List ℕ → Bool
begins_with x [] = false
begins_with x (c ∷ cs) = c == x

-- The copy of the text, in 256 bytes, is taken to have room.
unfoldable pub at_response_cardlock : List ℕ → Dongle → ℤ × Dongle
at_response_cardlock str d =
    let locked = begins_with b'1' (behind (ascii "^CARDLOCK: ") str) in
    (if locked then pos 50 else pos 0, with_sim d (λ s. record s { cardlock = locked }))

abbrev pub atoi : List ℕ → ℤ
atoi str = int_of (low_bits (strtol str).0)

abbrev pub freq_of : List ℕ → ℤ
freq_of [] = negsuc 0
freq_of (c ∷ cs) = if c == b'1' then atoi cs else (if c == b'0' then pos 0 else negsuc 0)

unfoldable pub at_response_freqlock : List ℕ → Dongle → Dongle
at_response_freqlock str d =
    with_radio d (λ r. record r { freqlock = freq_of (behind (ascii "^FREQLOCK: ") str) })

unfoldable pub at_response_cgmi : List ℕ → Dongle → Dongle
at_response_cgmi str d = with_names d (λ n. record n { manufacturer = copy 32 str })

unfoldable pub at_response_cgmr : List ℕ → Dongle → Dongle
at_response_cgmr str d = with_names d (λ n. record n { firmware = copy 32 str })

unfoldable pub at_response_cgsn : List ℕ → Dongle → Dongle
at_response_cgsn str d = with_names d (λ n. record n { imei = copy 17 str })

unfoldable pub at_response_cimi : List ℕ → Dongle → Dongle
at_response_cimi str d = with_names d (λ n. record n { imsi = copy 17 str })

abbrev pub serial_number : Option (List ℕ) → Names → Names
serial_number none n = n
serial_number (some rest) n = record n { serial = copy 18 rest }

unfoldable pub at_response_sn : List ℕ → Dongle → Dongle
at_response_sn str d = with_names d (serial_number (literal (ascii "^SN: ") str))

abbrev pub card : List ℕ → Option (List ℕ) → Dongle → ℤ × Dongle
card str (some rest) d = (pos 0, with_names d (λ n. record n { iccid = copy 64 rest }))
card str none d =
    if contains (ascii "SIM not inserted") str
    then (negsuc 0, with_sim d (λ s. record s { nosim = true }))
    else (pos 0, d)

unfoldable pub at_response_iccid : List ℕ → Dongle → ℤ × Dongle
at_response_iccid str d =
    card str (literal (ascii "^ICCID: ") str)
      (with_sim d (λ s. record s { nosim = false; eerror = false }))

-- The first use of the SIM card.
unfoldable pub start_sim : World → ℕ → Dongle → Dongle
start_sim w n d =
    if d.sim.sim_start
    then d
    else with_queue (with_sim d (λ s. record s { sim_start = true }))
        (at_enque_initialization_sim (w.env n) (queue d) (sys_chan d) w.multiband)

abbrev pub is_ready : ℤ → Bool
is_ready (pos n) = n == 4 || (n == 3 || n == 1)
is_ready (negsuc n) = false

abbrev pub is_absent : ℤ → Bool
is_absent (pos n) = n == 255
is_absent (negsuc n) = false

-- "+CFUN: 1": the device is on.
abbrev pub turned_on : World → Dongle → Dongle
turned_on w d =
    if is_absent d.sim.simst
    then (let d₁ =
          (if w.nosim2offline
            then put d (at_enque_cfun5 (w.env 0) (queue d) (sys_chan d) (w.mem 0))
            else d) in
        with_sim d₁ (λ s. record s { nosim = true }))
    else if is_ready d.sim.simst && not d.sim.sim_ready
    then (let d₁ = with_sim d (λ s. record s { sim_ready = true }) in
        put d₁ (at_enque_cpin_v (w.env 0) (queue d₁) (sys_chan d₁) (w.mem 0)))
    else d

abbrev pub cfun_value : World → ℕ → Dongle → Dongle
cfun_value w n d =
    if n == 5
    then (if is_ready d.sim.simst then with_sim d (λ s. record s { sim_ready = true }) else d)
    else if n == 1
    then start_sim w 1 (turned_on w d)
    else if n == 4
    then put d (at_enque_cfun6 (w.env 0) (queue d) (sys_chan d) (w.mem 0))
    else d

abbrev pub cfun_digit : World → List ℕ → Dongle → Dongle
cfun_digit w [] d = d
cfun_digit w (c ∷ cs) d =
    if leb b'0' c && leb c b'9'
    then cfun_value w (c - b'0') (with_sim d (λ s. record s { cfun = pos (c - b'0') }))
    else d

unfoldable pub at_response_cfun_v : World → List ℕ → Dongle → Dongle
at_response_cfun_v w str d = cfun_digit w (behind (ascii "+CFUN: ") str) d

abbrev pub needs_pin : World → ℕ → Dongle → Dongle
needs_pin w n d =
    let d₁ = with_sim d (λ s. record s { pinrequired = n }) in
    put d₁ (at_enque_iccid (w.env 0) (queue d₁) (sys_chan d₁) (w.mem 0))

abbrev pub is_cfun : ℕ → ℤ → Bool
is_cfun n (pos m) = m == n
is_cfun n (negsuc m) = false

-- What is asked for of a card that needs no PIN.
abbrev pub pin_ready : World → Dongle → Dongle
pin_ready w d =
    let d₁ = with_sim d (λ s. record s { pinrequired = 0 }) in
    if is_cfun 1 d.sim.cfun
    then start_sim w 0 d₁
    else if is_cfun 5 d.sim.cfun
    then (let d₂ = put d₁ (at_enque_sn (w.env 0) (queue d₁) (sys_chan d₁) (w.mem 0)) in
        put d₂ (at_enque_iccid (w.env 1) (queue d₂) (sys_chan d₂) (w.mem 1)))
    else d₁

abbrev pub pin_state : World → ℤ → Dongle → Dongle
pin_state w (negsuc n) d = d
pin_state w (pos n) d = if n == 0 then pin_ready w d else needs_pin w n d

unfoldable pub at_response_cpin : World → List ℕ → Dongle → Dongle
at_response_cpin w str d = pin_state w (at_parse_cpin (at str) (length str)) d
