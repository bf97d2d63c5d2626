-- ===== src/Handler/Tallied/Network.antt =====
-- The counters of the calls under the handlers of Handler/Card.
use chan_svistok.Base.{
  cases_all, ℕ, ◌-◌, List, [], ◌∷◌, false, not, ◌&&◌, Option, none, some, length, leb, ◌==◌,
  if◌then◌else◌, ℤ, pos, negsuc, ascii,
}
use chan_svistok.Queue.{Task, Cmd}
use chan_svistok.Command.Start.{at_enque_cfun5}
use chan_svistok.Parse.{at}
use chan_svistok.Parse.Creg.{Registration}
use chan_svistok.Parse.Values.{at_parse_cpin, at_parse_rssi, literal}
use chan_svistok.Dongle.{Dongle, queue}
use chan_svistok.Handler.{World, put, sys_chan, with_sim}
use chan_svistok.Handler.Card
use chan_svistok.Handler.Dispatch.{data_line, data_of, network}
use chan_svistok.Handler.Tallied.{Roomy, on}
use chan_svistok.Handler.Tallied.Steps.{either, touch}
use chan_svistok.Handler.Tallied.Messages.{Roomy₁}

registered-Roomy :
    (n : ℕ) (e : ℤ) (r : Registration) (d : Dongle) → Roomy n d → Roomy n (Card.registered e r d)
registered-Roomy n (negsuc e) r d v = v
registered-Roomy n (pos e) r d v = on v.has

start_sim-Roomy :
    (n : ℕ) (w : World) (k : ℕ) (d : Dongle) → Roomy n d → Roomy n (Card.start_sim w k d)
unfolding Card.start_sim
start_sim-Roomy n w k d v = either (Roomy n) d.sim.sim_start v (on (touch v.has))

pin_ready-Roomy : (n : ℕ) (w : World) (d : Dongle) → Roomy n d → Roomy n (Card.pin_ready w d)
pin_ready-Roomy n w d v =
    let d₁ = with_sim d (λ s. record s { pinrequired = 0 }) in
    either (Roomy n) (Card.is_cfun 1 d.sim.cfun) (start_sim-Roomy n w 0 d₁ (on v.has))
      (either (Roomy n) (Card.is_cfun 5 d.sim.cfun) (on (touch v.has)) (on v.has))

pin_state-Roomy :
    (n : ℕ) (w : World) (i : ℤ) (d : Dongle) → Roomy n d → Roomy n (Card.pin_state w i d)
pin_state-Roomy n w (negsuc i) d v = v
pin_state-Roomy n w (pos i) d v =
    either (Roomy n) (i == 0) (pin_ready-Roomy n w d v) (on (touch v.has))

turned_on-Roomy : (n : ℕ) (w : World) (d : Dongle) → Roomy n d → Roomy n (Card.turned_on w d)
turned_on-Roomy n w d v =
    either (Roomy n) (Card.is_absent d.sim.simst) (on (offline.has))
      (either (Roomy n) (Card.is_ready d.sim.simst && not d.sim.sim_ready) (on (touch v.has)) v)
  where
    offline : Roomy n (
        if w.nosim2offline
        then put d (at_enque_cfun5 (w.env 0) (queue d) (sys_chan d) (w.mem 0))
        else d)
    offline = either (Roomy n) w.nosim2offline (on (touch v.has)) v

cfun_value-Roomy :
    (n : ℕ) (w : World) (i : ℕ) (d : Dongle) → Roomy n d → Roomy n (Card.cfun_value w i d)
cfun_value-Roomy n w i d v =
    either (Roomy n) (i == 5) (either (Roomy n) (Card.is_ready d.sim.simst) (on v.has) v) (
      either (Roomy n) (i == 1)
        (start_sim-Roomy n w 1 (Card.turned_on w d) (turned_on-Roomy n w d v))
        (either (Roomy n) (i == 4) (on (touch v.has)) v))

cfun_digit-Roomy :
    (n : ℕ) (w : World) (str : List ℕ) (d : Dongle) → Roomy n d → Roomy n (Card.cfun_digit w str d)
cfun_digit-Roomy n w [] d v = v
cfun_digit-Roomy n w (c ∷ cs) d v =
    either (Roomy n) (leb 48 c && leb c 57)
      (cfun_value-Roomy n w (c - 48) (with_sim d (λ s. record s { cfun = pos (c - 48) }))
        (on v.has))
      v

at_response_cfun_v-Roomy :
    (n : ℕ) (w : World) (str : List ℕ) (d : Dongle)
    → Roomy n d
    → Roomy n (Card.at_response_cfun_v w str d)
unfolding Card.at_response_cfun_v
at_response_cfun_v-Roomy n w str d v = cfun_digit-Roomy n w (Card.behind (ascii "+CFUN: ") str) d v

card-Roomy :
    (n : ℕ) (str : List ℕ) (o : Option (List ℕ)) (d : Dongle)
    → Roomy n d
    → Roomy n (Card.card str o d).1
card-Roomy n str (some rest) d v = on v.has
card-Roomy n str none d v =
    either (Roomy₁ n) (Card.contains (ascii "SIM not inserted") str) (on v.has) v

at_response_iccid-Roomy :
    (n : ℕ) (str : List ℕ) (d : Dongle) → Roomy n d → Roomy n (Card.at_response_iccid str d).1
unfolding Card.at_response_iccid
at_response_iccid-Roomy n str d v =
    card-Roomy n str (literal (ascii "^ICCID: ") str)
      (with_sim d (λ s. record s { nosim = false; eerror = false })) (on v.has)

data_line-Roomy :
    (n : ℕ) (w : World) (cmd : ℕ) (str : List ℕ) (d : Dongle)
    → Roomy n d
    → Roomy n (data_line w cmd str d).1
unfolding data_line Card.at_response_cvoice Card.at_response_cardlock Card.at_response_cgmi
    Card.at_response_cgmm Card.at_response_cgmr Card.at_response_cgsn Card.at_response_sn
    Card.at_response_freqlock Card.at_response_cimi
data_line-Roomy n w cmd str d v = cases_all (Roomy₁ n) _ _ (
  on v.has,
  (
    on v.has,
    (
      on v.has,
      (
        on v.has,
        (
          on v.has,
          (
            on v.has,
            (
              on v.has,
              (
                at_response_iccid-Roomy n str d v,
                (at_response_cfun_v-Roomy n w str d v, (on v.has, (on v.has, v))),
              ),
            ),
          ),
        ),
      ),
    ),
  ),
)

pub data_of-Roomy :
    (n : ℕ) (w : World) (str : List ℕ) (o : Option (Task × Cmd)) (d : Dongle)
    → Roomy n d
    → Roomy n (data_of w str o d).1
data_of-Roomy n w str none d v = v
data_of-Roomy n w str (some (t, c)) d v = data_line-Roomy n w c.cmd str d v

at_response_rssi-Roomy :
    (n : ℕ) (str : List ℕ) (d : Dongle) → Roomy n d → Roomy n (Card.at_response_rssi str d)
unfolding Card.at_response_rssi
at_response_rssi-Roomy n str d v =
    either (Roomy n) (Card.is_minus_one (at_parse_rssi str)) v (on v.has)

at_response_creg-Roomy :
    (n : ℕ) (w : World) (str : List ℕ) (d : Dongle)
    → Roomy n d
    → Roomy n (Card.at_response_creg w str d)
unfolding Card.at_response_creg
at_response_creg-Roomy n w str d v = registered-Roomy n _ _ _ (on (touch v.has))

pub network-Roomy :
    (n : ℕ) (w : World) (res : ℕ) (str : List ℕ) (d : Dongle)
    → Roomy n d
    → Roomy n (network w res str d).1
unfolding Card.at_response_sysinfo Card.at_response_sn Card.at_response_mode Card.at_response_cops
    Card.at_response_spn Card.at_response_csq Card.at_response_cnum Card.at_response_csca
    Card.at_response_cpin
network-Roomy n w res str d v = cases_all (Roomy₁ n) _ _ (
  on (touch v.has),
  (
    at_response_cfun_v-Roomy n w str d v,
    (
      at_response_iccid-Roomy n str d v,
      (
        on v.has,
        (
          at_response_rssi-Roomy n str d v,
          (
            on v.has,
            (
              at_response_creg-Roomy n w str d v,
              (
                on v.has,
                (
                  on v.has,
                  (
                    on v.has,
                    (
                      pin_state-Roomy n w (at_parse_cpin (at str) (length str)) d v,
                      (on v.has, (on v.has, v)),
                    ),
                  ),
                ),
              ),
            ),
          ),
        ),
      ),
    ),
  ),
)
