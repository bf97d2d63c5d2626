-- ===== src/Handler/Listing.antt =====
-- at_response.c: the handlers of +CLCC, the list of the calls, of +CCWA and of RING. The statistics, the files, and
-- the number of the other side are left out.
use chan_svistok.Base.{
  ℕ, zero, suc, ◌+◌, ◌%◌, List, [], ◌∷◌, Bool, true, false, not, ◌&&◌, ◌||◌, Option, none, some,
  leb, ◌==◌, if◌then◌else◌, length, ascii, ℤ, pos, negsuc,
}
use chan_svistok.Calls.{Call, find_chan, pvt_find_cpvt}
use chan_svistok.Calls.State.{dialing_state, alerting, incoming, waiting_state}
use chan_svistok.Parse.{until_nul}
use chan_svistok.Parse.Scan.{skip_space, scan_int, low_bits}
use chan_svistok.Parse.Values.{literal, Clcc, at_parse_clcc, at_parse_ccwa}
use chan_svistok.Dongle.{Dongle, mark, change_state, pvt_enabled, no_chans}
use chan_svistok.Handler.{World, sys_chan, with_link}
use chan_svistok.Handler.Calling.{scan, request_clcc, sync_volume, start_pbx}

abbrev pub only_ringing : Dongle → Dongle
only_ringing d = record d { bits = record { dialing = false; ring = true; cwaiting = false } }

abbrev pub only_dialing : Dongle → Dongle
only_dialing d = record d { bits = record { dialing = true; ring = false; cwaiting = false } }

abbrev pub only_waiting : Dongle → Dongle
only_waiting d = record d { bits = record { dialing = false; ring = false; cwaiting = true } }

-- The `switch` over the state of an entry.
unfoldable pub note_state : ℕ → Dongle → Dongle
note_state state d =
    if state == waiting_state
    then only_waiting d
    else if state == dialing_state || state == alerting
    then only_dialing d
    else if state == incoming
    then only_ringing d
    else d

abbrev pub is_new : Clcc → Bool
is_new r = r.dir == 1 && (r.state == incoming || r.state == waiting_state)

-- The rings go to the channel of the call.
unfoldable pub pass_rings : ℕ → Dongle → Dongle
pass_rings a d =
    if (d.marks a).channel
    then (let rings = d.link.rings in
        with_link (mark d a (λ m. record m { rings = m.rings + rings }))
          (λ l. record l { rings = 0 }))
    else d

abbrev pub known_call : World → Clcc → ℕ → Option Call → Dongle → Dongle
known_call w r a none d = d
known_call w r a (some c) d =
    if r.dir == c.dir
    then (let d₁ = mark d a (λ m. record m { multiparty = not (r.mpty == 0) }) in
        let d₂ = if is_new r then pass_rings a d₁ else d₁ in
        if r.state == c.state then d₂ else change_state w.fas d₂ a r.state)
    else d

-- An entry for a call that is on the list, and for one that is not.
unfoldable pub clcc_call : World → Clcc → Dongle → Dongle
clcc_call w r d = elim (pvt_find_cpvt d.device r.call_idx) [
  | some a ↦
      known_call w r a (find_chan a d.device.chans) (mark d a (λ m. record m { alive = true }))
  | none ↦ if is_new r && pvt_enabled d then (start_pbx w r.call_idx r.state d).0 else d
]

unfoldable pub clcc_entry : World → Clcc → Dongle → Dongle
clcc_entry w r d =
    if r.mode == 0 && leb r.state waiting_state then note_state r.state (clcc_call w r d) else d

-- The string behind the next line end, if it is not empty.
abbrev pub without_lf : List ℕ → List ℕ
without_lf [] = []
without_lf (c ∷ cs) = if c == 10 then cs else c ∷ cs

abbrev pub not_empty : List ℕ → Option (List ℕ)
not_empty [] = none
not_empty (x ∷ xs) = some (x ∷ xs)

unfoldable pub next_line : List ℕ → Option (List ℕ)
next_line [] = none
next_line (c ∷ cs) = if c == 13 then not_empty (without_lf cs) else next_line cs

-- The text as `at_parse_clcc` leaves it: with a NUL behind the number, if it succeeds.
abbrev pub left_text : List ℕ → Option Clcc → List ℕ
left_text text none = text
left_text text (some r) = r.number.text

abbrev pub entry_of : World → Option Clcc → Dongle → Dongle
entry_of w none d = d
entry_of w (some r) d = clcc_entry w r d

-- The loop, which every round leaves or goes on with in a shorter text; `w` has the answers for each round.
unfoldable pub clcc_loop : (ℕ → World) → ℕ → List ℕ → Dongle → Dongle
clcc_loop w zero text d = d
clcc_loop w (suc fuel) text d =
    let d₁ = entry_of (w 0) (at_parse_clcc text) d in
    elim (next_line (until_nul (left_text text (at_parse_clcc text)))) [
      | none ↦ d₁
      | some rest ↦ clcc_loop (λ n. w (n + 1)) fuel rest d₁
    ]

unfoldable pub none_alive : List Call → Dongle → Dongle
none_alive [] d = d
none_alive (c ∷ cs) d = none_alive cs (mark d c.address (λ m. record m { alive = false }))

-- `at_response_clcc`: the loop returns, so that nothing of the function behind it is reached.
unfoldable pub at_response_clcc : (ℕ → World) → List ℕ → Dongle → Dongle
at_response_clcc w text d =
    if d.link.initialized
    then clcc_loop w (length text + 1) text (none_alive d.device.chans d)
    else d

-- "+CCWA: (%u-%u)", of which only the success matters.
abbrev pub ccwa_range : List ℕ → Bool
ccwa_range text = elim (literal (ascii "+CCWA:") text) [
  | none ↦ false
  | some rest ↦ elim (literal (ascii "(") (skip_space rest)) [
    | none ↦ false
    | some low ↦ elim (scan_int low) [
      | none ↦ false
      | some (n, later) ↦ elim (literal (ascii "-") later) [
        | none ↦ false
        | some high ↦ elim (scan_int high) [ none ↦ false | some (m, end) ↦ true ]
      ]
    ]
  ]
]

abbrev pub ring_again : Dongle → Dongle
ring_again d = with_link d (λ l. record l { rings = l.rings + 1 })

abbrev pub call_waits : World → Option ℕ → Dongle → Dongle
call_waits w none d = d
call_waits w (some class) d =
    if class == 1
    then request_clcc w 0 (ring_again (record d { bits = record d.bits { cwaiting = true } }))
    else d

-- "+CCWA:%d,%d" with one number, two, or none.
abbrev pub ccwa_status : World → List ℕ → List ℤ → Dongle → Dongle
ccwa_status w text [] d = if d.link.initialized then call_waits w (at_parse_ccwa text) d else d
ccwa_status w text (s ∷ []) d = d
ccwa_status w text (pos s ∷ (class ∷ ns)) d =
    if low_bits class % 2 == 1 && leb s 1
    then with_link d (λ l. record l { has_call_waiting = s == 1 })
    else d
ccwa_status w text (negsuc s ∷ (class ∷ ns)) d = d

unfoldable pub at_response_ccwa : World → List ℕ → Dongle → Dongle
at_response_ccwa w text d =
    if ccwa_range text then d else ccwa_status w text (scan (ascii "+CCWA:") 2 text) d

unfoldable pub at_response_ring : World → Dongle → Dongle
at_response_ring w d =
    if d.link.initialized
    then (let d₁ = request_clcc w 0 (ring_again (only_ringing d)) in
        if d₁.link.volume_sync_step == 0 && no_chans d₁
        then sync_volume w 1 (sys_chan d₁) d₁
        else d₁)
    else d
