-- ===== src/Handler/Clcc.antt =====
-- What `at_response_clcc` of at_response.c does of a list of the calls.
pub mod Line
pub mod Others
pub mod Rounds
use chan_svistok.Base.{
  ℕ, suc, ◌+◌, ◌≡◌, ◌≢◌, refl, sym, subst, ap, ◌∙◌, List, [], ◌∷◌, true, not, none, some, length,
  if◌then◌else◌, arith,
}
use chan_svistok.Calls.{Call, Device, find_chan, pvt_find_cpvt}
use chan_svistok.Parse.{until_nul}
use chan_svistok.Parse.Marks.{Free}
use chan_svistok.Parse.Values.{Clcc, at_parse_clcc}
use chan_svistok.Dongle.{Dongle}
use chan_svistok.Handler.{World}
use chan_svistok.Handler.Listing.{
  clcc_entry, next_line, left_text, entry_of, clcc_loop, none_alive, at_response_clcc,
}
use chan_svistok.Handler.Clcc.Others.{clcc_entry-IsOn, none_alive-device}

next_line-Free : (cs : List ℕ) → Free 13 cs → next_line cs ≡ none
unfolding next_line
next_line-Free [] f = refl
next_line-Free (c ∷ cs) f = ground (arith, f.0, next_line-Free cs f.1)

clcc_loop-first :
    (w : ℕ → World) (fuel : ℕ) (str : List ℕ) (d : Dongle) (r : Clcc)
    → at_parse_clcc str ≡ some r
    → Free 13 (until_nul r.number.text)
    → clcc_loop w (suc fuel) str d ≡ clcc_entry (w 0) r d
unfolding clcc_loop
clcc_loop-first w fuel str d r e f =
    ap
      (λ o. elim (next_line (until_nul (left_text str o))) as (λ _. Dongle) [
        | none ↦ entry_of (w 0) o d
        | some rest ↦ clcc_loop (λ n. w (n + 1)) fuel rest (entry_of (w 0) o d)
      ])
      e
    ∙ ap
        (λ o. elim o as (λ _. Dongle) [
          | none ↦ clcc_entry (w 0) r d
          | some rest ↦ clcc_loop (λ n. w (n + 1)) fuel rest (clcc_entry (w 0) r d)
        ])
        (next_line-Free _ f)

-- Where the text that `at_parse_clcc` leaves has no line end before its NUL, only the first entry is handled.
pub at_response_clcc-entry :
    (w : ℕ → World) (str : List ℕ) (d : Dongle) (r : Clcc)
    → d.link.initialized ≡ true
    → at_parse_clcc str ≡ some r
    → Free 13 (until_nul r.number.text)
    → at_response_clcc w str d ≡ clcc_entry (w 0) r (none_alive d.device.chans d)
unfolding at_response_clcc
at_response_clcc-entry w str d r i e f =
    let d₁ = none_alive d.device.chans d in
    ap (λ b. if b then clcc_loop w (length str + 1) str d₁ else d) i
    ∙ ap (λ n. clcc_loop w n str d₁) (add_one (length str))
    ∙ clcc_loop-first w (length str) str d₁ r e f
  where
    add_one : (n : ℕ) → n + 1 ≡ suc n
    add_one n = omega arith

-- A call that the first entry of +CLCC does not name stays on the list as it is, whether or not the device
-- still has it: what releases such a call stands behind a loop that returns. The device is set up, the first
-- entry can be read, the text that `at_parse_clcc` leaves of it has no line end before its first NUL, and the
-- memory for a new call is not that of this one.
pub at_response_clcc-keeps :
    (w : ℕ → World) (str : List ℕ) (d : Dongle) (r : Clcc) (a : ℕ) (c : Call)
    → d.link.initialized ≡ true
    → at_parse_clcc str ≡ some r
    → Free 13 (until_nul r.number.text)
    → find_chan a d.device.chans ≡ some c
    → pvt_find_cpvt d.device r.call_idx ≢ some a
    → (w 0).call_mem ≢ some a
    → find_chan a (at_response_clcc w str d).device.chans ≡ some c
at_response_clcc-keeps w str d r a c i e f h n m =
    let same = none_alive-device d.device.chans d in
    ap (λ (x : Dongle). find_chan a x.device.chans) (at_response_clcc-entry w str d r i e f)
    ∙ (clcc_entry-IsOn a c (w 0) r (none_alive d.device.chans d)
        (subst (λ (x : Device). pvt_find_cpvt x r.call_idx ≢ some a) (sym same) n) m
        (record { found = ap (λ (x : Device). find_chan a x.chans) same ∙ h })).found
