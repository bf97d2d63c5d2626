-- ===== src/Handler/Tests.antt =====
-- A list of two calls that is reported to a device with two others.
use chan_svistok.Base.{
  ◌≤◌, cases, ℕ, ◌≡◌, refl, List, [], ◌∷◌, true, false, some, arith, ascii, pos,
}
use mathlib.Core.Option.{none-ne-some, some-injective}
use chan_svistok.CharConv.{text, unknown}
use chan_svistok.Parse.{unquote, mark_line, until_nul}
use chan_svistok.Parse.Marks.{Free, lacks-Free}
use chan_svistok.Queue.{wrote}
use chan_svistok.Calls.{find_chan, find_idx, pvt_find_cpvt}
use chan_svistok.Calls.Inv.{IsTallied}
use chan_svistok.Response.{res_clcc}
use chan_svistok.Parse.Values.{Clcc, at_parse_clcc}
use chan_svistok.Dongle.{Dongle}
use chan_svistok.Dongle.Sample.{device_of-IsTallied, started, held, talking}
use chan_svistok.Handler.{World}
use chan_svistok.Handler.Dispatch.{at_response}
use chan_svistok.Handler.Listing.{clcc_loop, at_response_clcc, clcc_entry, none_alive}
use chan_svistok.Handler.Clcc.Rounds.{clcc_loop-ends}
use chan_svistok.Handler.Clcc.{at_response_clcc-keeps}
use chan_svistok.Handler.Clcc.Line.{at_response_clcc-first}
use chan_svistok.Parse.Scan.{IsNumber, value_from}
use chan_svistok.Parse.Values.Entry.{AreNumbers, Stored}
use chan_svistok.Handler.Tallied.Whole.{at_response-IsTallied}

abbrev world : World
world = record {
  env = λ n. record { literal_at = λ str. 100; room = some 900; device = wrote 50 ∷ []; now = 7 };
  mem = λ n. 901;
  text_mem = λ n. some 902;
  smsaspdu = true;
  disablesms = false;
  autodeletesms = true;
  fas = false;
  group_295 = false;
  multiband = false;
  nosim2offline = false;
  no_result = false;
  pipe = pos 0;
  ends = (
    record { getfl = pos 0; getfd = pos 0; setfl = pos 0; setfd = pos 0 },
    record { getfl = pos 0; getfd = pos 0; setfl = pos 0; setfd = pos 0 },
  );
  call_mem = some 300;
  channel = true;
  pbx = true;
  iconv = record { ucs2_to_utf8 = λ str n. text str; utf8_to_ucs2 = λ str n. text str };
  cds_enc = unknown;
  einval = λ str. false;
}

abbrev busy : Dongle
busy = started (held ∷ (talking ∷ [])) []

-- Two incoming calls, on two lines.
abbrev two_calls : List ℕ
two_calls = ascii "+CLCC: 5,1,4,0,0,\"+7\",145\r\n+CLCC: 6,1,4,0,0,\"+8\",145"

abbrev entry : Clcc
entry = record {
  call_idx = 5;
  dir = 1;
  state = 4;
  mode = 0;
  mpty = 0;
  number = unquote two_calls 16 21;
  toa = 145;
}

-- What stands behind the first line, with another one.
abbrev two_lines : List ℕ
two_lines = ascii "\n+CLCC:6,1,4,0,0,\"+8\",9"

digit-IsNumber : (d : ℕ) → 48 ≤ d → d ≤ 57 → IsNumber (d ∷ [])
unfolding value_from
digit-IsNumber d l h = record {
  not_empty = omega arith;
  all_digits = (l, h, tt);
  small = omega arith;
}

two_calls_first : at_parse_clcc two_calls ≡ some entry
unfolding at_parse_clcc mark_line
two_calls_first = refl

before_end : Free b'\r' (until_nul entry.number.text)
unfolding unquote
before_end = lacks-Free b'\r' (until_nul entry.number.text) refl

busy-IsTallied : IsTallied busy.device
busy-IsTallied = device_of-IsTallied busy.device.chans [] (omega arith)

at_response-IsTallied_example : IsTallied (at_response_clcc (λ n. world) two_calls busy).device
unfolding at_response cases
at_response-IsTallied_example =
    at_response-IsTallied (λ n. world) res_clcc two_calls busy
      (pos 0, at_response_clcc (λ n. world) two_calls busy) busy-IsTallied (omega arith) refl

entry-AreNumbers :
    AreNumbers true
      (ascii "+CLCC")
      (ascii "5")
      (ascii "1")
      (ascii "4")
      (ascii "0")
      (ascii "0")
      (ascii "+7")
      (ascii "9")
      two_lines
      b'\r'
entry-AreNumbers = record {
  id_is = digit-IsNumber b'5' (omega arith) (omega arith);
  dir_is = digit-IsNumber b'1' (omega arith) (omega arith);
  stat_is = digit-IsNumber b'4' (omega arith) (omega arith);
  mode_is = digit-IsNumber b'0' (omega arith) (omega arith);
  mpty_is = digit-IsNumber b'0' (omega arith) (omega arith);
  toa_is = digit-IsNumber b'9' (omega arith) (omega arith);
}

at_response_clcc-first_example :
    (s : Stored true
      (ascii "+CLCC")
      (ascii "5")
      (ascii "1")
      (ascii "4")
      (ascii "0")
      (ascii "0")
      (ascii "+7")
      (ascii "9")
      two_lines
      b'\r'
      (at_parse_clcc (ascii "+CLCC:5,1,4,0,0,\"+7\",9\r\n+CLCC:6,1,4,0,0,\"+8\",9")))
    × (at_response_clcc
          (λ n. world)
          (ascii "+CLCC:5,1,4,0,0,\"+7\",9\r\n+CLCC:6,1,4,0,0,\"+8\",9")
          busy
        ≡ clcc_entry world s.found (none_alive busy.device.chans busy))
at_response_clcc-first_example =
    at_response_clcc-first true (ascii "+CLCC") (ascii "5") (ascii "1") (ascii "4") (ascii "0")
      (ascii "0") (ascii "+7") (ascii "9") two_lines b'\r' (λ n. world) busy
      (lacks-Free b':' (ascii "+CLCC") refl) (lacks-Free b'\r' (ascii "+CLCC") refl)
      entry-AreNumbers
      (
        lacks-Free b',' (ascii "+7") refl,
        lacks-Free b'"' (ascii "+7") refl,
        lacks-Free 0 (ascii "+7") refl,
      )
      (lacks-Free b'\r' (ascii "+7") refl) refl refl

at_response_clcc-keeps_example :
    find_chan 200 (at_response_clcc (λ n. world) two_calls busy).device.chans ≡ some talking
unfolding find_chan pvt_find_cpvt find_idx
at_response_clcc-keeps_example =
    at_response_clcc-keeps (λ n. world) two_calls busy entry 200 talking refl two_calls_first
      before_end refl (none-ne-some 200) (λ e. absurd (omega (arith, some-injective 300 200 e)))

clcc_loop-ends_example :
    clcc_loop (λ n. world) 100 two_calls busy ≡ clcc_loop (λ n. world) 60 two_calls busy
clcc_loop-ends_example =
    clcc_loop-ends (λ n. world) 60 100 two_calls busy (omega arith) (omega arith)
