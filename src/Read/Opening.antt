-- ===== src/Read/Opening.antt =====
-- The tests on how a response begins and the search of the table, on the text that the ring holds.
use chan_svistok.Base.{
  ℕ, ◌<◌, ◌≡◌, refl, List, [], ◌∷◌, ◌++◌, Bool, true, false, ◌&&◌, ◌||◌, ◌==◌, ltb, ltb→lt,
  if◌then◌else◌, length, arith, ascii, ℤ, pos,
}
use chan_svistok.Ring.{RingBuffer, contents}
use chan_svistok.Ring.Inv.{IsValid}
use chan_svistok.Response.{ResponseEntry, res_unknown}
use chan_svistok.Read.{
  Start, cssi, framed, prompt, multiline, report, other, start_of, classify_from,
}
use chan_svistok.Read.Prefix.{is_prefix, starts_lem}
use chan_svistok.Read.Line.{NoCr}

-- `start_of` on a text.
unfoldable pub start_text : List ℕ → Start
start_text text =
    if is_prefix (ascii "+CSSI:") text
    then cssi
    else if is_prefix (ascii "\r\n+CSSU:") text
        || (is_prefix (ascii "\r\n+CMS ERROR:") text || is_prefix (ascii "\r\n+CMGS:") text)
    then framed
    else if is_prefix (ascii "> ") text
    then prompt
    else if is_prefix (ascii "+CMGR:") text
        || (is_prefix (ascii "+CNUM:") text
            || (is_prefix (ascii "ERROR+CNUM:") text || is_prefix (ascii "+CLCC:") text))
    then multiline
    else if is_prefix (ascii "+CDS:") text
    then report
    else other

-- The class of the first entry whose text the given one begins with.
unfoldable pub class_text : List ResponseEntry → List ℕ → ℤ
class_text [] text = pos res_unknown
class_text (e ∷ es) text = if is_prefix e.id text then e.res else class_text es text

-- A '\r' stands only at the end of an id, and no id is empty.
abbrev pub cr_last : List ℕ → Bool
cr_last [] = true
cr_last (c ∷ cs) = if c == b'\r' then length cs == 0 else cr_last cs

abbrev pub IsTable : List ResponseEntry → Type 0
IsTable [] = Unit {0}
IsTable (e ∷ es) = (0 < length e.id) × (cr_last e.id ≡ true) × IsTable es

abbrev pub well_formed : List ResponseEntry → Bool
well_formed [] = true
well_formed (e ∷ es) = ltb 0 (length e.id) && (cr_last e.id && well_formed es)

pub of_well_formed : (table : List ResponseEntry) → well_formed table ≡ true → IsTable table
of_well_formed [] h = tt
of_well_formed (e ∷ es) h = (
  ltb→lt 0 (length e.id) (ground (arith, h)),
  ground (arith, h),
  of_well_formed es (ground (arith, h)),
)

pub start_of_lem : (rb : RingBuffer) → IsValid rb → start_of rb ≡ start_text (contents rb)
unfolding start_of start_text
start_of_lem rb v =
    rw
      (
        starts_lem rb (ascii "+CSSI:") v (omega arith),
        starts_lem rb (ascii "\r\n+CSSU:") v (omega arith),
        starts_lem rb (ascii "\r\n+CMS ERROR:") v (omega arith),
        starts_lem rb (ascii "\r\n+CMGS:") v (omega arith),
        starts_lem rb (ascii "> ") v (omega arith),
        starts_lem rb (ascii "+CMGR:") v (omega arith),
        starts_lem rb (ascii "+CNUM:") v (omega arith),
        starts_lem rb (ascii "ERROR+CNUM:") v (omega arith),
        starts_lem rb (ascii "+CLCC:") v (omega arith),
        starts_lem rb (ascii "+CDS:") v (omega arith),
      )
      refl

pub classify_from_lem :
    (rb : RingBuffer) (table : List ResponseEntry)
    → IsValid rb
    → IsTable table
    → classify_from rb table ≡ class_text table (contents rb)
unfolding classify_from class_text
classify_from_lem rb [] v t = refl
classify_from_lem rb (e ∷ es) v t =
    rw (starts_lem rb e.id v t.0, classify_from_lem rb es v t.2) refl

-- What follows the '\r' of a line does not matter.
is_prefix-cut :
    (id line rest : List ℕ)
    → cr_last id ≡ true
    → NoCr line
    → is_prefix id (line ++ (b'\r' ∷ rest)) ≡ is_prefix id (line ++ (b'\r' ∷ []))
unfolding is_prefix
is_prefix-cut [] line rest h n = refl
is_prefix-cut (x ∷ []) [] rest h n = refl
is_prefix-cut (x ∷ (y ∷ ys)) [] rest h n = ground arith
is_prefix-cut (x ∷ xs) (c ∷ cs) rest h n = ground (arith, is_prefix-cut xs cs rest)

pub class_text-cut :
    (table : List ResponseEntry) (line rest : List ℕ)
    → IsTable table
    → NoCr line
    → class_text table (line ++ (b'\r' ∷ rest)) ≡ class_text table (line ++ (b'\r' ∷ []))
unfolding class_text
class_text-cut [] line rest t n = refl
class_text-cut (e ∷ es) line rest t n =
    rw (is_prefix-cut e.id line rest t.1 n, class_text-cut es line rest t.2 n) refl

NoCr-start :
    (xs line rest : List ℕ)
    → 0 < length line
    → NoCr line
    → is_prefix (b'\r' ∷ xs) (line ++ rest) ≡ false
unfolding is_prefix
NoCr-start xs [] rest p n = absurd (omega arith)
NoCr-start xs (c ∷ cs) rest p n = ground arith

pub start_text-cut :
    (line rest : List ℕ)
    → 0 < length line
    → NoCr line
    → start_text (line ++ (b'\r' ∷ rest)) ≡ start_text (line ++ (b'\r' ∷ []))
unfolding start_text
start_text-cut line rest p n =
    rw
      (
        is_prefix-cut (ascii "+CSSI:") line rest refl n,
        NoCr-start (ascii "\n+CSSU:") line (b'\r' ∷ rest) p n,
        NoCr-start (ascii "\n+CMS ERROR:") line (b'\r' ∷ rest) p n,
        NoCr-start (ascii "\n+CMGS:") line (b'\r' ∷ rest) p n,
        NoCr-start (ascii "\n+CSSU:") line (b'\r' ∷ []) p n,
        NoCr-start (ascii "\n+CMS ERROR:") line (b'\r' ∷ []) p n,
        NoCr-start (ascii "\n+CMGS:") line (b'\r' ∷ []) p n,
        is_prefix-cut (ascii "> ") line rest refl n,
        is_prefix-cut (ascii "+CMGR:") line rest refl n,
        is_prefix-cut (ascii "+CNUM:") line rest refl n,
        is_prefix-cut (ascii "ERROR+CNUM:") line rest refl n,
        is_prefix-cut (ascii "+CLCC:") line rest refl n,
        is_prefix-cut (ascii "+CDS:") line rest refl n,
      )
      refl
