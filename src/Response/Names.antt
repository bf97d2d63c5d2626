-- ===== src/Response/Names.antt =====
-- at_response.c: the name of a class of responses, and that no text of the table hides another.
use chan_svistok.Base.{
  ℕ, zero, suc, ◌+◌, ◌≡◌, refl, ◌∙◌, ap, List, [], ◌∷◌, ◌++◌, Bool, true, false, ◌&&◌, ◌==◌,
  if◌then◌else◌, Option, none, some, get_elem?, leb, arith, ascii, ℤ, pos, negsuc,
}
use chan_svistok.Ring.{RingBuffer, contents}
use chan_svistok.Ring.Inv.{IsValid}
use chan_svistok.Response.{ResponseEntry, res_max, unsearched, searched}
use chan_svistok.Read.{classify_from}
use chan_svistok.Read.Prefix.{is_prefix}
use chan_svistok.Read.Opening.{IsTable, of_well_formed, class_text, classify_from_lem}

-- `at_responses.responses`.
abbrev pub at_responses : List ResponseEntry
at_responses = unsearched ++ searched

abbrev name_at : Option ResponseEntry → List ℕ
name_at none = []
name_at (some e) = e.name

-- `at_res2str`; the index is the class less RES_MIN, which is -1.
unfoldable pub at_res2str : ℤ → List ℕ
at_res2str (negsuc zero) = name_at (get_elem? at_responses 0)
at_res2str (negsuc (suc n)) = ascii "UNDEFINED"
at_res2str (pos n) =
    if leb n res_max then name_at (get_elem? at_responses (n + 1)) else ascii "UNDEFINED"

-- Two texts that differ at a place that both have.
unfoldable pub apart : List ℕ → List ℕ → Bool
apart [] ys = false
apart (x ∷ xs) [] = false
apart (x ∷ xs) (y ∷ ys) = if x == y then apart xs ys else true

abbrev clear : List ℕ → List ResponseEntry → Bool
clear id [] = true
clear id (e ∷ es) = apart id e.id && clear id es

abbrev unshadowed : List ResponseEntry → Bool
unshadowed [] = true
unshadowed (e ∷ es) = clear e.id es && unshadowed es

is_prefix-apart :
    (id text rest : List ℕ) → apart id text ≡ true → is_prefix id (text ++ rest) ≡ false
unfolding is_prefix apart
is_prefix-apart [] text rest h = cc
is_prefix-apart (x ∷ xs) [] rest h = cc
is_prefix-apart (x ∷ xs) (y ∷ ys) rest h = ground (arith, is_prefix-apart xs ys rest)

is_prefix_self : (id rest : List ℕ) → is_prefix id (id ++ rest) ≡ true
unfolding is_prefix
is_prefix_self [] rest = refl
is_prefix_self (x ∷ xs) rest = ground (arith, is_prefix_self xs rest)

clear-at :
    (id : List ℕ) (es : List ResponseEntry) (i : ℕ) {e : ResponseEntry}
    → clear id es ≡ true
    → get_elem? es i ≡ some e
    → apart id e.id ≡ true
clear-at id [] i h g = cc
clear-at id (x ∷ es) zero h g = ground (arith, h, g)
clear-at id (x ∷ es) (suc i) h g = clear-at id es i (ground (arith, h)) g

class_text-at :
    (table : List ResponseEntry) (i : ℕ) (e : ResponseEntry) (rest : List ℕ)
    → unshadowed table ≡ true
    → get_elem? table i ≡ some e
    → class_text table (e.id ++ rest) ≡ e.res
unfolding class_text
class_text-at [] i e rest h g = cc
class_text-at (x ∷ es) zero e rest h g =
    let same : x ≡ e = cc in
    let found : is_prefix x.id (e.id ++ rest) ≡ true =
      ap (λ (y : ResponseEntry). is_prefix y.id (e.id ++ rest)) same ∙ is_prefix_self e.id rest in
    rw found (ap (λ (y : ResponseEntry). y.res) same)
class_text-at (x ∷ es) (suc i) e rest h g =
    rw (is_prefix-apart x.id e.id rest (clear-at x.id es i (ground (arith, h)) g))
      (class_text-at es i e rest (ground (arith, h)) g)

pub searched-IsTable : IsTable searched
searched-IsTable = of_well_formed searched refl

-- Where a valid ring holds the text of an entry of the table of the driver, with any bytes behind it, the
-- search of the table gives the class of that entry: none stands in the way of a later one.
pub classify_from-searched :
    (rb : RingBuffer) (i : ℕ) (e : ResponseEntry) (rest : List ℕ)
    → IsValid rb
    → get_elem? searched i ≡ some e
    → contents rb ≡ e.id ++ rest
    → classify_from rb searched ≡ e.res
unfolding apart
classify_from-searched rb i e rest v g held =
    classify_from_lem rb searched v searched-IsTable
    ∙ ap (class_text searched) held
    ∙ class_text-at searched i e rest refl g
