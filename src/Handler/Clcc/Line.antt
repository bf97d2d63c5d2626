-- ===== src/Handler/Clcc/Line.antt =====
-- What `at_response_clcc` of at_response.c does of a list of calls whose first line is well formed.
use chan_svistok.Base.{
  ℕ, zero, suc, ◌≤◌, ◌≡◌, ◌≢◌, refl, sym, subst, ap, ◌∙◌, List, [], ◌∷◌, ◌++◌, Bool, true, false,
  length, length-append, arith, ◌==◌, if◌then◌else◌,
}
use mathlib.Core.List.{append_assoc}
use mathlib.Core.Option.{some-injective}
use chan_svistok.Parse.{end_at, until_nul, unquote}
use chan_svistok.Parse.Marks.{Free, Field, line_of}
use chan_svistok.Parse.Scan.{is_digit, AllDigits}
use chan_svistok.Parse.Fields.{Clean, written}
use chan_svistok.Parse.Values.{Clcc, at_parse_clcc}
use chan_svistok.Parse.Values.Entry.{
  AreNumbers, Stored, before, text, stored, m₅, m₆, size_of, digits-Free, line_of-tail,
  length-line_of, at_parse_clcc-stored, at_parse_clcc-fields,
}
use chan_svistok.Dongle.{Dongle}
use chan_svistok.Handler.{World}
use chan_svistok.Handler.Listing.{clcc_entry, none_alive, at_response_clcc}
use chan_svistok.Handler.Clcc.{at_response_clcc-entry}

append-Free : (d : ℕ) (xs ys : List ℕ) → Free d xs → Free d ys → Free d (xs ++ ys)
append-Free d [] ys f g = g
append-Free d (x ∷ xs) ys f g = (f.0, append-Free d xs ys f.1 g)

written-Free_of :
    (d : ℕ) (q : Bool) (number : List ℕ) → b'"' ≢ d → Free d number → Free d (written q number)
written-Free_of d true number n f = (n, append-Free d number (b'"' ∷ []) f (n, tt))
written-Free_of d false number n f = f

guarded-Free :
    (d c : ℕ) (b : Bool) (xs : List ℕ) → c ≢ d → Free d xs → Free d (if b then [] else c ∷ xs)
guarded-Free d c true xs n f = tt
guarded-Free d c false xs n f = (n, f)

abbrev AllClear : ℕ → List Field → Type 0
AllClear d [] = Unit {0}
AllClear d (f ∷ fs) = Free d f.0 × (f.1 ≢ d) × AllClear d fs

line_of-Free :
    (d : ℕ) (fs : List Field) (xs : List ℕ) → AllClear d fs → Free d xs → Free d (line_of fs xs)
line_of-Free d [] xs a f = f
line_of-Free d (g ∷ gs) xs a f =
    append-Free d g.0 (g.1 ∷ line_of gs xs) a.0 (a.1, line_of-Free d gs xs a.2 f)

-- A NUL that stands no further than behind a text without `d` ends it before any `d`.
until_nul-end_at :
    (d : ℕ) (xs ys : List ℕ) (k : ℕ)
    → k ≤ length xs
    → Free d xs
    → Free d (until_nul (end_at (xs ++ ys) k))
until_nul-end_at d [] [] k l f = tt
until_nul-end_at d [] (y ∷ ys) zero l f = tt
until_nul-end_at d [] (y ∷ ys) (suc k) l f = absurd (omega arith)
until_nul-end_at d (x ∷ xs) ys zero l f = tt
until_nul-end_at d (x ∷ xs) ys (suc k) l f =
    guarded-Free d x (x == 0) _ f.0 (until_nul-end_at d xs ys k (omega arith) f.1)

unquote-stop : (line : List ℕ) (a b : ℕ) → (unquote line a b).stop ≤ b
unfolding unquote
unquote-stop line a b = ground arith

unquote-text :
    (line : List ℕ) (a b : ℕ) → (unquote line a b).text ≡ end_at line (unquote line a b).stop
unfolding unquote
unquote-text line a b = refl

module _ (q : Bool) (head id dir stat mode mpty number toa rest : List ℕ) (c : ℕ) where
  -- The line up to its number.
  abbrev upto : List ℕ
  upto =
      line_of (before q head id dir stat mode mpty number toa rest c)
        (mpty ++ (b',' ∷ written q number))

  abbrev line : List ℕ
  line = text q head id dir stat mode mpty number toa rest c

  line-upto : line ≡ upto ++ (b',' ∷ (toa ++ (c ∷ rest)))
  line-upto =
      let fields = before q head id dir stat mode mpty number toa rest c in
      sym (
        line_of-tail fields (mpty ++ (b',' ∷ written q number)) (b',' ∷ (toa ++ (c ∷ rest)))
        ∙ ap (line_of fields)
            (append_assoc mpty (b',' ∷ written q number) (b',' ∷ (toa ++ (c ∷ rest)))))

  upto-Free :
      Free b'\r' head
      → AreNumbers q head id dir stat mode mpty number toa rest c
      → Free b'\r' number
      → Free b'\r' upto
  upto-Free h a f =
      line_of-Free b'\r' (before q head id dir stat mode mpty number toa rest c)
        (mpty ++ (b',' ∷ written q number))
        (
          h,
          omega arith,
          (
            free id a.id_is.all_digits,
            omega arith,
            (
              free dir a.dir_is.all_digits,
              omega arith,
              (
                free stat a.stat_is.all_digits,
                omega arith,
                (free mode a.mode_is.all_digits, omega arith, tt),
              ),
            ),
          ),
        )
        (append-Free b'\r' mpty (b',' ∷ written q number) (free mpty a.mpty_is.all_digits)
          (omega arith, written-Free_of b'\r' q number (omega arith) f))
    where
      free : (ds : List ℕ) → AllDigits ds → Free b'\r' ds
      free ds a = digits-Free b'\r' ds (omega arith) a

  number-Free :
      Free b'\r' head
      → AreNumbers q head id dir stat mode mpty number toa rest c
      → Free b'\r' number
      → Free b'\r' (until_nul (stored q head id dir stat mode mpty number toa rest c).number.text)
  unfolding m₅ m₆ size_of
  number-Free h a f =
      let stop =
        (unquote line (m₅ q head id dir stat mode mpty number toa rest c)
          (m₆ q head id dir stat mode mpty number toa rest c)).stop in
      let low : stop ≤ length upto = omega (
        arith,
        unquote-stop line (m₅ q head id dir stat mode mpty number toa rest c)
            (m₆ q head id dir stat mode mpty number toa rest c),
        length-line_of (before q head id dir stat mode mpty number toa rest c)
            (mpty ++ (b',' ∷ written q number)),
        length-append mpty (b',' ∷ written q number),
      ) in
      subst (λ xs. Free b'\r' (until_nul xs))
        (sym (
          unquote-text line (m₅ q head id dir stat mode mpty number toa rest c)
            (m₆ q head id dir stat mode mpty number toa rest c)))
        (subst (λ xs. Free b'\r' (until_nul (end_at xs stop))) (sym line-upto)
          (until_nul-end_at b'\r' upto (b',' ∷ (toa ++ (c ∷ rest))) stop low (upto-Free h a f)))

  -- Of a list of calls only the first line is handled, whatever follows behind its type, also further lines: on
  -- a device that is set up, `at_response_clcc` with a line as "HEAD:ID,DIR,STAT,MODE,MPTY,NUMBER,TYPE" in
  -- front does what the numbers and the text of that line ask for, and no more. The fields but NUMBER are
  -- decimal digits of numbers of 32 bits, TYPE is followed by a byte that is no digit, HEAD has no colon and no
  -- line end, and NUMBER, with or without quotes, has no quote, comma, NUL or line end.
  pub at_response_clcc-first :
      (w : ℕ → World) (d : Dongle)
      → Free b':' head
      → Free b'\r' head
      → AreNumbers q head id dir stat mode mpty number toa rest c
      → Clean number
      → Free b'\r' number
      → is_digit c ≡ false
      → d.link.initialized ≡ true
      → (s : Stored q head id dir stat mode mpty number toa rest c (at_parse_clcc line))
        × (at_response_clcc w line d ≡ clcc_entry (w 0) s.found (none_alive d.device.chans d))
  at_response_clcc-first w d h h' a t f n i =
      let s = at_parse_clcc-fields q head id dir stat mode mpty number toa rest c h a t n in
      (
        s,
        at_response_clcc-entry w line d s.found i s.is_found (
            subst (λ (r : Clcc). Free b'\r' (until_nul r.number.text))
              (some-injective _ _ (
                sym (at_parse_clcc-stored q head id dir stat mode mpty number toa rest c h a t n)
                ∙ s.is_found))
              (number-Free h' a f)),
      )
