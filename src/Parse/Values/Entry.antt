-- ===== src/Parse/Values/Entry.antt =====
-- A line of +CLCC is read as the numbers and the text that it is made of.
use chan_svistok.Base.{
  ◌<◌, ℕ, suc, ◌+◌, ◌≡◌, refl, ap, subst, ◌∙◌, List, [], ◌∷◌, ◌++◌, Bool, false, Option, some,
  length, length-append, drop, arith, ascii,
}
use mathlib.Core.List.{append_assoc}
use chan_svistok.Parse.{marks, string_at, unquote}
use chan_svistok.Parse.Marks.{Field, line_of, Free, ends_of, mark_line-line_of}
use chan_svistok.Parse.Scan.{is_digit, AllDigits, IsNumber, scan_unsigned, value, scan_unsigned_lem}
use chan_svistok.Parse.Fields.{Clean, written, written-Free, unquote-written}
use chan_svistok.Parse.Values.{Clcc, at_parse_clcc}

-- How long fields are with their delimiters.
unfoldable pub size_of : List Field → ℕ
size_of [] = 0
size_of (f ∷ fs) = length f.0 + 1 + size_of fs

drop-behind : (xs ys : List ℕ) (k : ℕ) → drop (length xs + k) (xs ++ ys) ≡ drop k ys
drop-behind [] ys k = ap (λ n. drop n ys) (omega arith)
drop-behind (x ∷ xs) ys k =
    ap (λ n. drop n (x ∷ (xs ++ ys))) {x = suc (length xs) + k} {y = suc (length xs + k)}
      (omega arith)
    ∙ drop-behind xs ys k

pub drop-line_of :
    (fs gs : List Field) (rest : List ℕ)
    → drop (size_of fs) (line_of (fs ++ gs) rest) ≡ line_of gs rest
unfolding size_of
drop-line_of [] gs rest = refl
drop-line_of (f ∷ fs) gs rest =
    ap (λ n. drop n (line_of (f ∷ (fs ++ gs)) rest)) {x = length f.0 + 1 + size_of fs}
      {y = length f.0 + suc (size_of fs)} (omega arith)
    ∙ drop-behind f.0 (f.1 ∷ line_of (fs ++ gs) rest) (suc (size_of fs))
    ∙ drop-line_of fs gs rest

pub digits-Free : (b : ℕ) (ds : List ℕ) → b < b'0' → AllDigits ds → Free b ds
digits-Free b [] l a = tt
digits-Free b (d ∷ ds) l a = (omega (arith, a.0), digits-Free b ds l a.2)

pub line_of-tail : (fs : List Field) (xs ys : List ℕ) → line_of fs xs ++ ys ≡ line_of fs (xs ++ ys)
line_of-tail [] xs ys = refl
line_of-tail (f ∷ fs) xs ys =
    append_assoc f.0 (f.1 ∷ line_of fs xs) ys ∙ ap (λ zs. f.0 ++ (f.1 ∷ zs)) (line_of-tail fs xs ys)

pub length-line_of :
    (fs : List Field) (xs : List ℕ) → length (line_of fs xs) ≡ size_of fs + length xs
unfolding size_of
length-line_of [] xs = omega arith
length-line_of (f ∷ fs) xs =
    omega (arith, length-append f.0 (f.1 ∷ line_of fs xs), length-line_of fs xs)

-- A number that stands behind some fields of a line.
scan-field :
    (fs gs : List Field) (ds : List ℕ) (c : ℕ) (rest tail : List ℕ) (k : ℕ)
    → k ≡ size_of fs
    → line_of gs rest ≡ ds ++ (c ∷ tail)
    → IsNumber ds
    → is_digit c ≡ false
    → scan_unsigned (drop k (line_of (fs ++ gs) rest)) ≡ some (value ds)
scan-field fs gs ds c rest tail k e is d n =
    ap scan_unsigned (ap (λ m. drop m (line_of (fs ++ gs) rest)) e ∙ drop-line_of fs gs rest ∙ is)
    ∙ scan_unsigned_lem ds tail c d n

-- The fields of a line, and what is read of it.
module _ (q : Bool) (head id dir stat mode mpty number toa rest : List ℕ) (c : ℕ) where
  abbrev pub before : List Field
  before = (head, b':') ∷ (id, b',') ∷ (dir, b',') ∷ (stat, b',') ∷ (mode, b',') ∷ []

  abbrev pub fields : List Field
  fields =
      (head, b':')
      ∷ (id, b',')
      ∷ (dir, b',')
      ∷ (stat, b',')
      ∷ (mode, b',')
      ∷ (mpty, b',')
      ∷ (written q number, b',')
      ∷ []

  abbrev pub text : List ℕ
  text = line_of fields (toa ++ (c ∷ rest))

  -- The numbers and the text are those of the line.
  pub record Stored (o : Option Clcc) : Type 0 where
    pub found : Clcc
    pub is_found : o ≡ some found
    pub id_read : found.call_idx ≡ value id
    pub dir_read : found.dir ≡ value dir
    pub stat_read : found.state ≡ value stat
    pub mode_read : found.mode ≡ value mode
    pub mpty_read : found.mpty ≡ value mpty
    pub toa_read : found.toa ≡ value toa
    pub number_read : string_at found.number.text found.number.start ≡ number

  -- The numbers of the line.
  pub record AreNumbers : Type 0 where
    pub id_is : IsNumber id
    pub dir_is : IsNumber dir
    pub stat_is : IsNumber stat
    pub mode_is : IsNumber mode
    pub mpty_is : IsNumber mpty
    pub toa_is : IsNumber toa

  -- The places of the delimiters before and behind the number, and what is stored of the line.
  unfoldable pub m₅ : ℕ
  m₅ =
      0
      + length head
      + 1
      + length id
      + 1
      + length dir
      + 1
      + length stat
      + 1
      + length mode
      + 1
      + length mpty

  unfoldable pub m₆ : ℕ
  m₆ = m₅ + 1 + length (written q number)

  abbrev pub stored : Clcc
  stored = record {
    call_idx = value id;
    dir = value dir;
    state = value stat;
    mode = value mode;
    mpty = value mpty;
    number = unquote text m₅ m₆;
    toa = value toa;
  }

  module _ (h : Free b':' head) (a : AreNumbers) (t : Clean number) (n : is_digit c ≡ false) where
    marks_are : marks (ascii ":,,,,,,") text ≡ ends_of 0 fields
    marks_are = mark_line-line_of 0 fields (toa ++ (c ∷ rest)) (
      h,
      (
        digits-Free b',' id (omega arith) a.id_is.all_digits,
        (
          digits-Free b',' dir (omega arith) a.dir_is.all_digits,
          (
            digits-Free b',' stat (omega arith) a.stat_is.all_digits,
            (
              digits-Free b',' mode (omega arith) a.mode_is.all_digits,
              (
                digits-Free b',' mpty (omega arith) a.mpty_is.all_digits,
                (written-Free q number t.0, tt),
              ),
            ),
          ),
        ),
      ),
    )

    number_is : string_at (unquote text m₅ m₆).text (unquote text m₅ m₆).start ≡ number
    unfolding size_of m₅ m₆
    number_is =
        subst (λ whole. string_at (unquote whole m₅ m₆).text (unquote whole m₅ m₆).start ≡ number)
          (line_of-tail before mpty (b',' ∷ (written q number ++ (b',' ∷ (toa ++ (c ∷ rest))))))
          (unquote-written q (line_of before mpty) number (toa ++ (c ∷ rest)) b',' b',' m₅ m₆
            (omega arith) (omega arith) t.1 t.2 (omega (arith, length-line_of before mpty))
            (omega (arith, length-line_of before mpty)))

    id_scan : scan_unsigned (drop (0 + length head + 1) text) ≡ some (value id)
    unfolding size_of
    id_scan =
        scan-field ((head, b':') ∷ [])
          ((id, b',')
            ∷ (dir, b',')
            ∷ (stat, b',')
            ∷ (mode, b',')
            ∷ (mpty, b',')
            ∷ (written q number, b',')
            ∷ [])
          id b',' (toa ++ (c ∷ rest))
          (line_of
            ((dir, b',')
              ∷ (stat, b',')
              ∷ (mode, b',')
              ∷ (mpty, b',')
              ∷ (written q number, b',')
              ∷ [])
            (toa ++ (c ∷ rest)))
          _ (omega arith) refl a.id_is refl

    dir_scan : scan_unsigned (drop (0 + length head + 1 + length id + 1) text) ≡ some (value dir)
    unfolding size_of
    dir_scan =
        scan-field ((head, b':') ∷ (id, b',') ∷ [])
          ((dir, b',') ∷ (stat, b',') ∷ (mode, b',') ∷ (mpty, b',') ∷ (written q number, b',') ∷ [])
          dir b',' (toa ++ (c ∷ rest))
          (line_of ((stat, b',') ∷ (mode, b',') ∷ (mpty, b',') ∷ (written q number, b',') ∷ [])
            (toa ++ (c ∷ rest)))
          _ (omega arith) refl a.dir_is refl

    stat_scan :
        scan_unsigned (drop (0 + length head + 1 + length id + 1 + length dir + 1) text)
        ≡ some (value stat)
    unfolding size_of
    stat_scan =
        scan-field ((head, b':') ∷ (id, b',') ∷ (dir, b',') ∷ [])
          ((stat, b',') ∷ (mode, b',') ∷ (mpty, b',') ∷ (written q number, b',') ∷ []) stat b','
          (toa ++ (c ∷ rest))
          (line_of ((mode, b',') ∷ (mpty, b',') ∷ (written q number, b',') ∷ [])
            (toa ++ (c ∷ rest)))
          _ (omega arith) refl a.stat_is refl

    mode_scan :
        scan_unsigned
          (drop (0 + length head + 1 + length id + 1 + length dir + 1 + length stat + 1) text)
        ≡ some (value mode)
    unfolding size_of
    mode_scan =
        scan-field ((head, b':') ∷ (id, b',') ∷ (dir, b',') ∷ (stat, b',') ∷ [])
          ((mode, b',') ∷ (mpty, b',') ∷ (written q number, b',') ∷ []) mode b','
          (toa ++ (c ∷ rest))
          (line_of ((mpty, b',') ∷ (written q number, b',') ∷ []) (toa ++ (c ∷ rest))) _
          (omega arith) refl a.mode_is refl

    mpty_scan :
        scan_unsigned (
          drop
            (0
              + length head
              + 1
              + length id
              + 1
              + length dir
              + 1
              + length stat
              + 1
              + length mode
              + 1)
            text)
        ≡ some (value mpty)
    unfolding size_of
    mpty_scan =
        scan-field ((head, b':') ∷ (id, b',') ∷ (dir, b',') ∷ (stat, b',') ∷ (mode, b',') ∷ [])
          ((mpty, b',') ∷ (written q number, b',') ∷ []) mpty b',' (toa ++ (c ∷ rest))
          (line_of ((written q number, b',') ∷ []) (toa ++ (c ∷ rest))) _ (omega arith) refl
          a.mpty_is refl

    toa_scan :
        scan_unsigned (
          drop
            (0
              + length head
              + 1
              + length id
              + 1
              + length dir
              + 1
              + length stat
              + 1
              + length mode
              + 1
              + length mpty
              + 1
              + length (written q number)
              + 1)
            text)
        ≡ some (value toa)
    unfolding size_of
    toa_scan =
        scan-field
          ((head, b':')
            ∷ (id, b',')
            ∷ (dir, b',')
            ∷ (stat, b',')
            ∷ (mode, b',')
            ∷ (mpty, b',')
            ∷ (written q number, b',')
            ∷ [])
          [] toa c (toa ++ (c ∷ rest)) rest _ (omega arith) refl a.toa_is n

    pub at_parse_clcc-stored : at_parse_clcc text ≡ some stored
    unfolding at_parse_clcc m₅ m₆
    at_parse_clcc-stored =
        rw marks_are (rw (id_scan, dir_scan, stat_scan, mode_scan, mpty_scan, toa_scan) refl)

    -- `at_parse_clcc` on a line as "HEAD:ID,DIR,STAT,MODE,MPTY,NUMBER,TYPE": where the fields but NUMBER are
    -- decimal digits of numbers of 32 bits, TYPE is followed by a byte that is no digit, and NUMBER
    -- stands with or without quotes and has no quote, comma or NUL in it, the six numbers and the
    -- text are stored.
    pub at_parse_clcc-fields : Stored (at_parse_clcc text)
    at_parse_clcc-fields = record {
      found = stored;
      is_found = at_parse_clcc-stored;
      id_read = refl;
      dir_read = refl;
      stat_read = refl;
      mode_read = refl;
      mpty_read = refl;
      toa_read = refl;
      number_read = number_is;
    }
