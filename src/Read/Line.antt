-- ===== src/Read/Line.antt =====
-- Where a line ends in the ring, and what of it is shown and taken.
use chan_svistok.Base.{
  ℕ, zero, suc, ◌+◌, ◌-◌, ◌≤◌, ◌<◌, ◌≡◌, ◌≢◌, refl, sym, ap, ◌∙◌, List, [], ◌∷◌, ◌++◌, true, Option,
  none, some, ltb, length, length-append, get_or, take, drop, tabulate, length-tabulate, min, arith,
  add_size, sub_size, ascii, le→ltb,
}
use native.Mathlib.Decide.{dec_lt}
use chan_svistok.Memory.Find.{FirstOf, OccursAt}
use chan_svistok.Ring.{RingBuffer, IoVecs, contents, rb_read_n_iov, rb_read_upd}
use chan_svistok.Ring.Inv.{IsValid}
use chan_svistok.Ring.Window.{iov_bytes}
use chan_svistok.Ring.Read.{rb_read_upd_lem, rb_read_n_iov_lem}
use chan_svistok.Ring.Search.{rb_read_until_mem_iov}
use chan_svistok.Ring.Search.Char.{view, total}
use chan_svistok.Ring.Search.Crlf.{rb_read_until_mem_iov_two}
use chan_svistok.Read.{chars, plain_line, shown_as}

-- A line has no '\r'.
abbrev pub NoCr : List ℕ → Type 0
NoCr [] = Unit {0}
NoCr (c ∷ cs) = (c ≢ b'\r') × NoCr cs

abbrev pub framed_line : List ℕ → List ℕ → List ℕ
framed_line line rest = line ++ (b'\r' ∷ b'\n' ∷ rest)

get_or-tabulate : (n k : ℕ) (f : ℕ → ℕ) → k < n → get_or (tabulate n f) k 0 ≡ f k
get_or-tabulate zero k f l = absurd (omega arith)
get_or-tabulate (suc n) zero f l = refl
get_or-tabulate (suc n) (suc k) f l =
    get_or-tabulate n k (λ i. f (i + 1)) (omega arith) ∙ ap f (omega arith)

get_or-line :
    (line rest : List ℕ) (k : ℕ)
    → NoCr line
    → k < length line
    → get_or (framed_line line rest) k 0 ≢ b'\r'
get_or-line [] rest k n l = absurd (omega arith)
get_or-line (c ∷ cs) rest zero n l = n.0
get_or-line (c ∷ cs) rest (suc k) n l = get_or-line cs rest k n.1 (omega arith)

get_or-end :
    (line rest : List ℕ)
    → (get_or (framed_line line rest) (length line) 0 ≡ b'\r')
      × (get_or (framed_line line rest) (length line + 1) 0 ≡ b'\n')
get_or-end [] rest = (refl, refl)
get_or-end (c ∷ cs) rest = (
  (get_or-end cs rest).0,
  ap (λ k. get_or (framed_line (c ∷ cs) rest) k 0) {x = suc (length cs) + 1}
        {y = suc (length cs + 1)} (omega arith)
      ∙ (get_or-end cs rest).1,
)

take-line :
    (line rest : List ℕ) → take (length line + 1) (framed_line line rest) ≡ line ++ (b'\r' ∷ [])
take-line [] rest = refl
take-line (c ∷ cs) rest =
    ap (λ k. take k (framed_line (c ∷ cs) rest)) {x = suc (length cs) + 1} {y = suc (length cs + 1)}
      (omega arith)
    ∙ ap (◌∷◌ c) (take-line cs rest)

drop-line : (line rest : List ℕ) → drop (length line + 2) (framed_line line rest) ≡ rest
drop-line [] rest = refl
drop-line (c ∷ cs) rest =
    ap (λ k. drop k (framed_line (c ∷ cs) rest)) {x = suc (length cs) + 2} {y = suc (length cs + 2)}
      (omega arith)
    ∙ drop-line cs rest

length-framed_line :
    (line rest : List ℕ) → length (framed_line line rest) ≡ length line + 2 + length rest
length-framed_line line rest = omega (arith, length-append line (b'\r' ∷ b'\n' ∷ rest))

pub of_total :
    {n : ℕ} (found : ℕ × IoVecs)
    → total found ≡ some n
    → (ltb 0 found.0 ≡ true) × (found.1.len0 + found.1.len1 ≡ n)
of_total found h = (ground arith, ground arith)

total-read_n :
    (rb : RingBuffer) (iov : IoVecs) (len : ℕ)
    → IsValid rb
    → 0 < len
    → len ≤ rb.used
    → total (rb_read_n_iov rb iov len) ≡ some len
unfolding rb_read_n_iov add_size sub_size
total-read_n rb iov len v p l = ground arith

module _ (rb : RingBuffer) (iov : IoVecs) (line rest : List ℕ) (v : IsValid rb) (n : NoCr line)
    (held : contents rb ≡ framed_line line rest) where
  used_lem : rb.used ≡ length line + 2 + length rest
  used_lem = sym (length-tabulate rb.used (view rb)) ∙ ap length held ∙ length-framed_line line rest

  byte_at : (k : ℕ) → k < rb.used → view rb k ≡ get_or (framed_line line rest) k 0
  byte_at k l = sym (get_or-tabulate rb.used k (view rb) l) ∙ ap (λ xs. get_or xs k 0) held

  ends_here : OccursAt (view rb) (chars (ascii "\r\n")) 2 (length line)
  ends_here zero l =
      byte_at (length line + 0) (omega (arith, used_lem))
      ∙ ap (λ k. get_or (framed_line line rest) k 0) {x = length line + 0} (omega arith)
      ∙ (get_or-end line rest).0
  ends_here (suc zero) l =
      byte_at (length line + 1) (omega (arith, used_lem)) ∙ (get_or-end line rest).1
  ends_here (suc (suc k)) l = absurd (omega arith)

  not_before : (k : ℕ) → k < length line → ¬ OccursAt (view rb) (chars (ascii "\r\n")) 2 k
  not_before k l o =
      get_or-line line rest k n l
        (sym (byte_at k (omega (arith, used_lem))) ∙ ap (view rb) (omega arith) ∙ o 0 (omega arith))

  pub line_found :
      total (rb_read_until_mem_iov rb iov (chars (ascii "\r\n")) 2) ≡ some (length line)
  line_found =
      first_is (total (rb_read_until_mem_iov rb iov (chars (ascii "\r\n")) 2))
        (rb_read_until_mem_iov_two rb iov (chars (ascii "\r\n")) v (omega (arith, used_lem)))
    where
      first_is :
          (o : Option ℕ)
          → FirstOf (OccursAt (view rb) (chars (ascii "\r\n")) 2) (rb.used - 1) o
          → o ≡ some (length line)
      first_is none f = absurd (f (length line) (omega (arith, used_lem)) ends_here)
      first_is (some p) f = elim (dec_lt p (length line)) [
        | yes l ↦ absurd (not_before p l f.1)
        | no g ↦ elim (dec_lt (length line) p) [
          | yes l ↦ absurd (f.2 (length line) l ends_here)
          | no h ↦ ap some (omega arith)
        ]
      ]

  pub shown_lem :
      (iov' : IoVecs)
      → (iov_bytes rb.buffer (rb_read_n_iov rb iov' (length line + 1)) ≡ line ++ (b'\r' ∷ []))
        × (total (rb_read_n_iov rb iov' (length line + 1)) ≡ some (length line + 1))
  shown_lem iov' = (
    (rb_read_n_iov_lem iov' (length line + 1) v).0
        ∙ rw (le→ltb rb.used (length line + 1) (omega (arith, used_lem)))
            (ap (take (length line + 1)) held ∙ take-line line rest),
    total-read_n rb iov' (length line + 1) v (omega arith) (omega (arith, used_lem)),
  )

  -- The line that is shown, with its '\r'.
  pub plain_line_lem :
      (read_result : ℕ)
      → plain_line read_result rb iov
        ≡ shown_as rb (
            rb_read_n_iov rb
              (rb_read_until_mem_iov rb iov (chars (ascii "\r\n")) 2).1
              (length line + 1))
  unfolding plain_line add_size
  plain_line_lem read_result =
      let (test, len) =
        of_total (rb_read_until_mem_iov rb iov (chars (ascii "\r\n")) 2) line_found in
      rw (test, len)
        (ap
          (λ s.
            shown_as rb
              (rb_read_n_iov rb (rb_read_until_mem_iov rb iov (chars (ascii "\r\n")) 2).1 s))
          (omega (arith, v.small, v.used_in, used_lem)))

  pub contents-taken : contents (rb_read_upd rb (length line + 2)).1 ≡ rest
  contents-taken =
      (rb_read_upd_lem (length line + 2) v).1
      ∙ ap (λ k. drop k (contents rb)) {x = min (length line + 2) rb.used} {y = length line + 2}
          (omega (arith, used_lem))
      ∙ ap (drop (length line + 2)) held
      ∙ drop-line line rest
