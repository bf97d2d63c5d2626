-- ===== src/Read/Total.antt =====
-- `at_read_result_iov` ends, and takes bytes only off the front of the ring.
use chan_svistok.Base.{
  ℕ, zero, suc, ◌+◌, ◌<◌, ◌≡◌, refl, sym, ap, ◌∙◌, inl, inr, List, [], ◌∷◌, Bool, true, false,
  Option, some, ltb, ◌==◌, if◌then◌else◌, Bool-cases, ltb→lt, drop, min, arith, add_size, ascii,
  pos, negsuc, subst, ℤ,
}
use chan_svistok.Ring.{RingBuffer, IoVecs, contents, rb_read_upd}
use chan_svistok.Ring.Inv.{IsValid, rb_read_upd-IsValid}
use chan_svistok.Ring.Read.{rb_read_upd_lem, rb_read_upd_fields}
use chan_svistok.Ring.Search.{rb_read_until_char_iov}
use chan_svistok.Ring.Search.Char.{view, total, rb_read_until_char_iov_lem}
use chan_svistok.Memory.Find.{FirstOf}
use chan_svistok.Read.{
  Result, Next, done, call, starts, compare_text, Start, cssi, framed, prompt, multiline, report,
  other, start_of, skip_line, outside_at, outside, inside_at, inside, plain_line, result_step,
  at_read_result_iov,
}

-- A call goes on with at least one byte taken off; a return leaves the ring as it is.
abbrev Progress : RingBuffer → Next → Type 0
Progress rb (done r) = r.rb ≡ rb
Progress rb (call read_result rb' iov) =
    (0 < rb.used) × ((k : ℕ) × (0 < k) × (rb' ≡ (rb_read_upd rb k).1))

Progress-if :
    (rb : RingBuffer) (b : Bool) (x y : Next)
    → Progress rb x
    → Progress rb y
    → Progress rb (if b then x else y)
Progress-if rb true x y p q = p
Progress-if rb false x y p q = q

skip_line-Progress :
    (rb : RingBuffer) (iov : IoVecs) → IsValid rb → 0 < rb.used → Progress rb (skip_line rb iov)
unfolding skip_line add_size
skip_line-Progress rb iov v p =
    Progress-if rb (starts rb (ascii "\n")) _ _ (p, (1, omega arith, refl)) (p, (s, s_pos, refl))
  where
    found : ℕ × IoVecs
    found = rb_read_until_char_iov rb iov b'\r'

    s : ℕ
    s = if ltb 0 found.0 then add_size (add_size found.1.len0 found.1.len1) 1 else rb.used

    place : FirstOf (λ k. view rb k ≡ b'\r') rb.used (total found)
    place = rb_read_until_char_iov_lem rb iov b'\r' v

    some_total : ltb 0 found.0 ≡ true → total found ≡ some (found.1.len0 + found.1.len1)
    some_total e = ground arith

    s_pos : 0 < s
    s_pos = elim (Bool-cases (ltb 0 found.0)) [
      | inl e ↦
          let first = subst (FirstOf (λ k. view rb k ≡ b'\r') rb.used) (some_total e) place in
          let below : found.1.len0 + found.1.len1 < rb.used = first.0 in rw e (omega arith)
      | inr e ↦ rw e p
    ]

outside_at-Progress :
    (c : ℤ) (rb : RingBuffer) (iov : IoVecs)
    → IsValid rb
    → 0 < rb.used
    → Progress rb (outside_at c rb iov)
unfolding outside_at
outside_at-Progress (pos zero) rb iov v p = (p, (2, omega arith, refl))
outside_at-Progress (pos (suc n)) rb iov v p = skip_line-Progress rb iov v p
outside_at-Progress (negsuc n) rb iov v p = refl

inside_at-Progress :
    (start : Start) (read_result : ℕ) (rb : RingBuffer) (iov : IoVecs)
    → 0 < rb.used
    → Progress rb (inside_at start read_result rb iov)
unfolding inside_at plain_line
inside_at-Progress cssi read_result rb iov p = refl
inside_at-Progress framed read_result rb iov p = (p, (2, omega arith, refl))
inside_at-Progress prompt read_result rb iov p = refl
inside_at-Progress multiline read_result rb iov p = refl
inside_at-Progress report read_result rb iov p = refl
inside_at-Progress other read_result rb iov p = ground arith

result_step-Progress :
    (read_result : ℕ) (rb : RingBuffer) (iov : IoVecs)
    → IsValid rb
    → Progress rb (result_step read_result rb iov)
unfolding result_step outside inside
result_step-Progress read_result rb iov v = elim (Bool-cases (ltb 0 rb.used)) [
  | inl e ↦ rw e (
      Progress-if rb (read_result == 0) (outside rb iov) (inside read_result rb iov)
        (outside_at-Progress (compare_text rb (ascii "\r\n")) rb iov v (ltb→lt 0 rb.used e))
        (inside_at-Progress (start_of rb) read_result rb iov (ltb→lt 0 rb.used e)))
  | inr e ↦ rw e refl
]

drop-nil : (a : ℕ) → drop {A = ℕ} a [] ≡ []
drop-nil zero = refl
drop-nil (suc a) = refl

drop-drop : (a b : ℕ) (xs : List ℕ) → drop a (drop b xs) ≡ drop (b + a) xs
drop-drop a zero xs = ap (λ n. drop n xs) {x = a} (omega arith)
drop-drop a (suc b) [] = drop-nil a ∙ sym (drop-nil (suc b + a))
drop-drop a (suc b) (x ∷ xs) =
    drop-drop a b xs ∙ ap (λ n. drop n (x ∷ xs)) {x = suc (b + a)} (omega arith)

used_less :
    (rb : RingBuffer) (k : ℕ)
    → IsValid rb
    → 0 < k
    → 0 < rb.used
    → (rb_read_upd rb k).1.used < rb.used
used_less rb k v p q = omega (arith, (rb_read_upd_fields rb k v).1)

abbrev Ends : RingBuffer → Option Result → Type 0
Ends rb o =
    (r : Result) × (o ≡ some r) × IsValid r.rb × ((k : ℕ) × (contents r.rb ≡ drop k (contents rb)))

abbrev go_on : ℕ → Next → Option Result
go_on fuel x = elim x [
  | done r ↦ some r
  | call next rb' iov' ↦ at_read_result_iov fuel next rb' iov'
]

go_on-Ends :
    (fuel : ℕ) (rb : RingBuffer) (x : Next)
    → IsValid rb
    → rb.used < suc fuel
    → Progress rb x
    → ((next : ℕ) (rb' : RingBuffer) (iov' : IoVecs)
        → IsValid rb'
        → rb'.used < fuel
        → Ends rb' (at_read_result_iov fuel next rb' iov'))
    → Ends rb (go_on fuel x)
go_on-Ends fuel rb (done r) v l e rest = (r, refl, subst IsValid (sym e) v, (0, ap contents e))
go_on-Ends fuel rb (call next rb' iov') v l (p, (k, k_pos, e)) rest =
    let v' = subst IsValid (sym e) (rb_read_upd-IsValid k v) in
    let less = used_less rb k v k_pos p in
    let (r, s, valid, (j, left)) = rest next rb' iov' v' (omega (arith, ap (λ b. b.used) e)) in
    (
      r,
      s,
      valid,
      (
        min k rb.used + j,
        left
            ∙ ap (λ b. drop j (contents b)) e
            ∙ ap (drop j) (rb_read_upd_lem k v).1
            ∙ drop-drop j (min k rb.used) (contents rb),
      ),
    )

-- With fuel for more calls than there are bytes, `at_read_result_iov` on a valid ring returns; the
-- ring is valid again and holds what is left of its bytes behind a number of them.
pub at_read_result_iov-total :
    (fuel read_result : ℕ) (rb : RingBuffer) (iov : IoVecs)
    → IsValid rb
    → rb.used < fuel
    → (r : Result) × (at_read_result_iov fuel read_result rb iov ≡ some r)
      × IsValid r.rb
      × ((k : ℕ) × (contents r.rb ≡ drop k (contents rb)))
unfolding at_read_result_iov
at_read_result_iov-total zero read_result rb iov v l = absurd (omega arith)
at_read_result_iov-total (suc fuel) read_result rb iov v l =
    go_on-Ends fuel rb (result_step read_result rb iov) v l
      (result_step-Progress read_result rb iov v) (at_read_result_iov-total fuel)
