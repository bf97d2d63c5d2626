-- ===== src/Mix/Inv.antt =====
-- The invariant of the mix buffer, and that every operation keeps it.
use native.Mathlib.Decide.{ℕ_discrete}
use chan_svistok.Base.{
  ℕ, ◌+◌, ◌^◌, ◌≤◌, ◌<◌, ◌≡◌, ◌≢◌, refl, sym, ◌∙◌, inl, inr, List, [], ◌∷◌, ◌++◌, length,
  length-append, ◌==◌, if◌then◌else◌, Bool-cases, arith, add_size, sub_size, add_uint, sub_uint,
  subst, Bool, true, false,
}
use chan_svistok.Memory.{Bytes}
use chan_svistok.Ring.{RingBuffer, rb_read_upd}
use chan_svistok.Ring.Inv.{IsValid, rb_read_upd-IsValid}
use chan_svistok.Mix.{
  MixStream, MixBuffer, update, remove, local, advance, advance_all, mixb_init, mixb_attach,
  mixb_detach, mixb_read_upd,
}

-- A stream holds no more than the ring, and its write position is its own fill from the ring's read
-- position on.
pub record StreamOk (rb : RingBuffer) (stream : MixStream) : Type 0 where
  pub fill : stream.used ≤ rb.used
  pub view : IsValid (local rb stream)

abbrev pub All {ℓ} : (ℕ → Type ℓ) → List ℕ → Type ℓ
All P [] = Unit
All P (s ∷ ss) = P s × All P ss

pub All-imp {ℓ κ} :
    (P : ℕ → Type ℓ) (Q : ℕ → Type κ) (ss : List ℕ) → ((s : ℕ) → P s → Q s) → All P ss → All Q ss
All-imp P Q [] f a = tt
All-imp P Q (s ∷ ss) f a = (f s a.0, All-imp P Q ss f a.1)

abbrev pub Streams : MixBuffer → Type 0
Streams mb = All (λ s. StreamOk mb.rb (mb.store s)) mb.streams

abbrev pub listed : ℕ → List ℕ → Bool
listed s [] = false
listed s (t ∷ ts) = if t == s then true else listed s ts

abbrev pub Distinct : List ℕ → Type 0
Distinct [] = Unit {0}
Distinct (s ∷ ss) = (listed s ss ≡ false) × Distinct ss

-- The ring is valid, every attached stream is a part of it, no stream is attached twice, and
-- `attached` counts them.
pub record IsMix (mb : MixBuffer) : Type 0 where
  pub ring : IsValid mb.rb
  pub parts : Streams mb
  pub distinct : Distinct mb.streams
  pub counted : mb.attached ≡ length mb.streams

-- A stream stays a part of a ring that only grows behind what it holds.
pub StreamOk-grow :
    {rb rb' : RingBuffer} {stream : MixStream}
    → rb'.size ≡ rb.size
    → rb'.read ≡ rb.read
    → rb.used ≤ rb'.used
    → StreamOk rb stream
    → StreamOk rb' stream
unfolding local
StreamOk-grow e f g ok = ground arith

pub mixb_init-IsMix :
    (store : ℕ → MixStream) (buf : Bytes) (n : ℕ)
    → 0 < n
    → n ≤ 2 ^ 63
    → IsMix (mixb_init store buf n)
unfolding mixb_init
mixb_init-IsMix store buf n h l = record {
  ring = ground arith;
  parts = tt;
  distinct = tt;
  counted = refl;
}

All-append {ℓ} : (P : ℕ → Type ℓ) (ss : List ℕ) (s : ℕ) → All P ss → P s → All P (ss ++ (s ∷ []))
All-append P [] s a p = (p, tt)
All-append P (t ∷ ts) s a p = (a.0, All-append P ts s a.1 p)

pub update-Ok :
    (P : MixStream → Type 0) (store : ℕ → MixStream) (s t : ℕ) (new : MixStream)
    → P new
    → P (store t)
    → P (update store s new t)
unfolding update
update-Ok P store s t new p q = elim (Bool-cases (t == s)) [ inl e ↦ rw e p | inr e ↦ rw e q ]

update_self : (store : ℕ → MixStream) (s : ℕ) (new : MixStream) → update store s new s ≡ new
unfolding update
update_self store s new = ground arith

fresh-Ok : {rb : RingBuffer} → IsValid rb → StreamOk rb (record { used = 0; write = rb.read })
unfolding local
fresh-Ok v = ground arith

listed-append :
    (t : ℕ) (ss : List ℕ) (s : ℕ) → listed t ss ≡ false → t ≢ s → listed t (ss ++ (s ∷ [])) ≡ false
listed-append t [] s h ne = ground arith
listed-append t (r ∷ ss) s h ne = ground (arith, listed-append t ss s)

Distinct-append :
    (ss : List ℕ) (s : ℕ) → listed s ss ≡ false → Distinct ss → Distinct (ss ++ (s ∷ []))
Distinct-append [] s h d = (refl, tt)
Distinct-append (t ∷ ss) s h d =
    (listed-append t ss s d.0 (ground arith), Distinct-append ss s (ground arith) d.1)

-- `mixb_attach` of a stream that is not attached keeps the invariant of the mix buffer, if there
-- are fewer than 2^32 - 1 streams.
pub mixb_attach-IsMix :
    {mb : MixBuffer} (s : ℕ)
    → listed s mb.streams ≡ false
    → length mb.streams + 1 < 2 ^ 32
    → IsMix mb
    → IsMix (mixb_attach mb s)
unfolding mixb_attach add_uint
mixb_attach-IsMix {mb} s new_one small v = record {
  ring = v.ring;
  parts =
      All-append (λ t. StreamOk mb.rb (update mb.store s new t)) mb.streams s
        (All-imp (λ t. StreamOk mb.rb (mb.store t)) (λ t. StreamOk mb.rb (update mb.store s new t))
          mb.streams (λ t ok. keep t ok) v.parts)
        (subst (StreamOk mb.rb) (sym (update_self mb.store s new)) (fresh-Ok v.ring));
  distinct = Distinct-append mb.streams s new_one v.distinct;
  counted = omega (arith, v.counted, length-append mb.streams (s ∷ []));
}
  where
    new : MixStream
    new = record { used = 0; write = mb.rb.read }

    keep : (t : ℕ) → StreamOk mb.rb (mb.store t) → StreamOk mb.rb (update mb.store s new t)
    keep t ok = update-Ok (StreamOk mb.rb) mb.store s t new (fresh-Ok v.ring) ok

-- `mixb_detach` takes one entry of a listed stream away.
remove-All {ℓ} : (P : ℕ → Type ℓ) (s : ℕ) (ss : List ℕ) → All P ss → All P (remove s ss)
unfolding remove
remove-All P s [] a = tt
remove-All P s (t ∷ ts) a = elim (Bool-cases (t == s)) [
  | inl e ↦ rw e a.1
  | inr e ↦ rw e (a.0, remove-All P s ts a.1)
]

length-remove : (s : ℕ) (ss : List ℕ) → listed s ss ≡ true → length (remove s ss) + 1 ≡ length ss
unfolding remove
length-remove s [] h = cc
length-remove s (t ∷ ts) h = ground (arith, length-remove s ts)

listed-remove : (t s : ℕ) (ss : List ℕ) → listed t ss ≡ false → listed t (remove s ss) ≡ false
unfolding remove
listed-remove t s [] h = refl
listed-remove t s (r ∷ ss) h = ground (arith, listed-remove t s ss)

remove-Distinct : (s : ℕ) (ss : List ℕ) → Distinct ss → Distinct (remove s ss)
unfolding remove
remove-Distinct s [] d = tt
remove-Distinct s (t ∷ ss) d = elim (Bool-cases (t == s)) [
  | inl e ↦ rw e d.1
  | inr e ↦ rw e (listed-remove t s ss d.0, remove-Distinct s ss d.1)
]

-- `mixb_detach` of an attached stream keeps the invariant of the mix buffer, if there are fewer
-- than 2^32 streams.
pub mixb_detach-IsMix :
    {mb : MixBuffer} (s : ℕ)
    → listed s mb.streams ≡ true
    → length mb.streams < 2 ^ 32
    → IsMix mb
    → IsMix (mixb_detach mb s)
unfolding mixb_detach sub_uint
mixb_detach-IsMix {mb} s h small v = record {
  ring = v.ring;
  parts = remove-All (λ t. StreamOk mb.rb (mb.store t)) s mb.streams v.parts;
  distinct = remove-Distinct s mb.streams v.distinct;
  counted = omega (arith, v.counted, length-remove s mb.streams h);
}

-- One stream after `mixb_read_upd`.
advance-Ok :
    {rb : RingBuffer} {stream : MixStream} (len : ℕ)
    → IsValid rb
    → len < 2 ^ 64
    → StreamOk rb stream
    → let rb' = (rb_read_upd rb len).1 in StreamOk rb' (advance rb' len stream)
unfolding local advance rb_read_upd add_size sub_size
advance-Ok len v small ok = record { fill = ground arith; view = ground arith }

-- What the traversal leaves in a stream that is listed once, and in one that is not.
advance_all_unlisted :
    (rb : RingBuffer) (len : ℕ) (ss : List ℕ) (store : ℕ → MixStream) (t : ℕ)
    → listed t ss ≡ false
    → advance_all rb len ss store t ≡ store t
unfolding advance_all update
advance_all_unlisted rb len [] store t h = refl
advance_all_unlisted rb len (s ∷ ss) store t h =
    advance_all_unlisted rb len ss (update store s (advance rb len (store s))) t (ground arith)
    ∙ ground arith

advance_all-listed :
    (rb : RingBuffer) (len : ℕ) (ss : List ℕ) (store : ℕ → MixStream) (t : ℕ)
    → Distinct ss
    → listed t ss ≡ true
    → advance_all rb len ss store t ≡ advance rb len (store t)
unfolding advance_all update
advance_all-listed rb len [] store t d h = cc
advance_all-listed rb len (s ∷ ss) store t d h =
    let next = update store s (advance rb len (store s)) in
    elim (ℕ_discrete s t) [
      | yes e ↦ ground (arith, advance_all_unlisted rb len ss next t (ground (arith, d.0)))
      | no ne ↦ ground (arith, advance_all-listed rb len ss next t d.1 (ground arith))
    ]

All-of_listed {ℓ} : (P : ℕ → Type ℓ) (ss : List ℕ) → ((t : ℕ) → listed t ss ≡ true → P t) → All P ss
All-of_listed P [] f = tt
All-of_listed P (s ∷ ss) f = (f s (ground arith), All-of_listed P ss (λ t h. f t (ground arith)))

pub listed_of_All {ℓ} : (P : ℕ → Type ℓ) (ss : List ℕ) (t : ℕ) → listed t ss ≡ true → All P ss → P t
listed_of_All P [] t h a = cc
listed_of_All P (s ∷ ss) t h a = elim (ℕ_discrete s t) [
  | yes e ↦ subst P e a.0
  | no ne ↦ listed_of_All P ss t (ground arith) a.1
]

-- `mixb_read_upd` of any number of bytes, below 2^64, keeps the invariant of the mix buffer: every
-- attached stream is advanced with the ring.
pub mixb_read_upd-IsMix :
    {mb : MixBuffer} (len : ℕ) → len < 2 ^ 64 → IsMix mb → IsMix (mixb_read_upd mb len).1
unfolding mixb_read_upd
mixb_read_upd-IsMix {mb} len small v = record {
  ring = rb_read_upd-IsValid len v.ring;
  parts =
      All-of_listed (λ t. StreamOk rb' (advance_all rb' len mb.streams mb.store t)) mb.streams
        (λ t h.
          subst (StreamOk rb') (sym (advance_all-listed rb' len mb.streams mb.store t v.distinct h))
            (advance-Ok len v.ring small
              (listed_of_All (λ t. StreamOk mb.rb (mb.store t)) mb.streams t h v.parts)));
  distinct = v.distinct;
  counted = v.counted;
}
  where
    rb' : RingBuffer
    rb' = (rb_read_upd mb.rb len).1
