-- ===== src/Parse/Creg/Inv.antt =====
-- The fields that the state machine of `at_parse_creg` marks.
use chan_svistok.Base.{
  ℕ, ◌+◌, ◌≤◌, ◌<◌, ◌⊎◌, ◌≡◌, refl, List, [], ◌∷◌, true, false, Bool-cases, ==→eq, lt→ltb, ltb→lt,
  Option, none, some, ◌==◌, ltb, if◌then◌else◌, length, arith, inl, inr,
}
use chan_svistok.Parse.{end_at}
use chan_svistok.Parse.Creg.{Creg, comma, creg_state, creg_loop, creg_start}

-- A pointer that is set from the given state on, at or behind `low` and below `high`.
abbrev pub Marked : ℕ → ℕ → ℕ → ℕ → Option ℕ → Type 0
Marked from state low high none = state < from
Marked from state low high (some p) = (from ≤ state) × (low ≤ p) × (p < high)

abbrev pub or_zero : Option ℕ → ℕ
or_zero none = 0
or_zero (some p) = p

-- The four pointers are set one after the other, each behind the one before.
pub record IsCreg (high : ℕ) (m : Creg) : Type 0 where
  pub state_in : m.state ≤ 8
  pub first : Marked 2 m.state 0 high m.p1
  pub second : Marked 4 m.state (or_zero m.p1) high m.p2
  pub third : Marked 6 m.state (or_zero m.p2) high m.p3
  pub fourth : Marked 8 m.state (or_zero m.p3) high m.p4

Marked-later :
    (from s s' low high high' : ℕ) (p : Option ℕ)
    → (s < from → s' < from)
    → s ≤ s'
    → high ≤ high'
    → Marked from s low high p
    → Marked from s' low high' p
Marked-later from s s' low high high' none f l h m = f m
Marked-later from s s' low high high' (some p) f l h m =
    (omega (arith, m.0), m.1, omega (arith, m.2))

-- A step to a later state in which no pointer is newly due.
later :
    (i j : ℕ) (m : Creg) (s : ℕ) (text : List ℕ)
    → IsCreg i m
    → i ≤ j
    → (s ≡ m.state)
      ⊎ ((s ≡ m.state + 1) × ((m.state ≡ 0) ⊎ ((m.state ≡ 2) ⊎ ((m.state ≡ 4) ⊎ (m.state ≡ 6)))))
    → IsCreg j (record m { state = s; text = text })
later i j m s text v l e = record {
  state_in = omega (arith, v.state_in);
  first = Marked-later 2 m.state s 0 i j m.p1 (λ h. omega arith) (omega arith) l v.first;
  second =
      Marked-later 4 m.state s (or_zero m.p1) i j m.p2 (λ h. omega arith) (omega arith) l v.second;
  third =
      Marked-later 6 m.state s (or_zero m.p2) i j m.p3 (λ h. omega arith) (omega arith) l v.third;
  fourth =
      Marked-later 8 m.state s (or_zero m.p3) i j m.p4 (λ h. omega arith) (omega arith) l v.fourth;
}

comma-IsCreg :
    (i k c : ℕ) (m : Creg)
    → (m.state ≡ 2) ⊎ ((m.state ≡ 4) ⊎ (m.state ≡ 6))
    → IsCreg k m
    → IsCreg k (comma i c m)
comma-IsCreg i k c m e v = elim (Bool-cases (c == b',')) [
  | inl t ↦ rw t (later k k m (m.state + 1) (end_at m.text i) v (omega arith) (inr (refl, inr e)))
  | inr t ↦ rw t v
]

Marked-unset :
    (from s s' low low' high high' : ℕ) (p : Option ℕ)
    → s < from
    → s' < from
    → Marked from s low high p
    → Marked from s' low' high' p
Marked-unset from s s' low low' high high' none l l' m = l'
Marked-unset from s s' low low' high high' (some p) l l' m = absurd (omega (arith, m.0))

or_zero-below : (from s low high : ℕ) (p : Option ℕ) → Marked from s low high p → or_zero p ≤ high
or_zero-below from s low high none m = omega arith
or_zero-below from s low high (some p) m = omega (arith, m.2)

-- The byte at which a field begins.
module _ (i : ℕ) (m : Creg) (v : IsCreg i m) where
  first_begins : m.state ≡ 1 → IsCreg (i + 1) (record m { p1 = some i; state = 2 })
  first_begins e = record {
    state_in = omega arith;
    first = (omega arith, omega arith, omega arith);
    second =
        Marked-unset 4 m.state 2 (or_zero m.p1) i i (i + 1) m.p2 (omega arith) (omega arith)
          v.second;
    third =
        Marked-unset 6 m.state 2 (or_zero m.p2) (or_zero m.p2) i (i + 1) m.p3 (omega arith)
          (omega arith) v.third;
    fourth =
        Marked-unset 8 m.state 2 (or_zero m.p3) (or_zero m.p3) i (i + 1) m.p4 (omega arith)
          (omega arith) v.fourth;
  }

  second_begins : m.state ≡ 3 → IsCreg (i + 1) (record m { p2 = some i; state = 4 })
  second_begins e = record {
    state_in = omega arith;
    first =
        Marked-later 2 m.state 4 0 i (i + 1) m.p1 (λ h. omega arith) (omega arith) (omega arith)
          v.first;
    second = (omega arith, or_zero-below 2 m.state 0 i m.p1 v.first, omega arith);
    third =
        Marked-unset 6 m.state 4 (or_zero m.p2) i i (i + 1) m.p3 (omega arith) (omega arith)
          v.third;
    fourth =
        Marked-unset 8 m.state 4 (or_zero m.p3) (or_zero m.p3) i (i + 1) m.p4 (omega arith)
          (omega arith) v.fourth;
  }

  third_begins : m.state ≡ 5 → IsCreg (i + 1) (record m { p3 = some i; state = 6 })
  third_begins e = record {
    state_in = omega arith;
    first =
        Marked-later 2 m.state 6 0 i (i + 1) m.p1 (λ h. omega arith) (omega arith) (omega arith)
          v.first;
    second =
        Marked-later 4 m.state 6 (or_zero m.p1) i (i + 1) m.p2 (λ h. omega arith) (omega arith)
          (omega arith) v.second;
    third = (omega arith, or_zero-below 4 m.state (or_zero m.p1) i m.p2 v.second, omega arith);
    fourth =
        Marked-unset 8 m.state 6 (or_zero m.p3) i i (i + 1) m.p4 (omega arith) (omega arith)
          v.fourth;
  }

  fourth_begins : m.state ≡ 7 → IsCreg (i + 1) (record m { p4 = some i; state = 8 })
  fourth_begins e = record {
    state_in = omega arith;
    first =
        Marked-later 2 m.state 8 0 i (i + 1) m.p1 (λ h. omega arith) (omega arith) (omega arith)
          v.first;
    second =
        Marked-later 4 m.state 8 (or_zero m.p1) i (i + 1) m.p2 (λ h. omega arith) (omega arith)
          (omega arith) v.second;
    third =
        Marked-later 6 m.state 8 (or_zero m.p2) i (i + 1) m.p3 (λ h. omega arith) (omega arith)
          (omega arith) v.third;
    fourth = (omega arith, or_zero-below 6 m.state (or_zero m.p2) i m.p3 v.third, omega arith);
  }

  stays : IsCreg (i + 1) m
  stays = later i (i + 1) m m.state m.text v (omega arith) (inl refl)

  -- What begins with `next`, in the state `k`, and where a blank is passed over; a comma may follow.
  begins :
      (c k : ℕ) (next : Creg)
      → (k ≡ 2) ⊎ ((k ≡ 4) ⊎ (k ≡ 6))
      → next.state ≡ k
      → IsCreg (i + 1) next
      → IsCreg (i + 1) (comma i c (if c == 32 then m else next))
  begins c k next e is n = elim (Bool-cases (c == 32)) [
    | inl t ↦ rw (t, no_comma t) stays
    | inr t ↦ rw t (comma-IsCreg i (i + 1) c next (omega arith) n)
  ]
    where
      no_comma : (c == 32) ≡ true → (c == b',') ≡ false
      no_comma t = ground arith

creg_state-IsCreg :
    (i c : ℕ) (m : Creg) → m.state < 8 → IsCreg i m → IsCreg (i + 1) (creg_state m.state i c m)
unfolding creg_state
creg_state-IsCreg i c m l v = elim (Bool-cases (m.state == 0)) [
  | inl e ↦
      rw (creg_state, e)
        (elim (Bool-cases (c == b':')) [
          | inl t ↦ rw t (
              later i (i + 1) m 1 m.text v (omega arith)
                (inr (omega (arith, ==→eq m.state 0 e), inl (==→eq m.state 0 e))))
          | inr t ↦ rw t (stays i m v)
        ])
  | inr e₀ ↦ elim (Bool-cases (m.state == 1)) [
    | inl e ↦
        rw (creg_state, e₀, e)
          (begins i m v c 2 (record m { p1 = some i; state = 2 }) (inl refl) refl
            (first_begins i m v (==→eq m.state 1 e)))
    | inr e₁ ↦ elim (Bool-cases (m.state == 3)) [
      | inl e ↦
          rw (creg_state, e₀, e₁, e)
            (begins i m v c 4 (record m { p2 = some i; state = 4 }) (inr (inl refl)) refl
              (second_begins i m v (==→eq m.state 3 e)))
      | inr e₃ ↦ elim (Bool-cases (m.state == 5)) [
        | inl e ↦
            rw (creg_state, e₀, e₁, e₃, e)
              (begins i m v c 6 (record m { p3 = some i; state = 6 }) (inr (inr refl)) refl
                (third_begins i m v (==→eq m.state 5 e)))
        | inr e₅ ↦ elim (Bool-cases (m.state == 7)) [
          | inl e ↦
              rw (creg_state, e₀, e₁, e₃, e₅, e)
                (elim (Bool-cases (c == 32)) [
                  | inl t ↦ rw t (stays i m v)
                  | inr t ↦ rw t (fourth_begins i m v (==→eq m.state 7 e))
                ])
          | inr e₇ ↦
              rw (creg_state, e₀, e₁, e₃, e₅, e₇, lt→ltb m.state 8 l)
                (comma-IsCreg i (i + 1) c m (ground arith) (stays i m v))
        ]
      ]
    ]
  ]
]

creg_loop-IsCreg_below :
    (i high : ℕ) (cs : List ℕ) (m : Creg)
    → i + length cs ≤ high
    → IsCreg i m
    → IsCreg high (creg_loop i cs m)
unfolding creg_loop
creg_loop-IsCreg_below i high [] m l v = later i high m m.state m.text v (omega arith) (inl refl)
creg_loop-IsCreg_below i high (c ∷ cs) m l v = elim (Bool-cases (ltb m.state 8)) [
  | inl e ↦
      rw (creg_loop, e)
        (creg_loop-IsCreg_below (i + 1) high cs (creg_state m.state i c m) (omega arith)
          (creg_state-IsCreg i c m (ltb→lt m.state 8 e) v))
  | inr e ↦ rw (creg_loop, e) (later i high m m.state m.text v (omega arith) (inl refl))
]

-- On any text the loop of `at_parse_creg` sets its four pointers one after the other: a pointer is set just from its
-- state on, it is to a byte of the text, and at or behind the one before it.
pub creg_loop-IsCreg : (text : List ℕ) → IsCreg (length text) (creg_loop 0 text (creg_start text))
creg_loop-IsCreg text =
    creg_loop-IsCreg_below 0 (length text) text (creg_start text) (omega arith) (record {
      state_in = omega arith;
      first = omega arith;
      second = omega arith;
      third = omega arith;
      fourth = omega arith;
    })
