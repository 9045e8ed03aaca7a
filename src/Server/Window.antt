-- ===== src/Server/Window.antt =====
-- How many attempts a window lets through (backend/internal/server/middleware/ratelimit.go).
use check.Common.{
  ℕ, suc, ◌+◌, ◌-◌, ◌≤◌, ◌<◌, ◌≡◌, refl, ap, ◌∙◌, String, true, false, not, ◌&&◌, none, some, List,
  [], ◌∷◌, ltb, str_eq, str_eq_refl, str_eq_iff, if◌then◌else◌, arith, Bool-cases, inl, inr, All,
  ◌==◌,
}
use check.Server.Limit.{Counters, over}

-- An attempt: its key and its instant.
abbrev pub Attempt : Type 0
Attempt = String × ℕ

-- How many of the attempts with the key are let through, while Redis answers.
unfoldable pub passed : String → ℕ → ℕ → List Attempt → Counters → ℕ
passed key max window [] counters = 0
passed key max window ((k, now) ∷ attempts) counters =
    let next = over false k max window now counters in
    let rest = passed key max window attempts next.0 in
    if str_eq k key && not next.1 then suc rest else rest

-- The attempts come before an instant.
abbrev pub Before : ℕ → List Attempt → Type 0
Before ends = All (λ (a : Attempt). a.1 < ends)

str_eq_comm : (s t : String) → str_eq s t ≡ false → str_eq t s ≡ false
str_eq_comm s t h = elim (Bool-cases (str_eq t s)) [
  | inr e ↦ e
  | inl e ↦
      let same : t ≡ s = (str_eq_iff t s).0 e in
      absurd (cc (str_eq_refl s, ap (λ k. str_eq s k) same))
]

module _ (key : String) (max window : ℕ) (on : (max == 0) ≡ false) where
  over-other :
      (k : String) (now : ℕ) (counters : Counters)
      → str_eq k key ≡ false
      → (over false k max window now counters).0 key ≡ counters key
  unfolding over
  over-other k now counters h = rw (on, str_eq_comm k key h) refl

  over-key :
      (now n ends : ℕ) (counters : Counters)
      → counters key ≡ some (n, ends)
      → now < ends
      → let next = over false key max window now counters in
        (next.0 key ≡ some (suc n, ends)) × (next.1 ≡ ltb max (suc n))
  unfolding over
  over-key now n ends counters here early =
      let live : ltb now ends ≡ true = ground arith in
      rw (on, here, live, str_eq_refl key) (refl, refl)

  passed-counted :
      (n ends : ℕ) (attempts : List Attempt) (counters : Counters)
      → counters key ≡ some (n, ends)
      → Before ends attempts
      → passed key max window attempts counters ≤ max - n
  unfolding passed
  passed-counted n ends [] counters here before = omega arith
  passed-counted n ends ((k, now) ∷ attempts) counters here before =
      elim (Bool-cases (str_eq k key)) [
        | inr other ↦ rw other (
            passed-counted n ends attempts (over false k max window now counters).0
              (over-other k now counters other ∙ here) before.1)
        | inl e ↦
            let same : k ≡ key = (str_eq_iff k key).0 e in
            let (stored, verdict) = over-key now n ends counters here before.0 in
            let rest =
              passed-counted (suc n) ends attempts (over false key max window now counters).0 stored
                before.1 in
            elim (Bool-cases (ltb max (suc n))) [
              | inl b ↦ rw (same, str_eq_refl key, verdict, b) (omega (arith, rest))
              | inr b ↦ rw (same, str_eq_refl key, verdict, b) (grind (arith, rest, b))
            ]
      ]

-- The attempts come in a window from `start` on.
abbrev pub Within : ℕ → ℕ → List Attempt → Type 0
Within start window = All (λ (a : Attempt). (start ≤ a.1) × (a.1 < start + window))

Within-Before :
    (start window ends : ℕ) (attempts : List Attempt)
    → start + window ≤ ends
    → Within start window attempts
    → Before ends attempts
Within-Before start window ends [] h w = tt
Within-Before start window ends (a ∷ attempts) h w =
    (omega (arith, w.0), Within-Before start window ends attempts h w.1)

module _ (key : String) (max window : ℕ) (on : (max == 0) ≡ false) where
  over-first :
      (now : ℕ) (counters : Counters)
      → counters key ≡ none
      → let next = over false key max window now counters in
        (next.0 key ≡ some (1, now + window)) × (next.1 ≡ ltb max 1)
  unfolding over
  over-first now counters here = rw (on, here, str_eq_refl key) (refl, refl)

  -- Of the attempts with a key that has no counter, among any others, at most `max` are let through
  -- within the window, whatever their order and number, while Redis answers and the limit is on.
  pub passed-le :
      (start : ℕ) (attempts : List Attempt) (counters : Counters)
      → counters key ≡ none
      → Within start window attempts
      → passed key max window attempts counters ≤ max
  unfolding passed
  passed-le start [] counters here w = omega arith
  passed-le start ((k, now) ∷ attempts) counters here w = elim (Bool-cases (str_eq k key)) [
    | inr other ↦ rw other (
        passed-le start attempts (over false k max window now counters).0
          (over-other key max window on k now counters other ∙ here) w.1)
    | inl e ↦
        let same : k ≡ key = (str_eq_iff k key).0 e in
        let (stored, verdict) = over-first now counters here in
        let rest =
          passed-counted key max window on 1 (now + window) attempts
            (over false key max window now counters).0 stored
            (Within-Before start window (now + window) attempts (omega (arith, w.0)) w.1) in
        elim (Bool-cases (ltb max 1)) [
          | inl b ↦ rw (same, str_eq_refl key, verdict, b) (omega (arith, rest))
          | inr b ↦ rw (same, str_eq_refl key, verdict, b) (grind (arith, rest, b))
        ]
  ]
