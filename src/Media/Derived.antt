-- ===== src/Media/Derived.antt =====
-- The loop over the derived tiers, run again.
use mathlib.Core.Path.{subst}
use check.Common.{
  ℕ, sym, ◌+◌, ◌≡◌, refl, Bool, true, false, ◌&&◌, List, [], ◌∷◌, String, str_eq, str_eq_refl, ◌==◌,
  any, All, arith, inl, inr, Result, ok, err, Bool-cases, any-insert_true, any-insert_new,
}
use check.Media.Keys.{Bytes, Tier, bytes_eq, derive_key}
use check.Media.Defs.{Asset, World, MediaErr, MediaConfig, bucket_for_tier}
use check.Media.Service.{key_held}
use check.Media.Worker.{insert_sibling, derive_tier, derive_loop, then_derive, sibling_row}

abbrev no_failure : ℕ → Bool
no_failure _ = false

bytes_eq_refl : (v : Bytes) → bytes_eq v v ≡ true
bytes_eq_refl [] = refl
bytes_eq_refl (a ∷ v) = ground (arith, bytes_eq_refl v)

insert_sibling-held :
    (fails : Bool) (orig : Asset) (group : ℕ) (tier : Tier) (bucket : String) (key : Bytes)
    (content_type : String) (size uuid now : ℕ) (w : World)
    → (insert_sibling fails orig group tier bucket key content_type size uuid now w).1 ≡ ok tt
    → key_held bucket key
        (insert_sibling fails orig group tier bucket key content_type size uuid now w).0.assets
      ≡ true
unfolding insert_sibling
insert_sibling-held fails orig group tier bucket key content_type size uuid now w h =
    elim (Bool-cases fails) [
      | inl e ↦ absurd (cc (rw e at h))
      | inr e ↦ elim (Bool-cases (key_held bucket key w.assets)) [
        | inl k ↦ rw (e, k) k
        | inr k ↦ elim (Bool-cases (any (λ a. a.client_uuid == uuid) w.assets)) [
          | inl u ↦ absurd (cc (rw (e, k, u) at h))
          | inr u ↦
              rw (e, k, u)
                (any-insert_new (λ a. str_eq a.cos_bucket bucket && bytes_eq a.cos_key key)
                  (sibling_row orig group tier bucket key content_type size uuid now w.next_id)
                  w.assets (rw (str_eq_refl bucket) (bytes_eq_refl key)))
        ]
      ]
    ]

insert_sibling-keeps :
    (b : String) (k : Bytes) (fails : Bool) (orig : Asset) (group : ℕ) (tier : Tier)
    (bucket : String) (key : Bytes) (content_type : String) (size uuid now : ℕ) (w : World)
    → key_held b k w.assets ≡ true
    → key_held b k
        (insert_sibling fails orig group tier bucket key content_type size uuid now w).0.assets
      ≡ true
unfolding insert_sibling
insert_sibling-keeps b k fails orig group tier bucket key content_type size uuid now w h =
    elim (Bool-cases fails) [
      | inl e ↦ rw e h
      | inr e ↦ elim (Bool-cases (key_held bucket key w.assets)) [
        | inl t ↦ rw (e, t) h
        | inr t ↦ elim (Bool-cases (any (λ a. a.client_uuid == uuid) w.assets)) [
          | inl u ↦ rw (e, t, u) h
          | inr u ↦
              rw (e, t, u)
                (any-insert_true (λ a. str_eq a.cos_bucket b && bytes_eq a.cos_key k) _ w.assets h)
        ]
      ]
    ]

-- Every tier of the list has its row.
abbrev pub Held : MediaConfig → Bytes → List (Tier × ℕ) → World → Type 0
Held cfg key tiers w =
    All (λ t. key_held (bucket_for_tier cfg t.0) (derive_key key t.0) w.assets ≡ true) tiers

module _ (resize : Bytes → ℕ → String → Bytes × String) (row_uuid : Tier → ℕ) (cfg : MediaConfig)
    (fail : ℕ → Bool) where
  tier-keeps :
      (b : String) (k : Bytes) (i : ℕ) (orig : Asset) (group : ℕ) (src : Bytes) (now : ℕ)
      (tier : Tier) (m : ℕ) (w : World)
      → key_held b k w.assets ≡ true
      → key_held b k (derive_tier resize row_uuid cfg fail i orig group src now tier m w).0.assets
        ≡ true
  unfolding derive_tier
  tier-keeps b k i orig group src now tier m w h = elim (Bool-cases (fail i)) [
    | inl e ↦ rw e h
    | inr e ↦ rw e (insert_sibling-keeps b k (fail (i + 1)) orig group tier _ _ _ _ _ now _ h)
  ]

  tier-held :
      (i : ℕ) (orig : Asset) (group : ℕ) (src : Bytes) (now : ℕ) (tier : Tier) (m : ℕ) (w : World)
      → (derive_tier resize row_uuid cfg fail i orig group src now tier m w).1 ≡ ok tt
      → key_held
          (bucket_for_tier cfg tier)
          (derive_key orig.cos_key tier)
          (derive_tier resize row_uuid cfg fail i orig group src now tier m w).0.assets
        ≡ true
  unfolding derive_tier
  tier-held i orig group src now tier m w h = elim (Bool-cases (fail i)) [
    | inl e ↦ absurd (cc (rw e at h))
    | inr e ↦ rw e (insert_sibling-held (fail (i + 1)) orig group tier _ _ _ _ _ now _ (rw e at h))
  ]

  next-keeps :
      (b : String) (k : Bytes) (next : World → World × Result MediaErr (Unit {0}))
      (x : World × Result MediaErr (Unit {0}))
      → key_held b k x.0.assets ≡ true
      → ((w : World) → key_held b k w.assets ≡ true → key_held b k (next w).0.assets ≡ true)
      → key_held b k (then_derive resize row_uuid cfg fail next x).0.assets ≡ true
  next-keeps b k next (w, err e) h step = h
  next-keeps b k next (w, ok u) h step = step w h

  loop-keeps :
      (b : String) (k : Bytes) (i : ℕ) (tiers : List (Tier × ℕ)) (orig : Asset) (group : ℕ)
      (src : Bytes) (now : ℕ) (w : World)
      → key_held b k w.assets ≡ true
      → key_held b k (derive_loop resize row_uuid cfg fail i tiers orig group src now w).0.assets
        ≡ true
  unfolding derive_loop
  loop-keeps b k i [] orig group src now w h = h
  loop-keeps b k i ((tier, m) ∷ tiers) orig group src now w h =
      next-keeps b k (derive_loop resize row_uuid cfg fail (i + 2) tiers orig group src now)
        (derive_tier resize row_uuid cfg fail i orig group src now tier m w)
        (tier-keeps b k i orig group src now tier m w h)
        (λ w'. loop-keeps b k (i + 2) tiers orig group src now w')

  next-ok :
      (next : World → World × Result MediaErr (Unit {0})) (x : World × Result MediaErr (Unit {0}))
      → (then_derive resize row_uuid cfg fail next x).1 ≡ ok tt
      → (x.1 ≡ ok tt) × (then_derive resize row_uuid cfg fail next x ≡ next x.0)
  next-ok next (w, err e) h = absurd (cc)
  next-ok next (w, ok u) h = (refl, refl)

  loop-Held :
      (i : ℕ) (tiers : List (Tier × ℕ)) (orig : Asset) (group : ℕ) (src : Bytes) (now : ℕ)
      (w : World)
      → (derive_loop resize row_uuid cfg fail i tiers orig group src now w).1 ≡ ok tt
      → Held cfg orig.cos_key tiers
          (derive_loop resize row_uuid cfg fail i tiers orig group src now w).0
  unfolding derive_loop
  loop-Held i [] orig group src now w h = tt
  loop-Held i ((tier, m) ∷ tiers) orig group src now w h =
      let first = derive_tier resize row_uuid cfg fail i orig group src now tier m w in
      let rest = derive_loop resize row_uuid cfg fail (i + 2) tiers orig group src now in
      let (done, e) = next-ok rest first h in
      subst (λ z. Held cfg orig.cos_key ((tier, m) ∷ tiers) z.0) (sym e)
        (
          loop-keeps (bucket_for_tier cfg tier) (derive_key orig.cos_key tier) (i + 2) tiers orig
              group src now first.0 (tier-held i orig group src now tier m w done),
          loop-Held (i + 2) tiers orig group src now first.0 (rw e at h),
        )

module _ (resize : Bytes → ℕ → String → Bytes × String) (row_uuid : Tier → ℕ)
    (cfg : MediaConfig) where
  Held-again :
      (i : ℕ) (tiers : List (Tier × ℕ)) (orig : Asset) (group : ℕ) (src : Bytes) (now : ℕ)
      (w : World)
      → Held cfg orig.cos_key tiers w
      → ((derive_loop resize row_uuid cfg no_failure i tiers orig group src now w).0.assets
          ≡ w.assets)
        × ((derive_loop resize row_uuid cfg no_failure i tiers orig group src now w).1 ≡ ok tt)
  unfolding derive_loop derive_tier insert_sibling
  Held-again i [] orig group src now w h = (refl, refl)
  Held-again i ((tier, m) ∷ tiers) orig group src now w h =
      rw (h.0) (Held-again (i + 2) tiers orig group src now _ h.1)

-- Once a run of the loop over the tiers has succeeded, another run for the same original, whatever
-- its group, the image code and the new UUIDs are, adds and changes no row and succeeds while no
-- call fails.
pub derive_loop-again :
    (resize resize' : Bytes → ℕ → String → Bytes × String) (row_uuid row_uuid' : Tier → ℕ)
    (cfg : MediaConfig) (fail : ℕ → Bool) (i : ℕ) (tiers : List (Tier × ℕ)) (orig : Asset)
    (group group' : ℕ) (src src' : Bytes) (now now' : ℕ) (w : World)
    → (derive_loop resize row_uuid cfg fail i tiers orig group src now w).1 ≡ ok tt
    → let w' = (derive_loop resize row_uuid cfg fail i tiers orig group src now w).0 in
      let again = derive_loop resize' row_uuid' cfg no_failure i tiers orig group' src' now' w' in
      (again.0.assets ≡ w'.assets) × (again.1 ≡ ok tt)
derive_loop-again resize resize' row_uuid row_uuid' cfg fail i tiers orig group group' src src' now
      now' w h =
    Held-again resize' row_uuid' cfg i tiers orig group' src' now' _
      (loop-Held resize row_uuid cfg fail i tiers orig group src now w h)
