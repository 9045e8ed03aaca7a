-- ===== src/Media/Forward/Tiers.antt =====
-- The derivation of tiers advances the rows.
use check.Common.{
  ℕ, ◌+◌, refl, Bool, Option, List, [], ◌∷◌, String, arith, Bool-cases, Option-cases, Result-cases,
  inl, inr, any, ◌==◌, Result, ok, err, find?,
}
use check.Media.Keys.{Bytes, Tier}
use check.Media.Defs.{Asset, World, MediaErr, MediaConfig}
use check.Media.Service.{key_held}
use check.Media.Worker.{
  insert_sibling, derive_tier, derive_loop, then_derive, choose_group, ensure_group, with_source,
  handle_derive_tiers, derive_tiers, load_original, has_id, join_group, group_or_nil,
}
use check.Media.Forward.Order.{
  Advances, Advances-refl, Advances-trans, Advances-insert, Advances-update,
}

insert_sibling-Advances :
    (fails : Bool) (orig : Asset) (group : ℕ) (tier : Tier) (bucket : String) (key : Bytes)
    (content_type : String) (size uuid now : ℕ) (w : World)
    → Advances w.assets
        (insert_sibling fails orig group tier bucket key content_type size uuid now w).0.assets
unfolding insert_sibling
insert_sibling-Advances fails orig group tier bucket key content_type size uuid now w =
    let same = Advances-refl w.assets in
    elim (Bool-cases fails) [
      | inl e ↦ rw e same
      | inr e ↦ elim (Bool-cases (key_held bucket key w.assets)) [
        | inl k ↦ rw (e, k) same
        | inr k ↦ elim (Bool-cases (any (λ a. a.client_uuid == uuid) w.assets)) [
          | inl u ↦ rw (e, k, u) same
          | inr u ↦ rw (e, k, u) (Advances-insert _ w.assets)
        ]
      ]
    ]

ensure_group-Advances :
    (fails : Bool) (id proposed : ℕ) (w : World)
    → Advances w.assets (ensure_group fails id proposed w).0.assets
unfolding ensure_group
ensure_group-Advances fails id proposed w = elim (Bool-cases fails) [
  | inl e ↦ rw e (Advances-refl w.assets)
  | inr e ↦ elim (Option-cases (find? (has_id id) w.assets)) [
    | inl n ↦ rw (e, n) (Advances-refl w.assets)
    | inr (a, f) ↦
        rw (e, f)
          (Advances-update (has_id id) (join_group proposed) w.assets
            (λ a. (refl, refl, ground arith)))
  ]
]

module _ (resize : Bytes → ℕ → String → Bytes × String) (row_uuid : Tier → ℕ) (cfg : MediaConfig)
    (fail : ℕ → Bool) where
  derive_tier-Advances :
      (i : ℕ) (orig : Asset) (group : ℕ) (src : Bytes) (now : ℕ) (tier : Tier) (max_width : ℕ)
      (w : World)
      → Advances w.assets
          (derive_tier resize row_uuid cfg fail i orig group src now tier max_width w).0.assets
  unfolding derive_tier
  derive_tier-Advances i orig group src now tier max_width w = elim (Bool-cases (fail i)) [
    | inl e ↦ rw e (Advances-refl w.assets)
    | inr e ↦ rw e (insert_sibling-Advances (fail (i + 1)) orig group tier _ _ _ _ _ now _)
  ]

  then_derive-Advances :
      (xs : List Asset) (next : World → World × Result MediaErr (Unit {0}))
      (x : World × Result MediaErr (Unit {0}))
      → Advances xs x.0.assets
      → ((w : World) → Advances w.assets (next w).0.assets)
      → Advances xs (then_derive resize row_uuid cfg fail next x).0.assets
  then_derive-Advances xs next (w, err e) h k = h
  then_derive-Advances xs next (w, ok u) h k = Advances-trans xs w.assets _ h (k w)

  derive_loop-Advances :
      (i : ℕ) (tiers : List (Tier × ℕ)) (orig : Asset) (group : ℕ) (src : Bytes) (now : ℕ)
      (w : World)
      → Advances w.assets
          (derive_loop resize row_uuid cfg fail i tiers orig group src now w).0.assets
  unfolding derive_loop
  derive_loop-Advances i [] orig group src now w = Advances-refl w.assets
  derive_loop-Advances i ((tier, max_width) ∷ tiers) orig group src now w =
      then_derive-Advances w.assets
        (derive_loop resize row_uuid cfg fail (i + 2) tiers orig group src now)
        (derive_tier resize row_uuid cfg fail i orig group src now tier max_width w)
        (derive_tier-Advances i orig group src now tier max_width w)
        (λ w'. derive_loop-Advances (i + 2) tiers orig group src now w')

  with_source-Advances :
      (fetch : String → Bytes → Option Bytes) (orig : Asset) (now : ℕ) (xs : List Asset)
      (x : World × Result MediaErr ℕ)
      → Advances xs x.0.assets
      → Advances xs (with_source resize row_uuid cfg fail fetch orig now x).0.assets
  with_source-Advances fetch orig now xs (w, err e) h = h
  with_source-Advances fetch orig now xs (w, ok group) h =
      elim (Option-cases (fetch orig.cos_bucket orig.cos_key)) [
        | inl n ↦ rw (n, with_source) h
        | inr (src, e) ↦
            rw (e, with_source)
              (Advances-trans xs w.assets _ h
                (derive_loop-Advances 2 derive_tiers orig group src now w))
      ]

  choose_group-Advances :
      (orig : Asset) (group_uuid : ℕ) (w : World)
      → Advances w.assets (choose_group resize row_uuid cfg fail orig group_uuid w).0.assets
  unfolding choose_group
  choose_group-Advances orig group_uuid w = elim (Bool-cases (group_or_nil orig.media_group == 0)) [
    | inl e ↦ rw e (ensure_group-Advances (fail 1) orig.id group_uuid w)
    | inr e ↦ rw e (Advances-refl w.assets)
  ]

  pub derive-Advances :
      (fetch : String → Bytes → Option Bytes) (id group_uuid now : ℕ) (w : World)
      → Advances w.assets
          (handle_derive_tiers resize row_uuid cfg fail fetch id group_uuid now w).0.assets
  unfolding handle_derive_tiers
  derive-Advances fetch id group_uuid now w = elim (Result-cases (load_original (fail 0) id w)) [
    | inr (x, e) ↦ rw (e, handle_derive_tiers) (Advances-refl w.assets)
    | inl (orig, e) ↦
        rw (e, handle_derive_tiers)
          (with_source-Advances fetch orig now w.assets _ (choose_group-Advances orig group_uuid w))
  ]
