-- ===== src/Sync/Again/Lookups.antt =====
-- What a second delivery looks up, and the savepoint around it.
use check.Common.{
  ℕ, ◌≡◌, refl, Bool, true, false, ◌⊎◌, Option, none, some, ok, err, arith, inl, inr,
  with_savepoint, Result-cases, Bool-cases, Body,
}
use check.Sync.Defs.{Bytes, Db, BatchState, OwnerType}
use check.Sync.Items.{
  check_geom, resolve_inspection, resolve_parent, resolve_dict_version, resolve_media_owner,
}

module _ {S E A : Type 0} (fault : E) (body : Body S E A) (s : S) where
  pub savepoint-cases :
      (b c : Bool)
      → ((e : E) × (with_savepoint b c fault body s ≡ (s, err e)))
        ⊎ ((a : A) × (s' : S) × (body s ≡ ok (a, s'))
            × (with_savepoint b c fault body s ≡ (s', ok a)))
  unfolding with_savepoint
  savepoint-cases true c = inl (fault, refl)
  savepoint-cases false c = elim (Result-cases (body s)) [
    | inr (e, u) ↦ inl (e, rw u refl)
    | inl ((a, s'), u) ↦ elim (Bool-cases c) [
      | inl f ↦ inl (fault, rw (u, f) refl)
      | inr f ↦ inr (a, s', u, rw (u, f) refl)
    ]
  ]

  pub savepoint-ok :
      (a : A) (s' : S) → body s ≡ ok (a, s') → with_savepoint false false fault body s ≡ (s', ok a)
  unfolding with_savepoint
  savepoint-ok a s' h = rw h refl

pub resolve_inspection-again :
    (b : Bool) (uuid : ℕ) (db db' : Db) (st : BatchState) (id : ℕ)
    → db'.inspections ≡ db.inspections
    → resolve_inspection b uuid db st ≡ ok id
    → resolve_inspection false uuid db' st ≡ ok id
unfolding resolve_inspection
resolve_inspection-again b uuid db db' st id same h = ground arith

pub resolve_parent-again :
    (b : Bool) (uuid : Option ℕ) (db db' : Db) (st : BatchState) (id : Option ℕ)
    → db'.inspections ≡ db.inspections
    → resolve_parent b uuid db st ≡ ok id
    → resolve_parent false uuid db' st ≡ ok id
resolve_parent-again b none db db' st id same h = h
resolve_parent-again b (some uuid) db db' st id same h =
    elim (Result-cases (resolve_inspection b uuid db st)) [
      | inr (e, u) ↦ absurd (cc (rw u at h))
      | inl (i, u) ↦
          let k : some i ≡ id = cc (rw u at h) in
          rw (resolve_inspection-again b uuid db db' st i same u) (rw k refl)
    ]

pub resolve_dict_version-again :
    (b : Bool) (v : Option ℕ) (db db' : Db) (n : ℕ)
    → db'.problem_type_version ≡ db.problem_type_version
    → resolve_dict_version b v db ≡ ok n
    → resolve_dict_version false v db' ≡ ok n
unfolding resolve_dict_version
resolve_dict_version-again b v db db' n same h = ground arith

pub resolve_media_owner-again :
    (b : Bool) (type : OwnerType) (uuid : Option ℕ) (db db' : Db) (st : BatchState) (id : ℕ)
    → db'.inspections ≡ db.inspections
    → db'.problems ≡ db.problems
    → resolve_media_owner b type uuid db st ≡ ok id
    → resolve_media_owner false type uuid db' st ≡ ok id
unfolding resolve_media_owner
resolve_media_owner-again b type uuid db db' st id same same' h = ground arith

module _ (encode : ℕ → ℕ → Option Bytes) (valid_geom : Bytes → Bool) where
  pub check_geom-again :
      (b : Bool) (geom : Bytes) (u : Unit {0})
      → check_geom encode valid_geom b geom ≡ ok u
      → check_geom encode valid_geom false geom ≡ ok tt
  unfolding check_geom
  check_geom-again b geom u h = ground arith
