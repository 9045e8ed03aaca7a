-- ===== src/Sync/Again/Bodies.antt =====
-- The savepoint body of a second delivery.
use check.Common.{ℕ, ◌≡◌, refl, Bool, true, false, not, Option, ok, inl, inr, Result-cases}
use check.Sync.Defs.{Bytes, Db, BatchState, Point, Problem, Media}
use check.Sync.Items.{
  PointItem, ProblemItem, MediaItem, point_body, problem_body, media_body, insert_point,
  insert_problem, insert_media, check_geom, resolve_inspection, resolve_parent,
  resolve_dict_version, resolve_media_owner, as_seq_conflict,
}
use check.Sync.Keeps.{as_seq_conflict-ok}
use check.Sync.Replay.{no_failure, upsert-again}
use check.Sync.Again.Lookups.{
  resolve_inspection-again, resolve_parent-again, resolve_dict_version-again,
  resolve_media_owner-again, check_geom-again,
}

module _ (encode : ℕ → ℕ → Option Bytes) (valid_geom : Bytes → Bool) where
  pub point_body-again :
      (fail : ℕ → Bool) (item : PointItem) (geom : Bytes) (st : BatchState) (db db' : Db) (id : ℕ)
      (b : Bool)
      → point_body encode valid_geom fail item geom st db ≡ ok ((id, b), db')
      → point_body encode valid_geom no_failure item geom st db' ≡ ok ((id, false), db')
  unfolding point_body
  point_body-again fail item geom st db db' id b h =
      elim (Result-cases (resolve_inspection (fail 2) item.inspection_client_uuid db st)) [
        | inr (e, o) ↦ absurd (cc (rw o at h))
        | inl (p, o) ↦ elim (Result-cases (check_geom encode valid_geom (fail 3) geom)) [
          | inr (e, g) ↦ absurd (cc (rw (o, g) at h))
          | inl (x, g) ↦ elim (Result-cases (as_seq_conflict (insert_point fail item geom db p))) [
            | inr (e, u) ↦ absurd (cc (rw (o, g, u) at h))
            | inl (((i, c), t), u) ↦
                let same : db' ≡ record db { points = t } = cc (rw (o, g, u) at h) in
                let same_id : id ≡ i = cc (rw (o, g, u) at h) in
                let again : insert_point no_failure item geom (record db { points = t }) p
                    ≡ ok ((i, false), t) =
                  upsert-again Point.id Point.client_uuid (λ _. true) _ _ _ _ _ _ _ _ t i c _
                    (λ n. (refl, refl, refl)) (as_seq_conflict-ok _ _ u) in
                rw
                  (
                    same,
                    same_id,
                    resolve_inspection-again (fail 2) item.inspection_client_uuid db
                        (record db { points = t }) st p refl o,
                    check_geom-again encode valid_geom (fail 3) geom x g,
                    again,
                  )
                  refl
          ]
        ]
      ]

  pub problem_body-again :
      (fail : ℕ → Bool) (item : ProblemItem) (actor : ℕ) (geom : Bytes) (st : BatchState)
      (db db' : Db) (id : ℕ) (b : Bool)
      → problem_body encode valid_geom fail item actor geom st db ≡ ok ((id, b), db')
      → problem_body encode valid_geom no_failure item actor geom st db' ≡ ok ((id, false), db')
  unfolding problem_body
  problem_body-again fail item actor geom st db db' id b h =
      elim (Result-cases (resolve_parent (fail 2) item.inspection_client_uuid db st)) [
        | inr (e, o) ↦ absurd (cc (rw o at h))
        | inl (p, o) ↦
            elim (Result-cases (resolve_dict_version (fail 3) item.dict_version_used db)) [
              | inr (e, v) ↦ absurd (cc (rw (o, v) at h))
              | inl (n, v) ↦ elim (Result-cases (check_geom encode valid_geom (fail 4) geom)) [
                | inr (e, g) ↦ absurd (cc (rw (o, v, g) at h))
                | inl (x, g) ↦ elim (Result-cases (insert_problem fail item actor geom db p n)) [
                  | inr (e, u) ↦ absurd (cc (rw (o, v, g, u) at h))
                  | inl (((i, c), t), u) ↦
                      let same : db' ≡ record db { problems = t } = cc (rw (o, v, g, u) at h) in
                      let same_id : id ≡ i = cc (rw (o, v, g, u) at h) in
                      let again : insert_problem no_failure item actor geom
                            (record db { problems = t }) p n
                          ≡ ok ((i, false), t) =
                        upsert-again Problem.id Problem.client_uuid (λ r. not r.deleted) _ _ _ _ _ _
                          _ _ t i c _ (λ n. (refl, refl, refl)) u in
                      rw
                        (
                          same,
                          same_id,
                          resolve_parent-again (fail 2) item.inspection_client_uuid db
                              (record db { problems = t }) st p refl o,
                          resolve_dict_version-again (fail 3) item.dict_version_used db
                              (record db { problems = t }) n refl v,
                          check_geom-again encode valid_geom (fail 4) geom x g,
                          again,
                        )
                        refl
                ]
              ]
            ]
      ]

pub media_body-again :
    (fail : ℕ → Bool) (item : MediaItem) (actor : ℕ) (st : BatchState) (db db' : Db) (id : ℕ)
    (b : Bool)
    → media_body fail item actor st db ≡ ok ((id, b), db')
    → media_body no_failure item actor st db' ≡ ok ((id, false), db')
unfolding media_body
media_body-again fail item actor st db db' id b h =
    elim (Result-cases
      (resolve_media_owner (fail 2) item.owner_type item.owner_client_uuid db st)) [
        | inr (e, o) ↦ absurd (cc (rw o at h))
        | inl (p, o) ↦ elim (Result-cases (insert_media fail item actor db p)) [
          | inr (e, u) ↦ absurd (cc (rw (o, u) at h))
          | inl (((i, c), t), u) ↦
              let same : db' ≡ record db { media = t } = cc (rw (o, u) at h) in
              let same_id : id ≡ i = cc (rw (o, u) at h) in
              let again : insert_media no_failure item actor (record db { media = t }) p
                  ≡ ok ((i, false), t) =
                upsert-again Media.id Media.client_uuid (λ m. not m.deleted) _ _ _ _ _ _ _ _ t i c _
                  (λ n. (refl, refl, refl)) u in
              rw
                (
                  same,
                  same_id,
                  resolve_media_owner-again (fail 2) item.owner_type item.owner_client_uuid db
                      (record db { media = t }) st p refl refl o,
                  again,
                )
                refl
        ]
      ]
