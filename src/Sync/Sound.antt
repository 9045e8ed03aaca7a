-- ===== src/Sync/Sound.antt =====
-- The integrity of the four tables: the unique indexes, and the parents of trajectory points.
use check.Common.{
  ℕ, ◌≡◌, Bool, true, false, not, ◌&&◌, Option, none, List, [], ◌∷◌, ◌==◌, str_eq, arith, any, All,
  All-append, ok, insert_row, Distinct, Distinct-insert, any-insert_true, ◌⊎◌,
}
use check.Sync.Defs.{
  Bytes, SpErr, unique_violation, Table, add_row, upsert_returning_id, Inspection, Point, Problem,
  Media, Db,
}
use check.Sync.Items.{
  InspectionItem, PointItem, MediaItem, inspection_row, point_row, media_row, point_refusal,
  refusal, inspection_exists, seq_taken, key_taken,
}

abbrev pub same_seq : Point → Point → Bool
same_seq p q = p.inspection_id == q.inspection_id && p.seq == q.seq

abbrev pub same_key : Media → Media → Bool
same_key m n = str_eq m.cos_bucket n.cos_bucket && str_eq m.cos_key n.cos_key

pub record IsSound (db : Db) : Type 0 where
  pub inspections :
      Distinct (λ (a b : Inspection). a.client_uuid == b.client_uuid) db.inspections.rows
  pub points : Distinct (λ (a b : Point). a.client_uuid == b.client_uuid) db.points.rows
  pub seqs : Distinct same_seq db.points.rows
  pub problems : Distinct (λ (a b : Problem). a.client_uuid == b.client_uuid) db.problems.rows
  pub media : Distinct (λ (a b : Media). a.client_uuid == b.client_uuid) db.media.rows
  pub keys : Distinct same_key db.media.rows
  pub parents : All (λ (p : Point). inspection_exists db p.inspection_id ≡ true) db.points.rows

module _ {R : Type 0} (id_of uuid_of : R → ℕ) (visible : R → Bool) where
  -- A successful upsert found a row of that UUID and changed nothing, or added one that no row and
  -- no constraint refuses.
  pub upsert-cases :
      (i s c : Bool) (ref : Option SpErr) (uuid : ℕ) (row : ℕ → R) (t t' : Table R) (r : ℕ × Bool)
      → upsert_returning_id id_of uuid_of visible i s c ref uuid row t ≡ ok (r, t')
      → (t' ≡ t)
        ⊎ ((t' ≡ add_row row t) × (any (λ r. uuid_of r == uuid) t.rows ≡ false) × (ref ≡ none))
  unfolding upsert_returning_id
  upsert-cases i s c ref uuid row t t' r h = ground arith

parents-insert :
    (db : Db) (row : ℕ → Inspection) (ps : List Point)
    → All (λ (p : Point). inspection_exists db p.inspection_id ≡ true) ps
    → All
        (λ (p : Point).
          any
            (λ (r : Inspection). r.id == p.inspection_id)
            (insert_row (row db.inspections.next) db.inspections.rows)
          ≡ true)
        ps
parents-insert db row [] h = tt
parents-insert db row (p ∷ ps) h = (
  any-insert_true (λ (r : Inspection). r.id == p.inspection_id) (row db.inspections.next)
      db.inspections.rows h.0,
  parents-insert db row ps h.1,
)

module _ (db : Db) (w : IsSound db) where
  pub add-inspection :
      (item : InspectionItem) (actor : ℕ)
      → any (λ r. Inspection.client_uuid r == item.client_uuid) db.inspections.rows ≡ false
      → IsSound (record db { inspections = add_row (inspection_row item actor) db.inspections })
  add-inspection item actor n = record {
    inspections =
        Distinct-insert (λ (a b : Inspection). a.client_uuid == b.client_uuid)
          (inspection_row item actor db.inspections.next) db.inspections.rows n w.inspections;
    points = w.points;
    seqs = w.seqs;
    problems = w.problems;
    media = w.media;
    keys = w.keys;
    parents = parents-insert db (inspection_row item actor) db.points.rows w.parents;
  }

  point_refusal-none :
      (item : PointItem) (inspection_id : ℕ)
      → point_refusal db item inspection_id ≡ none
      → (seq_taken inspection_id item.seq db.points.rows ≡ false)
        × (inspection_exists db inspection_id ≡ true)
  point_refusal-none item inspection_id h = ground arith

  pub add-point :
      (item : PointItem) (inspection_id : ℕ) (geom : Bytes)
      → any (λ r. Point.client_uuid r == item.client_uuid) db.points.rows ≡ false
      → point_refusal db item inspection_id ≡ none
      → IsSound (record db { points = add_row (point_row item inspection_id geom) db.points })
  add-point item inspection_id geom n f =
      let (free, parent) = point_refusal-none item inspection_id f in
      let x : Point = point_row item inspection_id geom db.points.next in
      record {
        inspections = w.inspections;
        points =
            Distinct-insert (λ (a b : Point). a.client_uuid == b.client_uuid) x db.points.rows n
              w.points;
        seqs = Distinct-insert same_seq x db.points.rows free w.seqs;
        problems = w.problems;
        media = w.media;
        keys = w.keys;
        parents =
            All-append (λ (p : Point). inspection_exists db p.inspection_id ≡ true) db.points.rows
              (x ∷ []) w.parents (parent, tt);
      }

  pub add-problem :
      (row : ℕ → Problem) (uuid : ℕ)
      → (row db.problems.next).client_uuid ≡ uuid
      → any (λ r. Problem.client_uuid r == uuid) db.problems.rows ≡ false
      → IsSound (record db { problems = add_row row db.problems })
  add-problem row uuid e n = record {
    inspections = w.inspections;
    points = w.points;
    seqs = w.seqs;
    problems =
        Distinct-insert (λ (a b : Problem). a.client_uuid == b.client_uuid) (row db.problems.next)
          db.problems.rows (rw e n) w.problems;
    media = w.media;
    keys = w.keys;
    parents = w.parents;
  }

  pub key_free :
      (item : MediaItem)
      → refusal (not (key_taken item.cos_bucket item.cos_key db.media.rows)) unique_violation ≡ none
      → key_taken item.cos_bucket item.cos_key db.media.rows ≡ false
  key_free item h = ground arith

  pub add-media :
      (item : MediaItem) (actor owner_id : ℕ)
      → any (λ r. Media.client_uuid r == item.client_uuid) db.media.rows ≡ false
      → key_taken item.cos_bucket item.cos_key db.media.rows ≡ false
      → IsSound (record db { media = add_row (media_row item actor owner_id) db.media })
  add-media item actor owner_id n f = record {
    inspections = w.inspections;
    points = w.points;
    seqs = w.seqs;
    problems = w.problems;
    media =
        Distinct-insert (λ (a b : Media). a.client_uuid == b.client_uuid)
          (media_row item actor owner_id db.media.next) db.media.rows n w.media;
    keys =
        Distinct-insert same_key (media_row item actor owner_id db.media.next) db.media.rows f
          w.keys;
    parents = w.parents;
  }
