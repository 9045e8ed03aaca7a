-- ===== src/Sync/Items/Requests.antt =====
-- The items of a batch as a client sends them, the literals that the columns admit, and the defaults
-- of what an item leaves out (backend/internal/sync/service.go).
use check.Common.{
  ℕ, String, Bool, true, Option, none, some, List, [], ◌∷◌, ◌==◌, leb, str_eq, if◌then◌else◌, any,
}
use check.Sync.Defs.{SpErr, OwnerType}

pub record InspectionItem : Type 0 where
  pub client_uuid : ℕ
  pub project_id : ℕ
  pub task_id : Option ℕ
  pub inspector_id : Option ℕ
  pub status : Option String
  pub started_at : ℕ
  pub ended_at : Option ℕ
  pub device_info : Option String
  pub note : Option String

pub record PointItem : Type 0 where
  pub client_uuid : ℕ
  pub inspection_client_uuid : ℕ
  pub seq : ℕ
  pub coordinates : List ℕ
  pub recorded_at : ℕ
  pub samples : List (Option ℕ)

pub record ProblemItem : Type 0 where
  pub client_uuid : ℕ
  pub project_id : ℕ
  pub inspection_client_uuid : Option ℕ
  pub inspector_id : Option ℕ
  pub coordinates : List ℕ
  pub type_item_id : Option ℕ
  pub status_item_id : Option ℕ
  pub category_item_id : Option ℕ
  pub dict_version_used : Option ℕ
  pub title : Option String
  pub description : Option String
  pub note : Option String
  pub captured_at : ℕ

pub record MediaItem : Type 0 where
  pub client_uuid : ℕ
  pub owner_type : OwnerType
  pub owner_client_uuid : Option ℕ
  pub tier : String
  pub cos_bucket : String
  pub cos_key : String
  pub cos_region : Option String
  pub content_type : Option String
  pub byte_size : Option ℕ
  pub width : Option ℕ
  pub height : Option ℕ
  pub etag : Option String
  pub capture_state : String
  pub media_group : Option ℕ

-- A value given and not zero, or else the default.
abbrev pub nonzero_or : ℕ → Option ℕ → ℕ
nonzero_or d none = d
nonzero_or d (some n) = if n == 0 then d else n

abbrev pub nonempty_or : String → Option String → String
nonempty_or d none = d
nonempty_or d (some s) = if str_eq s "" then d else s

abbrev pub deref_str : Option String → String
deref_str none = ""
deref_str (some s) = s

abbrev pub text_or : String → Option String → String
text_or d none = d
text_or d (some s) = s

abbrev pub contains : List ℕ → ℕ → Bool
contains ids i = any (λ j. j == i) ids

-- A nullable foreign key: a null refers to nothing.
abbrev pub contains? : List ℕ → Option ℕ → Bool
contains? ids none = true
contains? ids (some i) = contains ids i

abbrev pub one_of : List String → String → Bool
one_of literals s = any (λ l. str_eq l s) literals

abbrev pub inspection_statuses : List String
inspection_statuses = "IN_PROGRESS" ∷ "FINISHED" ∷ "ABANDONED" ∷ []

abbrev pub media_tiers : List String
media_tiers = "original" ∷ "web" ∷ "thumb" ∷ []

abbrev pub capture_states : List String
capture_states =
    "CAPTURED_RAW" ∷ "STITCHED" ∷ "QUEUED" ∷ "UPLOADING" ∷ "UPLOADED" ∷ "CONFIRMED" ∷ []

-- `chk_inspections_time`
abbrev pub ends_after : ℕ → Option ℕ → Bool
ends_after started none = true
ends_after started (some ended) = leb started ended

abbrev pub refusal : Bool → SpErr → Option SpErr
refusal holds e = if holds then none else some e
