-- ===== src/Media/Keys.antt =====
-- Object keys and ETags (backend/internal/media/keys.go), as lists of bytes. The text of a UUID and
-- `strings.ToLower` are the parameters `uuid_text` and `lower`.
use check.Common.{
  ℕ, zero, suc, ◌+◌, ◌/◌, ◌%◌, ◌≡◌, refl, ap, Bool, true, false, ◌&&◌, Option, none, some, List, [],
  ◌∷◌, ◌++◌, ◌==◌, ltb, if◌then◌else◌, any, ℤ, pos, negsuc, arith, Option-cases, Bool-cases, inl,
  inr,
}

abbrev pub Bytes : Type 0
Bytes = List ℕ

pub data OwnerType : Type 0 where
  problem inspection project user : OwnerType

pub data Tier : Type 0 where
  original web thumb : Tier

abbrev pub bytes_eq : Bytes → Bytes → Bool
bytes_eq [] [] = true
bytes_eq (a ∷ v) (b ∷ w) = a == b && bytes_eq v w
bytes_eq _ _ = false

abbrev pub slash : ℕ
slash = b'/'

abbrev pub owner_type_text : OwnerType → Bytes
owner_type_text problem = b'p' ∷ b'r' ∷ b'o' ∷ b'b' ∷ b'l' ∷ b'e' ∷ b'm' ∷ []
owner_type_text inspection =
    b'i' ∷ b'n' ∷ b's' ∷ b'p' ∷ b'e' ∷ b'c' ∷ b't' ∷ b'i' ∷ b'o' ∷ b'n' ∷ []
owner_type_text project = b'p' ∷ b'r' ∷ b'o' ∷ b'j' ∷ b'e' ∷ b'c' ∷ b't' ∷ []
owner_type_text user = b'u' ∷ b's' ∷ b'e' ∷ b'r' ∷ []

abbrev pub tier_text : Tier → Bytes
tier_text original = b'o' ∷ b'r' ∷ b'i' ∷ b'g' ∷ b'i' ∷ b'n' ∷ b'a' ∷ b'l' ∷ []
tier_text web = b'w' ∷ b'e' ∷ b'b' ∷ []
tier_text thumb = b't' ∷ b'h' ∷ b'u' ∷ b'm' ∷ b'b' ∷ []

abbrev pub jpg : Bytes
jpg = b'.' ∷ b'j' ∷ b'p' ∷ b'g' ∷ []

-- `%d` of a number, most significant digit first; the fuel `n + 1` is more than its digits.
decimal_from : ℕ → ℕ → Bytes → Bytes
decimal_from zero n acc = acc
decimal_from (suc fuel) n acc =
    let more = decimal_from fuel (n / 10) ((b'0' + n % 10) ∷ acc) in
    if ltb n 10 then (b'0' + n) ∷ acc else more

unfoldable pub decimal : ℤ → Bytes
unfolding decimal_from
decimal (pos n) = decimal_from (suc n) n []
decimal (negsuc n) = b'-' ∷ decimal_from (suc (suc n)) (suc n) []

-- The key up to its last slash, if it has one.
unfoldable pub last_slash : Bytes → Option Bytes
last_slash [] = none
last_slash (b ∷ key) = elim (last_slash key) [
  | some prefix ↦ some (b ∷ prefix)
  | none ↦ if b == slash then some (b ∷ []) else none
]

-- `prefixOf`
unfoldable pub prefix_of : Bytes → Bytes
prefix_of key = elim (last_slash key) [ some prefix ↦ prefix | none ↦ [] ]

-- `deriveKey`
unfoldable pub derive_key : Bytes → Tier → Bytes
derive_key original_key tier = prefix_of original_key ++ (tier_text tier ++ jpg)

module _ (uuid_text : ℕ → Bytes) where
  abbrev pub upload_prefix : OwnerType → ℤ → ℕ → Bytes
  upload_prefix owner_type owner_id client_uuid =
      (b'm' ∷ b'e' ∷ b'd' ∷ b'i' ∷ b'a' ∷ slash ∷ [])
      ++ (owner_type_text owner_type
          ++ (slash ∷ (decimal owner_id ++ (slash ∷ (uuid_text client_uuid ++ (slash ∷ []))))))

  -- `buildOriginalKey`
  unfoldable pub build_original_key : OwnerType → ℤ → ℕ → Bytes
  build_original_key owner_type owner_id client_uuid =
      upload_prefix owner_type owner_id client_uuid ++ (tier_text original ++ jpg)

abbrev pub quote : ℕ
quote = 34

abbrev pub is_nil : Bytes → Bool
is_nil [] = true
is_nil (_ ∷ _) = false

abbrev pub trim_start : Bytes → Bytes
trim_start [] = []
trim_start (b ∷ s) = let rest = trim_start s in if b == quote then rest else b ∷ s

abbrev pub trim_end : Bytes → Bytes
trim_end [] = []
trim_end (b ∷ s) = let rest = trim_end s in if is_nil rest && b == quote then [] else b ∷ rest

-- `etagMatches`
unfoldable pub etags_match : (Bytes → Bytes) → Bytes → Bytes → Bool
etags_match lower cos_etag client_etag =
    bytes_eq (lower (trim_end (trim_start cos_etag))) (lower (trim_end (trim_start client_etag)))

-- A text without a slash after the last slash does not move it.
abbrev pub has_slash : Bytes → Bool
has_slash = any (λ b. b == slash)

last_slash-none : (s : Bytes) → has_slash s ≡ false → last_slash s ≡ none
unfolding last_slash
last_slash-none [] h = refl
last_slash-none (b ∷ s) h = ground (arith, last_slash-none s)

last_slash-append :
    (key s p : Bytes) → has_slash s ≡ false → last_slash key ≡ some p → last_slash (p ++ s) ≡ some p
unfolding last_slash
last_slash-append [] s p n h = cc
last_slash-append (b ∷ key) s p n h = elim (Option-cases (last_slash key)) [
  | inr (q, e) ↦
      let same : p ≡ b ∷ q = cc (rw e at h) in rw same (rw (last_slash-append key s q n e) refl)
  | inl e ↦ elim (Bool-cases (b == slash)) [
    | inl t ↦
        let same : p ≡ b ∷ [] = cc (rw (e, t) at h) in rw same (rw (last_slash-none s n, t) refl)
    | inr f ↦ absurd (cc (rw (e, f) at h))
  ]
]

tier_text-plain : (tier : Tier) → has_slash (tier_text tier ++ jpg) ≡ false
tier_text-plain original = refl
tier_text-plain web = refl
tier_text-plain thumb = refl

last_slash-whole : (key s : Bytes) → last_slash s ≡ some s → last_slash (key ++ s) ≡ some (key ++ s)
unfolding last_slash
last_slash-whole [] s h = h
last_slash-whole (b ∷ key) s h = rw (last_slash-whole key s h) refl

last_slash-prefix :
    (uuid_text : ℕ → Bytes) (owner_type : OwnerType) (owner_id : ℤ) (client_uuid : ℕ)
    → last_slash (upload_prefix uuid_text owner_type owner_id client_uuid)
      ≡ some (upload_prefix uuid_text owner_type owner_id client_uuid)
unfolding last_slash
last_slash-prefix uuid_text owner_type owner_id client_uuid =
    let last : last_slash (slash ∷ []) ≡ some (slash ∷ []) = refl in
    let by_uuid = last_slash-whole (uuid_text client_uuid) (slash ∷ []) last in
    let by_id = last_slash-whole (decimal owner_id) _ (last_slash-whole (slash ∷ []) _ by_uuid) in
    last_slash-whole (b'm' ∷ b'e' ∷ b'd' ∷ b'i' ∷ b'a' ∷ slash ∷ []) _
      (last_slash-whole (owner_type_text owner_type) _ (last_slash-whole (slash ∷ []) _ by_id))

abbrev pub prefix_from : Option Bytes → Bytes
prefix_from o = elim o [ some prefix ↦ prefix | none ↦ [] ]

prefix_of-eq : (key : Bytes) (o : Option Bytes) → last_slash key ≡ o → prefix_of key ≡ prefix_from o
unfolding prefix_of
prefix_of-eq key o e = ap prefix_from e

prefix_of-append :
    (key s : Bytes) → has_slash s ≡ false → prefix_of (prefix_of key ++ s) ≡ prefix_of key
prefix_of-append key s n = elim (Option-cases (last_slash key)) [
  | inl e ↦ rw (prefix_of-eq key none e) (prefix_of-eq s none (last_slash-none s n))
  | inr (p, e) ↦
      rw (prefix_of-eq key (some p) e)
        (prefix_of-eq (p ++ s) (some p) (last_slash-append key s p n e))
]

-- Whatever key an original has, the keys of the tiers derived from it lie under the same prefix,
-- and the prefix of a new original is the directory that is named by its owner and its UUID.
pub prefix_of-keys :
    (uuid_text : ℕ → Bytes) (key : Bytes) (tier : Tier) (owner_type : OwnerType) (owner_id : ℤ)
    (client_uuid : ℕ)
    → (prefix_of (derive_key key tier) ≡ prefix_of key)
      × (prefix_of (build_original_key uuid_text owner_type owner_id client_uuid)
          ≡ upload_prefix uuid_text owner_type owner_id client_uuid)
unfolding derive_key build_original_key
prefix_of-keys uuid_text key tier owner_type owner_id client_uuid =
    let pre : Bytes = upload_prefix uuid_text owner_type owner_id client_uuid in
    (
      prefix_of-append key (tier_text tier ++ jpg) (tier_text-plain tier),
      prefix_of-eq (pre ++ (tier_text original ++ jpg)) (some pre) (
          last_slash-append pre (tier_text original ++ jpg) pre refl
            (last_slash-prefix uuid_text owner_type owner_id client_uuid)),
    )
