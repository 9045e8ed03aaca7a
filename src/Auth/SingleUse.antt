-- ===== src/Auth/SingleUse.antt =====
-- A refresh token is used once.
use check.Common.{
  ℕ, ◌≡◌, refl, String, Bool, true, false, Option, none, some, List, [], ◌∷◌, str_eq, find?, arith,
  ok, err, Bool-cases, Option-cases, inl, inr,
}
use check.Auth.Refresh.{
  refresh_not_found, RefreshEntry, deadline_after, held, drop_token, create_token, consume, rotate,
}

-- No entry of the token is left.
pub dropped :
    (token : String) (now : ℕ) (entries : List RefreshEntry)
    → find? (held token now) (drop_token token entries) ≡ none
dropped token now [] = refl
dropped token now (e ∷ es) = ground (arith, dropped token now es)

pub consume-none :
    (token : String) (now : ℕ) (entries : List RefreshEntry)
    → find? (held token now) entries ≡ none
    → (consume false token now entries).1 ≡ err refresh_not_found
unfolding consume
consume-none token now entries h = ground arith

pub consume-empty :
    (token : String) (now : ℕ) (entries : List RefreshEntry)
    → str_eq token "" ≡ true
    → (consume false token now entries).1 ≡ err refresh_not_found
unfolding consume
consume-empty token now entries e = rw e refl

pub rotate-eq-ok :
    (cf df : Bool) (ttl : ℕ) (fresh : Option String) (old new : String) (now uid : ℕ)
    (entries : List RefreshEntry)
    → (rotate cf df ttl fresh old now entries).1 ≡ ok (new, uid)
    → ((rotate cf df ttl fresh old now entries).0
        ≡ record { token = new; user_id = uid; deadline = deadline_after ttl now }
          ∷ drop_token new (drop_token old entries))
      × ((owner : RefreshEntry) × (find? (held old now) entries ≡ some owner)
          × (owner.user_id ≡ uid))
unfolding rotate consume create_token
rotate-eq-ok cf df ttl fresh old new now uid entries h = elim (Bool-cases (str_eq old "")) [
  | inl e ↦ absurd (cc (rw e at h))
  | inr e ↦ elim (Bool-cases cf) [
    | inl c ↦ absurd (cc (rw (e, c) at h))
    | inr c ↦ elim (Option-cases (find? (held old now) entries)) [
      | inl n ↦ absurd (cc (rw (e, c, n) at h))
      | inr (x, f) ↦ elim (Option-cases fresh) [
        | inl n ↦ absurd (cc (rw (e, c, f, n) at h))
        | inr (t, q) ↦ elim (Bool-cases df) [
          | inl d ↦ absurd (cc (rw (e, c, f, q, d) at h))
          | inr d ↦
              let k = rw (e, c, f, q, d) at h in
              let same : t ≡ new = cc k in
              let same_id : x.user_id ≡ uid = cc k in
              (rw (e, c, f, q, d, same, same_id) refl, (x, f, same_id))
        ]
      ]
    ]
  ]
]
