-- ===== src/Auth/Sessions.antt =====
-- Who gets a session, and what logging out ends.
use check.Common.{
  ℕ, ◌≡◌, refl, ap, ◌∙◌, String, Bool, true, false, not, Option, some, List, [], ◌∷◌, str_eq, find?,
  arith, Result, ok, err, Bool-cases, Option-cases, Result-cases, inl, inr, if◌then◌else◌,
}
use check.Auth.Refresh.{
  AuthErr, refresh_not_found, invalid_credentials, RefreshEntry, drop_token, consume, revoke,
  create_token,
}
use check.Auth.Service.{
  User, AuthState, AuthTokens, live_user, named, access_for, open_session, login, resume, refresh,
  logout,
}
use check.Auth.SingleUse.{dropped, consume-none, consume-empty}

-- Once a logout has succeeded, its refresh token is refused at any instant.
pub logout-ends :
    (fails : Bool) (token : String) (s : AuthState) (later : ℕ)
    → (logout fails token s).1 ≡ ok tt
    → (consume false token later (logout fails token s).0.tokens).1 ≡ err refresh_not_found
unfolding logout revoke
logout-ends fails token s later h = elim (Bool-cases (str_eq token "")) [
  | inl e ↦ rw e (consume-empty token later s.tokens e)
  | inr e ↦ elim (Bool-cases fails) [
    | inl f ↦ absurd (cc (rw (e, f) at h))
    | inr f ↦
        rw (e, f)
          (consume-none token later (drop_token token s.tokens) (dropped token later s.tokens))
  ]
]

find-passes : (p : User → Bool) (us : List User) (u : User) → find? p us ≡ some u → p u ≡ true
find-passes p [] u h = cc
find-passes p (v ∷ us) u h = ground (arith, find-passes p us u)

live_user-id : (id : ℕ) (u : User) → live_user id u ≡ true → u.id ≡ id
live_user-id id u h = ground arith

guarded :
    (b : Bool) (s : AuthState) (e : AuthErr) (x : AuthState × Result AuthErr AuthTokens)
    (t : AuthTokens)
    → (if not b then (s, err e) else x).1 ≡ ok t
    → (b ≡ true) × (x.1 ≡ ok t)
guarded true s e x t h = (refl, h)
guarded false s e x t h = absurd (cc)

module _ (roles_of : String → Option (List String))
    (issue : ℕ → String → List String → ℕ → Option String) (fail : ℕ → Bool) (ttl : ℕ)
    (fresh : Option String) (now : ℕ) where
  open_session-user :
      (u : User) (s : AuthState) (t : AuthTokens)
      → (open_session roles_of issue fail ttl fresh now u s).1 ≡ ok t
      → t.user ≡ u
  unfolding open_session
  open_session-user u s t h = elim (Result-cases (access_for roles_of issue fail ttl fresh now u)) [
    | inr (e, a) ↦ absurd (cc (rw (a, open_session) at h))
    | inl (access, a) ↦ elim (Result-cases (create_token (fail 1) ttl fresh u.id now s.tokens).1) [
      | inr (e, c) ↦ absurd (cc (rw (a, c, open_session) at h))
      | inl (r, c) ↦ elim (Bool-cases (fail 2)) [
        | inl f ↦ absurd (cc (rw (a, c, f, open_session) at h))
        | inr f ↦ cc (rw (a, c, f, open_session) at h)
      ]
    ]
  ]

  -- A login that succeeds is by a live, active user whose name has the same lower case, and whose stored hash
  -- accepts the password.
  pub login-eq-ok :
      (lower : String → String) (compare_hash : String → String → Bool) (username password : String)
      (s : AuthState) (t : AuthTokens)
      → (login roles_of issue fail ttl fresh now lower compare_hash username password s).1 ≡ ok t
      → (find? (named lower username) s.users ≡ some t.user)
        × (t.user.is_active ≡ true)
        × (compare_hash t.user.password_hash password ≡ true)
  unfolding login
  login-eq-ok lower compare_hash username password s t h = elim (Bool-cases (fail 0)) [
    | inl e ↦ absurd (cc (rw e at h))
    | inr e ↦ elim (Option-cases (find? (named lower username) s.users)) [
      | inl n ↦ absurd (cc (rw (e, n) at h))
      | inr (u, f) ↦
          let (a, h₁) = guarded u.is_active s invalid_credentials _ t (rw (e, f) at h) in
          let (c, h₂) =
            guarded (compare_hash u.password_hash password) s invalid_credentials
              (open_session roles_of issue fail ttl fresh now u s) t h₁ in
          rw (open_session-user u s t h₂) (f, a, c)
    ]
  ]

  resume-user :
      (s : AuthState) (x : List RefreshEntry × Result AuthErr (String × ℕ)) (t : AuthTokens)
      → (resume roles_of issue fail ttl fresh now s x).1 ≡ ok t
      → (id : ℕ) × (find? (live_user id) s.users ≡ some t.user) × (t.user.is_active ≡ true)
  resume-user s (tokens, err e) t h = absurd (cc)
  resume-user s (tokens, ok (token, id)) t h = elim (Bool-cases (fail 2)) [
    | inl e ↦ absurd (cc (rw e at h))
    | inr e ↦ elim (Option-cases (find? (live_user id) s.users)) [
      | inl n ↦ absurd (cc (rw (e, n) at h))
      | inr (u, f) ↦
          let (a, h₁) = guarded u.is_active _ refresh_not_found _ t (rw (e, f) at h) in
          elim (Result-cases (access_for roles_of issue fail ttl fresh now u)) [
            | inr (x, c) ↦ absurd (cc (rw c at h₁))
            | inl (access, c) ↦
                let same : t.user ≡ u = cc (rw c at h₁) in (id, rw same f, rw same a)
          ]
    ]
  ]

  -- A refresh that succeeds is for a live and active user.
  pub refresh-eq-ok :
      (token : String) (s : AuthState) (t : AuthTokens)
      → (refresh roles_of issue fail ttl fresh now token s).1 ≡ ok t
      → (find? (live_user t.user.id) s.users ≡ some t.user) × (t.user.is_active ≡ true)
  unfolding refresh
  refresh-eq-ok token s t h =
      let (id, f, a) = resume-user s _ t h in
      let same : t.user.id ≡ id =
        live_user-id id t.user (find-passes (live_user id) s.users t.user f) in
      (ap (λ i. find? (live_user i) s.users) same ∙ f, a)
