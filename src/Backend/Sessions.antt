-- ===== src/Backend/Sessions.antt =====
-- Refresh tokens of backend/app/services/auth_service.py: rotation, reuse and what they leave.
use shtapm.Base.{
  ℕ, ◌+◌, ◌≡◌, refl, ◌∙◌, ap, Bool, true, false, not, ◌&&◌, ltb, ◌==◌, Option, none, some, List, [],
  ◌∷◌, ◌++◌, String, str_eq, ◌⊎◌, inl, inr, arith, Bool-cases, if◌then◌else◌, append-nil,
}
use shtapm.Backend.Auth.{
  User, RefreshToken, Db, RefreshError, reuse_detected, IssuedTokens, Security, Fresh, Found,
  no_row, one_row, many_rows, one_or_none, with_hash, get_user, revoke_user, revoke_row,
  is_active_user, issue_tokens, rotate_for, rotate_row, rotate_found, rotate_refresh_token,
}

-- A user's tokens that are not revoked, and the tokens of all others.
unfoldable pub live_of : ℕ → List RefreshToken → List RefreshToken
live_of id [] = []
live_of id (t ∷ rest) =
    let r = live_of id rest in if t.user_id == id && not t.revoked then t ∷ r else r

unfoldable pub others_of : ℕ → List RefreshToken → List RefreshToken
others_of id [] = []
others_of id (t ∷ rest) = let r = others_of id rest in if t.user_id == id then r else t ∷ r

revoke_user-live_of : (id : ℕ) (ts : List RefreshToken) → live_of id (revoke_user id ts) ≡ []
unfolding live_of revoke_user
revoke_user-live_of id [] = refl
revoke_user-live_of id (t ∷ rest) = let ih = revoke_user-live_of id rest in ground arith

revoke_user-others_of :
    (id : ℕ) (ts : List RefreshToken) → others_of id (revoke_user id ts) ≡ others_of id ts
unfolding others_of revoke_user
revoke_user-others_of id [] = refl
revoke_user-others_of id (t ∷ rest) = let ih = revoke_user-others_of id rest in ground arith

with_hash-append :
    (h : String) (xs ys : List RefreshToken)
    → with_hash h (xs ++ ys) ≡ with_hash h xs ++ with_hash h ys
unfolding with_hash
with_hash-append h [] ys = refl
with_hash-append h (t ∷ rest) ys = elim (Bool-cases (str_eq t.token_hash h)) [
  | inl e ↦ rw e (ap (λ l. t ∷ l) (with_hash-append h rest ys))
  | inr e ↦ rw e (with_hash-append h rest ys)
]

with_hash-revoke_row :
    (h : String) (id : ℕ) (ts : List RefreshToken)
    → with_hash h (revoke_row id ts) ≡ revoke_row id (with_hash h ts)
unfolding with_hash revoke_row
with_hash-revoke_row h id [] = refl
with_hash-revoke_row h id (t ∷ rest) =
    let ih = with_hash-revoke_row h id rest in
    elim (Bool-cases (str_eq t.token_hash h)) [
      | inl e ↦ elim (Bool-cases (t.id == id)) [
        | inl f ↦ rw (f, e, f) (ap (λ l. record t { revoked = true } ∷ l) ih)
        | inr f ↦ rw (f, e, f) (ap (λ l. t ∷ l) ih)
      ]
      | inr e ↦ elim (Bool-cases (t.id == id)) [ inl f ↦ rw (f, e) ih | inr f ↦ rw (f, e) ih ]
    ]

abbrev pub is_issued : RefreshError ⊎ IssuedTokens → Bool
is_issued (inl e) = false
is_issued (inr t) = true

-- A row that may be exchanged for new tokens.
abbrev pub is_usable : Db → ℕ → Found RefreshToken → Bool
is_usable db now no_row = false
is_usable db now many_rows = false
is_usable db now (one_row row) =
    not row.revoked
    && (not (ltb row.expires_at now) && is_active_user (get_user row.user_id db.users))

module _ (c : Security) (db : Db) (raw : String) (now : ℕ) (fresh : Fresh) where
  -- Rotation issues tokens exactly if one row has the token's hash, it is neither revoked nor
  -- past its expiry, and its user is there and active; otherwise it raises.
  pub is_issued_lem :
      is_issued (rotate_refresh_token c db raw now fresh).1
      ≡ is_usable db now (one_or_none (with_hash (c.hash_refresh_token raw) db.tokens))
  unfolding rotate_refresh_token rotate_found rotate_row rotate_for issue_tokens
  is_issued_lem = ground arith

  module _ (row : RefreshToken)
      (unique : with_hash (c.hash_refresh_token raw) db.tokens ≡ row ∷ []) where
    rotate_unique : rotate_refresh_token c db raw now fresh ≡ rotate_row c db row now fresh
    unfolding rotate_refresh_token rotate_found one_or_none
    rotate_unique = rw unique refl

    -- If one row has the token's hash and it is revoked, the rotation reports the reuse, no token
    -- of the row's user is live afterwards, and the tokens of others and the users stay.
    pub reuse_ends_sessions :
        row.revoked ≡ true
        → let (db', r) = rotate_refresh_token c db raw now fresh in
          (r ≡ inl reuse_detected)
          × (live_of row.user_id db'.tokens ≡ [])
          × (others_of row.user_id db'.tokens ≡ others_of row.user_id db.tokens)
          × (db'.users ≡ db.users)
    unfolding rotate_row
    reuse_ends_sessions e =
        rw (rotate_unique, e)
          (
            refl,
            revoke_user-live_of row.user_id db.tokens,
            revoke_user-others_of row.user_id db.tokens,
            refl,
          )

    module _
        (differs : str_eq (c.hash_refresh_token fresh.raw) (c.hash_refresh_token raw) ≡ false) where
      with_hash-issue :
          (d : Db) (user : User)
          → with_hash (c.hash_refresh_token raw) (issue_tokens c d user now fresh).0.tokens
            ≡ with_hash (c.hash_refresh_token raw) d.tokens
      unfolding issue_tokens with_hash
      with_hash-issue d user =
          let new_row : RefreshToken = record {
            id = fresh.id;
            user_id = user.id;
            token_hash = c.hash_refresh_token fresh.raw;
            expires_at = now + c.refresh_ttl;
            revoked = false;
          } in
          with_hash-append (c.hash_refresh_token raw) d.tokens (new_row ∷ [])
          ∙ rw differs (append-nil (with_hash (c.hash_refresh_token raw) d.tokens))

      rotated_for :
          (user : Option User)
          → is_issued (rotate_for c db row user now fresh).1 ≡ true
          → with_hash (c.hash_refresh_token raw) (rotate_for c db row user now fresh).0.tokens
            ≡ with_hash (c.hash_refresh_token raw) (revoke_row row.id db.tokens)
      unfolding rotate_for
      rotated_for none s = cc
      rotated_for (some u) s = elim (Bool-cases u.is_active) [
        | inl a ↦ rw a (with_hash-issue (record db { tokens = revoke_row row.id db.tokens }) u)
        | inr a ↦ ground arith
      ]

      rotated_tokens :
          is_issued (rotate_row c db row now fresh).1 ≡ true
          → with_hash (c.hash_refresh_token raw) (rotate_row c db row now fresh).0.tokens
            ≡ with_hash (c.hash_refresh_token raw) (revoke_row row.id db.tokens)
      unfolding rotate_row
      rotated_tokens s = elim (Bool-cases row.revoked) [
        | inl e ↦ ground arith
        | inr e ↦ elim (Bool-cases (ltb row.expires_at now)) [
          | inl l ↦ ground arith
          | inr l ↦ rw (e, l) (rotated_for (get_user row.user_id db.users) (rw (e, l) at s))
        ]
      ]

      used_row :
          is_issued (rotate_refresh_token c db raw now fresh).1 ≡ true
          → with_hash (c.hash_refresh_token raw) (rotate_refresh_token c db raw now fresh).0.tokens
            ≡ record row { revoked = true } ∷ []
      unfolding revoke_row
      used_row s =
          let same : (row.id == row.id) ≡ true = ground arith in
          rw rotate_unique (rotated_tokens (rw rotate_unique at s))
          ∙ with_hash-revoke_row (c.hash_refresh_token raw) row.id db.tokens
          ∙ rw (unique, same) refl

-- After a rotation that issued tokens, where one row had the old token's hash and the new token
-- has another hash, using the old token next, at any time, reports the reuse and leaves its user
-- no live token, the new one included.
pub rotated_once :
    (c : Security) (db : Db) (raw : String) (now : ℕ) (fresh : Fresh) (row : RefreshToken)
    → with_hash (c.hash_refresh_token raw) db.tokens ≡ row ∷ []
    → str_eq (c.hash_refresh_token fresh.raw) (c.hash_refresh_token raw) ≡ false
    → is_issued (rotate_refresh_token c db raw now fresh).1 ≡ true
    → (later : ℕ) (next : Fresh)
    → let after = (rotate_refresh_token c db raw now fresh).0 in
      let (db', r) = rotate_refresh_token c after raw later next in
      (r ≡ inl reuse_detected) × (live_of row.user_id db'.tokens ≡ [])
rotated_once c db raw now fresh row unique differs s later next =
    let after = (rotate_refresh_token c db raw now fresh).0 in
    let (reused, ended, _, _) =
      reuse_ends_sessions c after raw later next (record row { revoked = true })
        (used_row c db raw now fresh row unique differs s) refl in
    (reused, ended)
