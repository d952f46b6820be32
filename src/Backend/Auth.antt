-- ===== src/Backend/Auth.antt =====
-- backend/app/services/auth_service.py, over the tables of refresh tokens and users. The hash of a
-- token, password checks and access tokens come from libraries and are parameters; a new token's
-- text and row id, which are random, are arguments. Times are in one unit.
use shtapm.Base.{
  ℕ, ◌+◌, Bool, true, false, not, ltb, ◌==◌, Option, none, some, List, [], ◌∷◌, ◌++◌, String,
  str_eq, ◌⊎◌, inl, inr, if◌then◌else◌,
}

pub record User : Type 0 where
  pub id : ℕ
  pub email : String
  pub password_hash : String
  pub role : String
  pub is_active : Bool

pub record RefreshToken : Type 0 where
  pub id : ℕ
  pub user_id : ℕ
  pub token_hash : String
  pub expires_at : ℕ
  pub revoked : Bool

pub record Db : Type 0 where
  pub users : List User
  pub tokens : List RefreshToken

-- `RefreshTokenInvalid` by its text, and `MultipleResultsFound` of `one_or_none`.
pub data RefreshError : Type 0 where
  unknown_token reuse_detected expired inactive_user multiple_results : RefreshError

pub record IssuedTokens : Type 0 where
  pub access_token : String
  pub refresh_token : String

-- What the service calls of the libraries, and the lifetime of a refresh token.
pub record Security : Type 0 where
  pub hash_refresh_token : String → String
  pub verify_password : String → String → Bool
  pub create_access_token : ℕ → String → String
  pub refresh_ttl : ℕ

-- A new token: its text and the id of its row.
pub record Fresh : Type 0 where
  pub raw : String
  pub id : ℕ

-- The rows of a query, as `one_or_none` answers.
pub data Found (A : Type 0) : Type 0 where
  no_row many_rows : Found A
  one_row : A → Found A

unfoldable pub one_or_none : {A : Type 0} → List A → Found A
one_or_none [] = no_row
one_or_none (a ∷ []) = one_row a
one_or_none (a ∷ b ∷ rest) = many_rows

unfoldable pub with_hash : String → List RefreshToken → List RefreshToken
with_hash h [] = []
with_hash h (t ∷ rest) = let r = with_hash h rest in if str_eq t.token_hash h then t ∷ r else r

unfoldable pub with_email : String → List User → List User
with_email e [] = []
with_email e (u ∷ rest) = let r = with_email e rest in if str_eq u.email e then u ∷ r else r

-- `db.get(User, id)`.
unfoldable pub get_user : ℕ → List User → Option User
get_user id [] = none
get_user id (u ∷ rest) = let r = get_user id rest in if u.id == id then some u else r

-- `update(RefreshToken).where(user_id == id).values(revoked=True)`.
unfoldable pub revoke_user : ℕ → List RefreshToken → List RefreshToken
revoke_user id [] = []
revoke_user id (t ∷ rest) =
    let r = revoke_user id rest in
    if t.user_id == id then record t { revoked = true } ∷ r else t ∷ r

-- `row.revoked = True`, of the row with this id.
unfoldable pub revoke_row : ℕ → List RefreshToken → List RefreshToken
revoke_row id [] = []
revoke_row id (t ∷ rest) =
    let r = revoke_row id rest in if t.id == id then record t { revoked = true } ∷ r else t ∷ r

abbrev pub is_active_user : Option User → Bool
is_active_user none = false
is_active_user (some u) = u.is_active

module _ (c : Security) where
  -- `authenticate_user`; two rows of one email are an error of the query.
  unfoldable pub authenticate_user : Db → String → String → RefreshError ⊎ Option User
  authenticate_user db email password = elim (one_or_none (with_email email db.users)) [
    | no_row ↦ inr none
    | many_rows ↦ inl multiple_results
    | one_row u ↦
        if not u.is_active
        then inr none
        else if not (c.verify_password password u.password_hash)
        then inr none
        else inr (some u)
  ]

  unfoldable pub issue_tokens : Db → User → ℕ → Fresh → Db × IssuedTokens
  issue_tokens db user now fresh =
      let row : RefreshToken = record {
        id = fresh.id;
        user_id = user.id;
        token_hash = c.hash_refresh_token fresh.raw;
        expires_at = now + c.refresh_ttl;
        revoked = false;
      } in
      (
        record db { tokens = db.tokens ++ (row ∷ []) },
        record {
          access_token = c.create_access_token user.id user.role;
          refresh_token = fresh.raw;
        },
      )

  unfoldable pub rotate_for :
      Db → RefreshToken → Option User → ℕ → Fresh → Db × (RefreshError ⊎ IssuedTokens)
  unfolding issue_tokens
  rotate_for db row none now fresh = (db, inl inactive_user)
  rotate_for db row (some user) now fresh =
      if not user.is_active
      then (db, inl inactive_user)
      else let (db', issued) =
          issue_tokens (record db { tokens = revoke_row row.id db.tokens }) user now fresh in
        (db', inr issued)

  unfoldable pub rotate_row : Db → RefreshToken → ℕ → Fresh → Db × (RefreshError ⊎ IssuedTokens)
  unfolding rotate_for
  rotate_row db row now fresh =
      if row.revoked
      then (record db { tokens = revoke_user row.user_id db.tokens }, inl reuse_detected)
      else if ltb row.expires_at now
      then (db, inl expired)
      else rotate_for db row (get_user row.user_id db.users) now fresh

  unfoldable pub rotate_found :
      Db → Found RefreshToken → ℕ → Fresh → Db × (RefreshError ⊎ IssuedTokens)
  unfolding rotate_row
  rotate_found db no_row now fresh = (db, inl unknown_token)
  rotate_found db many_rows now fresh = (db, inl multiple_results)
  rotate_found db (one_row row) now fresh = rotate_row db row now fresh

  unfoldable pub rotate_refresh_token : Db → String → ℕ → Fresh → Db × (RefreshError ⊎ IssuedTokens)
  unfolding rotate_found
  rotate_refresh_token db raw now fresh =
      rotate_found db (one_or_none (with_hash (c.hash_refresh_token raw) db.tokens)) now fresh

  -- Logout.
  unfoldable pub revoke_refresh_token : Db → String → ℕ → RefreshError ⊎ Db
  revoke_refresh_token db raw owner =
      elim (one_or_none (with_hash (c.hash_refresh_token raw) db.tokens)) [
        | no_row ↦ inr db
        | many_rows ↦ inl multiple_results
        | one_row row ↦
            if row.user_id == owner
            then inr (record db { tokens = revoke_row row.id db.tokens })
            else inr db
      ]
