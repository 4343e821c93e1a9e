-- ===== src/Auth/Refresh/Rotation.antt =====
-- What /refresh does to the table of refresh tokens.
use agentis_backend.Prelude.{
  ℕ, String, ◌+◌, ◌≡◌, ◌≢◌, refl, ap, none, some, List, [], ◌∷◌, ◌++◌, arith, ◌==◌, ltb, str_eq,
  ◌&&◌, is_none, is_some, any, select, select-append, select-update_where, select-update_where_none,
  select-update_where_other, update_where, eq_iff, ==_refl, subst, true, false, select-All,
  All-select_of_any, All, any-update_where, Bool,
}
use agentis_backend.Config.{Settings}
use agentis_backend.Database.{respond}
use agentis_backend.Http.{HttpException, Result, ok, err, http, ◌>>=◌}
use agentis_backend.Auth.Model.{
  User, RefreshToken, AuthDb, Platform, TokenGrant, get_user, create_access_token, role_value,
  refresh_cookie,
}
use agentis_backend.Auth.Refresh.{unauthenticated, revoke_all, refresh}

abbrev is_active_of : ℕ → RefreshToken → Bool
is_active_of u t = t.user_id == u && is_none t.revoked_at

abbrev has_hash : String → RefreshToken → Bool
has_hash h t = str_eq t.token_hash h

-- The tokens of a user that are not revoked, and the rows with a hash.
abbrev pub active_of : ℕ → AuthDb → List RefreshToken
active_of u db = select (λ t. t.user_id == u && is_none t.revoked_at) db.refresh_tokens

abbrev pub with_hash : String → AuthDb → List RefreshToken
with_hash h db = select (λ t. str_eq t.token_hash h) db.refresh_tokens

abbrev revoked_now : ℕ → RefreshToken → RefreshToken
revoked_now now t = record t { revoked_at = some now }

active_of-revoke_all : (now u : ℕ) (db : AuthDb) → active_of u (revoke_all now u db) ≡ []
unfolding revoke_all
active_of-revoke_all now u db =
    select-update_where_none (is_active_of u) (is_active_of u) (revoked_now now)
      (λ x h. ground arith) (λ x h. h) db.refresh_tokens

active_of-revoke_all_ne :
    (now u v : ℕ) (db : AuthDb) → v ≢ u → active_of v (revoke_all now u db) ≡ active_of v db
unfolding revoke_all
active_of-revoke_all_ne now u v db ne =
    select-update_where_other (is_active_of v) (is_active_of u) (revoked_now now)
      (λ x h. ground arith) (λ x h. ground arith) db.refresh_tokens

abbrev pub replayed : HttpException
replayed = unauthenticated "Refresh token already used — all sessions revoked"

-- The token's row is `stored`, neither revoked nor expired, its user is `u`, and the hash of the new raw
-- token is not in the table.
pub record IsRedeemable (lib : Platform) (now : ℕ) (raw token : String) (db : AuthDb)
    (stored : RefreshToken) (u : User) : Type 0 where
  pub some_token : str_eq token "" ≡ false
  pub found : with_hash (lib.sha256 token) db ≡ stored ∷ []
  pub live : is_some stored.revoked_at ≡ false
  pub fresh : ltb stored.expires_at now ≡ false
  pub owner : get_user stored.user_id db.users ≡ some u
  pub unused : any (λ t. str_eq t.token_hash (lib.sha256 raw)) db.refresh_tokens ≡ false

module _ (cfg : Settings) (lib : Platform) (now id : ℕ) (raw token : String) (db : AuthDb) where
  abbrev pub outcome : Result TokenGrant × AuthDb
  outcome = respond (refresh cfg lib now id raw (some token)) db

  -- A refresh token that was already revoked is refused, and by then no session of its user
  -- is left: no refresh token of that user is active, those of other users are as before.
  pub refresh-replay :
      (stored : RefreshToken)
      → str_eq token "" ≡ false
      → with_hash (lib.sha256 token) db ≡ stored ∷ []
      → is_some stored.revoked_at ≡ true
      → (outcome.0 ≡ err (http replayed))
        × (active_of stored.user_id outcome.1 ≡ [])
        × ((v : ℕ) → v ≢ stored.user_id → active_of v outcome.1 ≡ active_of v db)
  unfolding refresh ◌>>=◌
  refresh-replay stored some_token found revoked =
      rw (some_token, found, revoked)
        (
          refl,
          active_of-revoke_all now stored.user_id db,
          λ v. active_of-revoke_all_ne now stored.user_id v db,
        )

  abbrev new_token : ℕ → RefreshToken
  new_token user_id = record {
    id = id;
    user_id = user_id;
    token_hash = lib.sha256 raw;
    created_at = now;
    expires_at = now + cfg.jwt_refresh_ttl;
    revoked_at = none;
  }

  abbrev rotated : RefreshToken → User → AuthDb
  rotated stored u = record db {
    refresh_tokens =
        update_where (λ t. t.id == stored.id) (revoked_now now) db.refresh_tokens
        ++ new_token u.id ∷ [];
  }

  abbrev pub grant : User → TokenGrant
  grant u = record {
    access_token =
        create_access_token cfg lib now (lib.uuid_str u.id) (role_value u.role) none none;
    token_type = "bearer";
    expires_in = cfg.jwt_access_ttl;
    cookie = refresh_cookie cfg raw;
  }

  -- A valid token is exchanged: it is revoked, and a new one is stored for its user.
  refresh_valid :
      (stored : RefreshToken) (u : User)
      → IsRedeemable lib now raw token db stored u
      → outcome ≡ (ok (grant u), rotated stored u)
  unfolding refresh ◌>>=◌
  refresh_valid stored u v = rw (
    v.some_token,
    v.found,
    v.live,
    v.fresh,
    v.owner,
    any-update_where (has_hash (lib.sha256 raw)) (λ t. t.id == stored.id) (revoked_now now)
        (λ x. refl) db.refresh_tokens,
    v.unused,
  )

  -- A new token's hash is not that of a stored one.
  hash_differs :
      (stored : RefreshToken)
      → with_hash (lib.sha256 token) db ≡ stored ∷ []
      → any (has_hash (lib.sha256 raw)) db.refresh_tokens ≡ false
      → str_eq (lib.sha256 raw) (lib.sha256 token) ≡ false
  hash_differs stored found unused =
      let has = has_hash (lib.sha256 token) in
      let same = subst (All (λ t. has t ≡ true)) found (select-All has db.refresh_tokens) in
      let other =
        subst (All (λ t. has_hash (lib.sha256 raw) t ≡ false)) found
          (All-select_of_any (has_hash (lib.sha256 raw)) has db.refresh_tokens unused) in
      ground (
        arith,
        same.0,
        other.0,
        eq_iff (lib.sha256 raw) (lib.sha256 token),
        eq_iff stored.token_hash (lib.sha256 token),
        eq_iff stored.token_hash (lib.sha256 raw),
      )

  with_hash-rotated :
      (stored : RefreshToken) (u : User)
      → with_hash (lib.sha256 token) db ≡ stored ∷ []
      → any (has_hash (lib.sha256 raw)) db.refresh_tokens ≡ false
      → with_hash (lib.sha256 token) (rotated stored u) ≡ revoked_now now stored ∷ []
  unfolding update_where select
  with_hash-rotated stored u found unused = rw (
    select-append (has_hash (lib.sha256 token)),
    select-update_where (has_hash (lib.sha256 token)) (λ t. t.id == stored.id) (revoked_now now)
        (λ x. refl) db.refresh_tokens,
    found,
    hash_differs stored found unused,
    ==_refl stored.id,
  )

-- A refresh token serves once: after it was exchanged, presenting it again, at any time and with any
-- random choices, is refused, and leaves no active session of its user, the new one included.
pub refresh-single_use :
    (cfg : Settings) (lib : Platform) (now id : ℕ) (raw token : String) (db : AuthDb)
    (stored : RefreshToken) (u : User) (now' id' : ℕ) (raw' : String)
    → IsRedeemable lib now raw token db stored u
    → let after = outcome cfg lib now id raw token db in
      let again = outcome cfg lib now' id' raw' token after.1 in
      (after.0 ≡ ok (grant cfg lib now id raw token db u))
      × (again.0 ≡ err (http replayed))
      × (active_of stored.user_id again.1 ≡ [])
refresh-single_use cfg lib now id raw token db stored u now' id' raw' v =
    let exchanged = refresh_valid cfg lib now id raw token db stored u v in
    rw exchanged (
      let (refused, ended, _) =
        refresh-replay cfg lib now' id' raw' token _ (revoked_now now stored) v.some_token
          (with_hash-rotated cfg lib now id raw token db stored u v.found v.unused) refl in
      (ap (λ (p : Result TokenGrant × AuthDb). p.0) exchanged, refused, ended))
