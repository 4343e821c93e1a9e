-- ===== src/Auth/Refresh.antt =====
-- app/routers/auth.py: the /refresh and /logout handlers.
pub mod Rotation
use agentis_backend.Prelude.{
  ℕ, String, ◌+◌, Option, none, some, ◌==◌, ltb, str_eq, ◌&&◌, if◌then◌else◌, is_none, is_some,
  select, update_where,
}
use agentis_backend.Config.{Settings}
use agentis_backend.Database.{Session, commit, read, write}
use agentis_backend.Http.{
  Exec, http_error, HttpException, scalar_one_or_none, pure, raise, fail, lift, ◌>>=◌, ◌>>◌,
}
use agentis_backend.Auth.Model.{
  User, RefreshToken, AuthDb, Platform, TokenGrant, get_user, add_refresh_token,
  create_access_token, make_refresh_token, refresh_cookie, role_value,
}

abbrev pub unauthenticated : String → HttpException
unauthenticated message = http_error 401 "unauthenticated" message

-- select(RefreshToken).where(token_hash == hash)
unfoldable pub find_token : String → Exec (Session AuthDb) (Option RefreshToken)
unfolding select
find_token hash = do
  db ← read (λ db. db)
  lift (scalar_one_or_none (select (λ t. str_eq t.token_hash hash) db.refresh_tokens))

-- stored.revoked_at = now, on the row of `stored`
unfoldable pub revoke_token : ℕ → RefreshToken → AuthDb → AuthDb
unfolding update_where
revoke_token now stored db = record db {
  refresh_tokens =
      update_where (λ t. t.id == stored.id) (λ t. record t { revoked_at = some now })
        db.refresh_tokens;
}

-- update(RefreshToken).where(user_id == …, revoked_at is null).values(revoked_at=now)
unfoldable pub revoke_all : ℕ → ℕ → AuthDb → AuthDb
unfolding update_where
revoke_all now user_id db = record db {
  refresh_tokens =
      update_where (λ t. t.user_id == user_id && is_none t.revoked_at)
        (λ t. record t { revoked_at = some now }) db.refresh_tokens;
}

module _ (cfg : Settings) (lib : Platform) (now : ℕ) where
  -- A new pair of tokens for `user`; `id` and `raw` are the random choices.
  unfoldable pub issue : (id : ℕ) (raw : String) → User → Exec (Session AuthDb) TokenGrant
  unfolding create_access_token add_refresh_token refresh_cookie role_value
  issue id raw user = do
    let access =
        create_access_token cfg lib now (lib.uuid_str user.id) (role_value user.role) none none
    let (raw_token, hash) = make_refresh_token lib raw
    add_refresh_token (record {
      id = id;
      user_id = user.id;
      token_hash = hash;
      created_at = now;
      expires_at = now + cfg.jwt_refresh_ttl;
      revoked_at = none;
    })
    commit
    pure (record {
      access_token = access;
      token_type = "bearer";
      expires_in = cfg.jwt_access_ttl;
      cookie = refresh_cookie cfg raw_token;
    })

  -- Revoke the old token and issue a new pair. `user.id` of a missing user is an AttributeError.
  unfoldable pub rotate : (id : ℕ) (raw : String) → RefreshToken → Exec (Session AuthDb) TokenGrant
  unfolding issue revoke_token get_user
  rotate id raw stored = do
    write (revoke_token now stored)
    user ← read (λ db. get_user stored.user_id db.users)
    elim user [ none ↦ fail "AttributeError" | some u ↦ issue id raw u ]

  -- A token that was already revoked ends every session of its user.
  unfoldable pub redeem :
      (id : ℕ) (raw : String) → Option RefreshToken → Exec (Session AuthDb) TokenGrant
  unfolding rotate revoke_all
  redeem id raw none = raise (unauthenticated "Invalid refresh token")
  redeem id raw (some stored) =
      if is_some stored.revoked_at
      then (do
        write (revoke_all now stored.user_id)
        commit
        raise (unauthenticated "Refresh token already used — all sessions revoked"))
      else if ltb stored.expires_at now
      then raise (unauthenticated "Refresh token expired")
      else rotate id raw stored

  -- refresh_token
  unfoldable pub refresh :
      (id : ℕ) (raw : String) → (cookie : Option String) → Exec (Session AuthDb) TokenGrant
  unfolding redeem find_token
  refresh id raw none = raise (unauthenticated "No refresh token")
  refresh id raw (some token) =
      if str_eq token ""
      then raise (unauthenticated "No refresh token")
      else do stored ← find_token (lib.sha256 token); redeem id raw stored

revoke_found : ℕ → Option RefreshToken → Exec (Session AuthDb) Unit
unfolding revoke_token
revoke_found now none = pure tt
revoke_found now (some stored) = do write (revoke_token now stored); commit

-- logout. The response also deletes the cookie, which is the client's.
unfoldable pub logout : Platform → (now : ℕ) → (cookie : Option String) → Exec (Session AuthDb) Unit
unfolding revoke_found find_token
logout lib now none = pure tt
logout lib now (some token) =
    if str_eq token ""
    then pure tt
    else do stored ← find_token (lib.sha256 token); revoke_found now stored
