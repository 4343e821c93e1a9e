-- ===== src/Auth/Login/Grants.antt =====
-- What is granted with a pair of tokens: a session, and an access token by which get_current_user knows the
-- user.
use agentis_backend.Prelude.{
  ℕ, ◌+◌, ◌≤◌, ◌<◌, String, ◌≡◌, refl, true, false, none, some, [], ◌∷◌, ◌++◌, leb, str_eq, any,
  is_some,
}
use agentis_backend.PyText.{is_empty}
use agentis_backend.Config.{Settings}
use agentis_backend.Database.{Session}
use agentis_backend.Http.{ok, ◌>>=◌}
use agentis_backend.Auth.Model.{
  User, AuthDb, Platform, Claims, decoded, TokenGrant, get_user, add_refresh_token,
  create_access_token, refresh_cookie, role_value,
}
use agentis_backend.Auth.Refresh.{issue}
use agentis_backend.Auth.Keys.{get_current_user}
use agentis_backend.Auth.Login.{Gate, login, set_count, fails_at, no_fails}
use agentis_backend.Auth.Register.{find_user}

-- No refresh token has the hash of the raw text.
abbrev pub IsFresh : Platform → String → AuthDb → Type 0
IsFresh lib raw db = any (λ t. str_eq t.token_hash (lib.sha256 raw)) db.refresh_tokens ≡ false

module _ (cfg : Settings) (lib : Platform) (now id : ℕ) (raw : String) (u : User) where
  abbrev pub granted : TokenGrant
  granted = record {
    access_token =
        create_access_token cfg lib now (lib.uuid_str u.id) (role_value u.role) none none;
    token_type = "bearer";
    expires_in = cfg.jwt_access_ttl;
    cookie = refresh_cookie cfg raw;
  }

  -- The database with a new session of the user.
  abbrev pub with_session : AuthDb → AuthDb
  with_session db = record db {
    refresh_tokens =
        db.refresh_tokens
        ++ record {
          id = id;
          user_id = u.id;
          token_hash = lib.sha256 raw;
          created_at = now;
          expires_at = now + cfg.jwt_refresh_ttl;
          revoked_at = none;
        }
          ∷ [];
  }

  -- A fresh token is stored, committed and granted.
  pub issue_lem :
      (s : Session AuthDb)
      → IsFresh lib raw s.session
      → issue cfg lib now id raw u s
        ≡ (ok granted, record { stored = with_session s.session; session = with_session s.session })
  unfolding issue ◌>>=◌ add_refresh_token
  issue_lem s h = rw h refl

  -- The user of an email, active, whose password is right, is granted a session, and the failed attempts
  -- are forgotten.
  pub login-granted :
      (email password hash : String) (g : Gate)
      → leb 5 (fails_at now (lib.lower email) g.fails) ≡ false
      → find_user lib email g.auth.session ≡ ok (some u)
      → u.password_hash ≡ some hash
      → is_empty hash ≡ false
      → is_some u.deleted_at ≡ false
      → lib.bcrypt_verify password hash ≡ true
      → IsFresh lib raw g.auth.session
      → let db = with_session g.auth.session in
        login cfg lib now id raw email password g ≡ (
          ok granted,
          record {
            auth = record { stored = db; session = db };
            fails = set_count (lib.lower email) no_fails g.fails;
          },
        )
  unfolding login
  login-granted email password hash g free found hashed filled active right fresh =
      rw (free, found, hashed, filled, active, right, issue_lem g.auth fresh) refl

-- The claims of the user's access token.
abbrev pub claims : Settings → Platform → (now : ℕ) → User → Claims
claims cfg lib now u = record {
  sub = lib.uuid_str u.id;
  role = role_value u.role;
  org_id = none;
  iat = now;
  exp = now + cfg.jwt_access_ttl;
}

-- From its issue until it expires, the token of these claims is read back as them; and so is the text of the
-- UUID.
pub record ReadsBack (lib : Platform) (c : Claims) (id : ℕ) : Type 0 where
  pub jwt : (t : ℕ) → c.iat ≤ t → t < c.exp → lib.jwt_decode t (lib.jwt_encode c) ≡ decoded c
  pub uuid : lib.uuid_parse (lib.uuid_str id) ≡ some id

-- An access token authenticates its user from its issue until it expires.
pub granted-get_current_user :
    (cfg : Settings) (lib : Platform) (now id t : ℕ) (raw : String) (u : User) (s : Session AuthDb)
    → ReadsBack lib (claims cfg lib now u) u.id
    → now ≤ t
    → t < now + cfg.jwt_access_ttl
    → get_user u.id s.session.users ≡ some u
    → is_some u.deleted_at ≡ false
    → get_current_user lib t none (some (granted cfg lib now id raw u).access_token) s ≡ (ok u, s)
unfolding get_current_user create_access_token ◌>>=◌
granted-get_current_user cfg lib now id t raw u s reads issued early found live =
    rw (reads.jwt t issued early, reads.uuid, found, live) refl
