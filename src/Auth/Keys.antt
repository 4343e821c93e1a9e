-- ===== src/Auth/Keys.antt =====
-- app/routers/auth.py's endpoints of the API keys, app/auth/api_keys.py and app/auth/dependencies.py.
pub mod Lifetime
pub mod Access
use agentis_backend.Prelude.{
  ℕ, ◌+◌, ◌-◌, String, Bool, true, false, ◌&&◌, ◌||◌, Option, none, some, List, [], ◌∷◌, ◌++◌, ◌==◌,
  ltb, leb, str_eq, if◌then◌else◌, is_none, is_some, any, select, count, update_where, map,
}
use agentis_backend.PyText.{◌⧺◌, is_empty}
use agentis_backend.Database.{Session, commit, read, write}
use agentis_backend.Http.{
  Exec, Result, ok, err, HttpException, http_error, scalar_one_or_none, pure, raise, fail, lift,
  ◌>>=◌, ◌>>◌,
}
use agentis_backend.Auth.Model.{
  User, ApiKey, AuthDb, Platform, Claims, Decoded, decoded, expired_signature, jwt_error, get_user,
}

abbrev pub unauthenticated : String → HttpException
unauthenticated message = http_error 401 "unauthenticated" message

-- The keys that count for the limit of a user, and those that list_api_keys shows.
abbrev pub active_key_of : ℕ → ApiKey → Bool
active_key_of user k = k.user_id == user && is_none k.revoked_at

-- generate_api_key: the random text comes from `secrets`, so it is an argument of the model.
abbrev pub generate_api_key : Platform → String → String × String
generate_api_key lib raw = ("agentis_sk_" ⧺ raw, lib.sha256 ("agentis_sk_" ⧺ raw))

-- What create_api_key answers.
pub record NewKey : Type 0 where
  pub key : String
  pub label : Option String
  pub id : ℕ

-- A row of api_keys; key_hash is unique.
abbrev pub add_key : ApiKey → AuthDb → AuthDb
add_key k db = record db { api_keys = db.api_keys ++ k ∷ [] }

unfoldable pub insert_key : ApiKey → Exec (Session AuthDb) Unit
insert_key k s =
    if any (λ j. str_eq j.key_hash k.key_hash) s.session.api_keys
    then fail "IntegrityError" s
    else write (add_key k) s

-- The row of a new key, which expires after 365 days.
abbrev pub key_row : Platform → (now id : ℕ) (raw : String) → Option String → ℕ → ApiKey
key_row lib now id raw label user = record {
  id = id;
  user_id = user;
  key_hash = (generate_api_key lib raw).1;
  label = label;
  created_at = now;
  last_used_at = none;
  expires_at = some (now + 31536000);
  revoked_at = none;
}

-- create_api_key
unfoldable pub create_api_key :
    Platform → (now id : ℕ) (raw : String) → Option String → User → Exec (Session AuthDb) NewKey
unfolding ◌>>=◌
create_api_key lib now id raw label u s =
    if leb 10 (count (active_key_of u.id) s.session.api_keys)
    then raise (http_error 422 "too_many_keys" "Maximum 10 active API keys") s
    else (insert_key (key_row lib now id raw label u.id)
          >> commit
          >> pure (record { key = (generate_api_key lib raw).0; label = label; id = id }))
        s

-- ApiKeyResponse: a key as list_api_keys shows it, without its hash.
pub record ApiKeyResponse : Type 0 where
  pub id : String
  pub label : Option String
  pub created_at : String
  pub expires_at : Option String
  pub last_used_at : Option String

-- `isoformat` is datetime.isoformat.
abbrev pub key_response : Platform → (isoformat : ℕ → String) → ApiKey → ApiKeyResponse
key_response lib isoformat k = record {
  id = lib.uuid_str k.id;
  label = k.label;
  created_at = isoformat k.created_at;
  expires_at = elim k.expires_at [ none ↦ none | some t ↦ some (isoformat t) ];
  last_used_at = elim k.last_used_at [ none ↦ none | some t ↦ some (isoformat t) ];
}

-- list_api_keys
unfoldable pub list_api_keys :
    Platform → (isoformat : ℕ → String) → User → Exec (Session AuthDb) (List ApiKeyResponse)
list_api_keys lib isoformat u =
    read (λ db. map (key_response lib isoformat) (select (active_key_of u.id) db.api_keys))

-- key.revoked_at = now, on the row of `key`
abbrev pub revoke_key : ℕ → ApiKey → AuthDb → AuthDb
revoke_key now key db = record db {
  api_keys =
      update_where (λ k. k.id == key.id) (λ k. record k { revoked_at = some now }) db.api_keys;
}

abbrev pub revoke_found : ℕ → Option ApiKey → Exec (Session AuthDb) Unit
revoke_found now none = raise (http_error 404 "not_found" "API key not found")
revoke_found now (some key) = write (revoke_key now key) >> commit

abbrev pub key_of : ℕ → ℕ → ApiKey → Bool
key_of id user k = k.id == id && k.user_id == user

-- revoke_api_key, of a parsed id
unfoldable pub revoke_id : (now : ℕ) → Option ℕ → User → Exec (Session AuthDb) Unit
revoke_id now none u = raise (http_error 422 "invalid_id" "Invalid UUID format")
revoke_id now (some id) u = read (λ db. db.api_keys) >>= λ keys.
    lift (scalar_one_or_none (select (key_of id u.id) keys)) >>= revoke_found now

-- revoke_api_key
unfoldable pub revoke_api_key :
    Platform → (now : ℕ) → (key_id : String) → User → Exec (Session AuthDb) Unit
revoke_api_key lib now key_id u = revoke_id now (lib.uuid_parse key_id) u

abbrev pub not_expired : ℕ → Option ℕ → Bool
not_expired now none = true
not_expired now (some t) = ltb now t

-- The WHERE of get_current_user.
abbrev pub usable : ℕ → String → ApiKey → Bool
usable now hash k = str_eq k.key_hash hash && is_none k.revoked_at && not_expired now k.expires_at

-- last_used_at, older than 60 seconds
abbrev pub is_stale : ℕ → Option ℕ → Bool
is_stale now none = true
is_stale now (some t) = ltb (t + 60) now

-- last_used_at is written to the session; the endpoint's commit, if it has one, stores it.
abbrev pub touch : ℕ → ApiKey → AuthDb → AuthDb
touch now key db = record db {
  api_keys =
      update_where (λ k. k.id == key.id)
        (λ k. if is_stale now key.last_used_at then record k { last_used_at = some now } else k)
        db.api_keys;
}

abbrev pub live_user : Option User → Exec (Session AuthDb) User
live_user none = raise (unauthenticated "User not found")
live_user (some u) =
    if is_some u.deleted_at then raise (unauthenticated "User not found") else pure u

abbrev pub user_of_id : Option ℕ → Exec (Session AuthDb) User
user_of_id none = fail "DataError"
user_of_id (some id) = read (λ db. get_user id db.users) >>= live_user

abbrev pub by_key : ℕ → Option ApiKey → Exec (Session AuthDb) User
by_key now none = raise (unauthenticated "Invalid API key")
by_key now (some key) = write (touch now key) >> user_of_id (some key.user_id)

abbrev pub by_claims : Platform → Decoded → Exec (Session AuthDb) User
by_claims lib expired_signature = raise (http_error 401 "token_expired" "Access token expired")
by_claims lib jwt_error = raise (unauthenticated "Invalid token")
by_claims lib (decoded claims) = user_of_id (lib.uuid_parse claims.sub)

-- What the Authorization header holds: the token after "Bearer ", if it starts so.
abbrev pub by_bearer : Platform → ℕ → Option String → Exec (Session AuthDb) User
by_bearer lib now none = raise (unauthenticated "Missing credentials")
by_bearer lib now (some token) = by_claims lib (lib.jwt_decode now token)

unfoldable pub by_api_key : Platform → ℕ → String → Exec (Session AuthDb) User
by_api_key lib now key = read (λ db. db.api_keys) >>= λ keys.
    lift (scalar_one_or_none (select (usable now (lib.sha256 key)) keys)) >>= by_key now

-- get_current_user
unfoldable pub get_current_user :
    Platform → (now : ℕ) → (x_api_key bearer : Option String) → Exec (Session AuthDb) User
get_current_user lib now none bearer = by_bearer lib now bearer
get_current_user lib now (some key) bearer =
    if is_empty key then by_bearer lib now bearer else by_api_key lib now key
