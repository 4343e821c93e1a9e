-- ===== src/Auth/Model.antt =====
-- app/models/user.py, app/auth/jwt.py and app/auth/api_keys.py: the rows, the database session, and the
-- libraries that the authentication code calls.
use agentis_backend.Prelude.{
  ℕ, String, ◌+◌, Bool, Option, none, some, List, [], ◌∷◌, ◌++◌, ◌==◌, str_eq, not, if◌then◌else◌,
  any, ◌≡◌, arith, ==_iff, Bool-cases, inl, inr,
}
use agentis_backend.Config.{Settings}
use agentis_backend.Database.{Session, write}
use agentis_backend.Http.{Exec, fail}

pub data UserRole : Type 0 where
  user admin operator : UserRole

unfoldable pub role_value : UserRole → String
role_value user = "user"
role_value admin = "admin"
role_value operator = "operator"

-- A UUID is its 128-bit number, and a time counts seconds.
pub record User : Type 0 where
  pub id : ℕ
  pub email : String
  pub name : Option String
  pub password_hash : Option String
  pub role : UserRole
  pub language : String
  pub token_used_this_month : ℕ
  pub deleted_at : Option ℕ

pub record RefreshToken : Type 0 where
  pub id : ℕ
  pub user_id : ℕ
  pub token_hash : String
  pub created_at : ℕ
  pub expires_at : ℕ
  pub revoked_at : Option ℕ

pub record ApiKey : Type 0 where
  pub id : ℕ
  pub user_id : ℕ
  pub key_hash : String
  pub label : Option String
  pub created_at : ℕ
  pub last_used_at : Option ℕ
  pub expires_at : Option ℕ
  pub revoked_at : Option ℕ

pub record AuthDb : Type 0 where
  pub users : List User
  pub refresh_tokens : List RefreshToken
  pub api_keys : List ApiKey

-- The claims of an access token.
pub record Claims : Type 0 where
  pub sub : String
  pub role : String
  pub org_id : Option String
  pub iat : ℕ
  pub exp : ℕ

-- What jwt.decode does with a token: its claims, ExpiredSignatureError, or another PyJWTError.
pub data Decoded : Type 0 where
  decoded : Claims → Decoded
  expired_signature : Decoded
  jwt_error : Decoded

-- The libraries: hashlib, str.lower, passlib, PyJWT with the deployed key pair, uuid. The theorems state
-- what they need of these as hypotheses.
pub record Platform : Type 0 where
  pub sha256 : String → String
  pub lower : String → String
  pub bcrypt_hash : String → String
  pub bcrypt_verify : String → String → Bool
  pub jwt_encode : Claims → String
  pub jwt_decode : ℕ → String → Decoded
  pub uuid_str : ℕ → String
  pub uuid_parse : String → Option ℕ

-- db.get(User, id)
unfoldable pub get_user : ℕ → List User → Option User
get_user id [] = none
get_user id (u ∷ us) = if u.id == id then some u else get_user id us

pub get_user-id : (id : ℕ) (users : List User) (u : User) → get_user id users ≡ some u → u.id ≡ id
unfolding get_user
get_user-id id [] u h = cc
get_user-id id (v ∷ users) u h = elim (Bool-cases (v.id == id)) [
  | inl e ↦ ground (arith, h, e, ==_iff v.id id)
  | inr e ↦ get_user-id id users u (ground (arith, h))
]

-- db.add(RefreshToken(…)), flushed: token_hash is unique.
unfoldable pub add_refresh_token : RefreshToken → Exec (Session AuthDb) Unit
add_refresh_token t s =
    if any (λ r. str_eq r.token_hash t.token_hash) s.session.refresh_tokens
    then fail "IntegrityError" s
    else write (λ db. record db { refresh_tokens = db.refresh_tokens ++ t ∷ [] }) s

-- _make_refresh_token: the raw token comes from `secrets`, so it is an argument of the model.
abbrev pub make_refresh_token : Platform → String → String × String
make_refresh_token lib raw = (raw, lib.sha256 raw)

-- create_access_token
unfoldable pub create_access_token :
    Settings
    → Platform
    → (now : ℕ) → (user_id role : String) → (org_id : Option String) → (ttl : Option ℕ) → String
create_access_token cfg lib now user_id role org_id ttl =
    let life : ℕ = elim ttl [ none ↦ cfg.jwt_access_ttl | some t ↦ t ] in
    lib.jwt_encode
      (record { sub = user_id; role = role; org_id = org_id; iat = now; exp = now + life })

pub record Cookie : Type 0 where
  pub value : String
  pub httponly : Bool
  pub samesite : String
  pub secure : Bool
  pub max_age : ℕ
  pub path : String

-- _set_refresh_cookie
unfoldable pub refresh_cookie : Settings → String → Cookie
refresh_cookie cfg raw = record {
  value = raw;
  httponly = Bool.true;
  samesite = "strict";
  secure = not (str_eq cfg.environment "development");
  max_age = cfg.jwt_refresh_ttl;
  path = "/api/v1/auth";
}

-- TokenResponse, with the cookie that goes with it.
pub record TokenGrant : Type 0 where
  pub access_token : String
  pub token_type : String
  pub expires_in : ℕ
  pub cookie : Cookie
