-- ===== src/Auth/Sample.antt =====
-- Small inputs for the tests of the authentication: libraries that are identities, and a database.
use agentis_backend.Prelude.{ℕ, String, Option, none, some, [], ◌∷◌, str_eq}
use agentis_backend.Auth.Model.{User, RefreshToken, AuthDb, Platform, jwt_error, user}

abbrev pub lib : Platform
lib = record {
  sha256 = λ s. s;
  lower = λ s. s;
  bcrypt_hash = λ s. s;
  bcrypt_verify = str_eq;
  jwt_encode = λ c. c.sub;
  jwt_decode = λ now s. jwt_error;
  uuid_str = λ n. "id";
  uuid_parse = λ s. some 1;
}

abbrev pub ann : User
ann = record {
  id = 1;
  email = "ann@x.org";
  name = none;
  password_hash = some "Secret-Pass-1";
  role = user;
  language = "en";
  token_used_this_month = 0;
  deleted_at = none;
}

abbrev pub token : ℕ → String → Option ℕ → RefreshToken
token id hash revoked_at = record {
  id = id;
  user_id = 1;
  token_hash = hash;
  created_at = 0;
  expires_at = 1000;
  revoked_at = revoked_at;
}

abbrev pub db : AuthDb
db = record {
  users = ann ∷ [];
  refresh_tokens = token 1 "old" (some 5) ∷ token 2 "live" none ∷ [];
  api_keys = [];
}
