-- ===== src/Auth/Login.antt =====
-- app/routers/auth.py: login with the counter of failed logins, and the profile.
pub mod Lockout
pub mod Grants
pub mod Access
pub mod Emails
pub mod Passwords
mod Examples
use agentis_backend.Prelude.{
  ℕ, ◌+◌, String, Bool, true, false, Option, none, some, List, [], ◌∷◌, ◌++◌, leb, ltb, not, str_eq,
  ◌==◌, if◌then◌else◌, is_some, select, update_where,
}
use Prim.Native.Char.{Char}
use agentis_backend.PyText.{is_empty, len, any_char}
use agentis_backend.Config.{Settings}
use agentis_backend.Database.{Session, read, write}
use agentis_backend.Http.{
  Exec, Result, ok, err, invalid_request, HttpException, http_error, scalar_one_or_none, pure,
  raise, lift, ◌>>=◌, ◌>>◌,
}
use agentis_backend.Auth.Model.{User, UserRole, user, role_value, AuthDb, Platform, TokenGrant}
use agentis_backend.Auth.Refresh.{issue}
use agentis_backend.Auth.Register.{UserResponse, user_response, with_email, find_user}

-- A counter of failed logins in Redis, and the second at which it expires.
pub record FailCount : Type 0 where
  pub count : ℕ
  pub expires_at : ℕ

-- The counters by their key.
abbrev pub FailCounts : Type 0
FailCounts = String → FailCount

-- What Redis answers for a key; 0 stands for no answer.
abbrev pub fails_at : (now : ℕ) (key : String) → FailCounts → ℕ
fails_at now key counts = if ltb now (counts key).expires_at then (counts key).count else 0

abbrev pub set_count : String → FailCount → FailCounts → FailCounts
set_count key c counts k = if str_eq k key then c else counts k

abbrev pub no_fails : FailCount
no_fails = record { count = 0; expires_at = 0 }

-- The database, and the counters.
pub record Gate : Type 0 where
  pub auth : Session AuthDb
  pub fails : FailCounts

abbrev pub rate_limited : HttpException
rate_limited = record {
  status_code = 429;
  code = "rate_limited";
  message = "Too many failed login attempts. Try again in 15 minutes.";
  headers = ("Retry-After", "900") ∷ [];
}

abbrev pub invalid_credentials : HttpException
invalid_credentials = http_error 401 "invalid_credentials" "Invalid email or password"

abbrev pub account_disabled : HttpException
account_disabled = http_error 401 "account_disabled" "Account disabled"

-- An action on the database alone.
abbrev pub on_auth : {A : Type 0} → Exec (Session AuthDb) A → Exec Gate A
on_auth m g = let (r, auth) = m g.auth in (r, record g { auth = auth })

module _ (cfg : Settings) (lib : Platform) (now : ℕ) where
  -- _redis_login_increment, then the refusal
  abbrev pub refuse : String → Exec Gate TokenGrant
  refuse email g =
      let counted : FailCount = record {
        count = fails_at now (lib.lower email) g.fails + 1;
        expires_at = now + 900;
      } in
      raise invalid_credentials (record g { fails = set_count (lib.lower email) counted g.fails })

  -- _redis_login_clear
  abbrev pub clear_fails : String → Gate → Gate
  clear_fails email g = record g { fails = set_count (lib.lower email) no_fails g.fails }

  abbrev pub check_password :
      (id : ℕ) (raw : String) → (email password : String) → User → String → Exec Gate TokenGrant
  check_password id raw email password u hash g =
      if is_empty hash
      then refuse email g
      else if is_some u.deleted_at
      then raise account_disabled g
      else if lib.bcrypt_verify password hash
      then on_auth (issue cfg lib now id raw u) (clear_fails email g)
      else refuse email g

  abbrev pub check_user :
      (id : ℕ) (raw : String) → (email password : String) → Option User → Exec Gate TokenGrant
  check_user id raw email password none = refuse email
  check_user id raw email password (some u) = elim u.password_hash [
    | none ↦ refuse email
    | some hash ↦ check_password id raw email password u hash
  ]

  abbrev pub check_found :
      (id : ℕ) (raw : String)
      → (email password : String) → Result (Option User)
      → Exec Gate TokenGrant
  check_found id raw email password (err e) g = (err e, g)
  check_found id raw email password (ok found) g = check_user id raw email password found g

  -- login: _redis_login_rate_check, then the user and the password
  unfoldable pub login : (id : ℕ) (raw : String) → (email password : String) → Exec Gate TokenGrant
  login id raw email password g =
      if leb 5 (fails_at now (lib.lower email) g.fails)
      then raise rate_limited g
      else check_found id raw email password (find_user lib email g.auth.session) g

-- UserProfileUpdate
pub record UserProfileUpdate : Type 0 where
  pub name : Option String
  pub language : Option String

abbrev pub or_old {ℓ} : {A : Type ℓ} → A → Option A → A
or_old old none = old
or_old old (some new) = new

abbrev pub updated : UserProfileUpdate → User → User
updated body u = record u {
  name = elim body.name [ none ↦ u.name | some n ↦ some n ];
  language = or_old u.language body.language;
}

-- update_current_user_profile: the change is flushed to the session, and not committed.
unfoldable pub update_current_user_profile :
    Platform → UserProfileUpdate → User → Exec (Session AuthDb) UserResponse
update_current_user_profile lib body u =
    write (λ db. record db { users = update_where (λ v. v.id == u.id) (updated body) db.users })
    >> pure (user_response lib (updated body u))

-- get_current_user_usage
abbrev pub get_current_user_usage : User → ℕ
get_current_user_usage u = u.token_used_this_month
