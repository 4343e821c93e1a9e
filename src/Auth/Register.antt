-- ===== src/Auth/Register.antt =====
-- app/routers/auth.py and app/auth/password.py: registration, behind the validator of the password.
use agentis_backend.Prelude.{
  ℕ, String, Bool, Option, none, some, [], ◌∷◌, ◌++◌, ltb, not, str_eq, if◌then◌else◌, select,
}
use Prim.Native.Char.{Char}
use agentis_backend.PyText.{len, any_char}
use agentis_backend.Config.{Settings}
use agentis_backend.Database.{Session, read, write}
use agentis_backend.Http.{
  Exec, Result, err, invalid_request, HttpException, http_error, scalar_one_or_none, pure, raise,
  lift, ◌>>=◌, ◌>>◌,
}
use agentis_backend.Auth.Model.{User, user, role_value, AuthDb, Platform, TokenGrant}
use agentis_backend.Auth.Refresh.{issue}

pub record UserResponse : Type 0 where
  pub id : String
  pub email : String
  pub name : Option String
  pub role : String
  pub language : String

-- get_current_user_profile, and the answer of the other endpoints that show a user.
abbrev pub user_response : Platform → User → UserResponse
user_response lib u = record {
  id = lib.uuid_str u.id;
  email = u.email;
  name = u.name;
  role = role_value u.role;
  language = u.language;
}

-- The users whose lower-case email is that of the argument.
abbrev pub with_email : Platform → String → User → Bool
with_email lib email u = str_eq (lib.lower u.email) (lib.lower email)

unfoldable pub find_user : Platform → String → AuthDb → Result (Option User)
find_user lib email db = scalar_one_or_none (select (with_email lib email) db.users)

pub record RegisterRequest : Type 0 where
  pub email : String
  pub password : String
  pub name : Option String
  pub language : String

abbrev pub email_taken : HttpException
email_taken = http_error 409 "email_taken" "Email already registered"

abbrev pub new_user : Platform → ℕ → RegisterRequest → User
new_user lib id r = record {
  id = id;
  email = r.email;
  name = r.name;
  password_hash = some (lib.bcrypt_hash r.password);
  role = user;
  language = r.language;
  token_used_this_month = 0;
  deleted_at = none;
}

module _ (cfg : Settings) (lib : Platform) (now : ℕ) where
  abbrev pub register_new :
      (user_id token_id : ℕ) (raw : String)
      → RegisterRequest
      → Option User
      → Exec (Session AuthDb) (UserResponse × TokenGrant)
  register_new user_id token_id raw r (some taken) = raise email_taken
  register_new user_id token_id raw r none =
      write (λ db. record db { users = db.users ++ new_user lib user_id r ∷ [] })
      >> issue cfg lib now token_id raw (new_user lib user_id r)
      >>= λ grant. pure (user_response lib (new_user lib user_id r), grant)

  -- register, of a request whose password passed the validation
  unfoldable pub register :
      (user_id token_id : ℕ) (raw : String)
      → RegisterRequest
      → Exec (Session AuthDb) (UserResponse × TokenGrant)
  register user_id token_id raw r = read (λ db. db) >>= λ db.
      lift (find_user lib r.email db) >>= register_new user_id token_id raw r

-- Python's str.isupper and str.isdigit of a character, and the text in which pydantic reports the ValueError of
-- a validator.
pub record Validation : Type 0 where
  pub isupper : Char → Bool
  pub isdigit : Char → Bool
  pub report : String → String

-- validate_password_strength: the message of its ValueError, if it raises one.
unfoldable pub validate_password_strength : Validation → String → Option String
unfolding any_char len
validate_password_strength v password =
    if ltb (len password) 12
    then some "Password must be at least 12 characters"
    else if not (any_char v.isupper password)
    then some "Password must contain at least one uppercase letter"
    else if not (any_char v.isdigit password)
    then some "Password must contain at least one digit"
    else none

-- A request of register whose body pydantic reads: the handler runs if the password passes the validator.
abbrev pub validated : {S A : Type 0} → Validation → Option String → Exec S A → Exec S A
validated v none handler = handler
validated v (some message) handler = λ s. (err (invalid_request (v.report message)), s)

module _ (cfg : Settings) (lib : Platform) (v : Validation) (now : ℕ) where
  unfoldable pub post_register :
      (user_id token_id : ℕ) (raw : String)
      → RegisterRequest
      → Exec (Session AuthDb) (UserResponse × TokenGrant)
  post_register user_id token_id raw r =
      validated v (validate_password_strength v r.password)
        (register cfg lib now user_id token_id raw r)
