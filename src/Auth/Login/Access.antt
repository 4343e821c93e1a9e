-- ===== src/Auth/Login/Access.antt =====
-- What registration gives: an account that its email and password open.
use agentis_backend.Prelude.{ℕ, ◌≡◌, true, false, [], ◌∷◌, ◌++◌, ◌==◌, any, select}
use agentis_backend.PyText.{is_empty}
use agentis_backend.Config.{Settings}
use agentis_backend.Auth.Model.{User, AuthDb, Platform}
use agentis_backend.Auth.Register.{RegisterRequest, new_user, with_email}

-- What registration needs: an email that is free, an id that is new, and a password hash that is one.
pub record CanRegister (lib : Platform) (id : ℕ) (r : RegisterRequest) (db : AuthDb) : Type 0 where
  pub free : select (with_email lib r.email) db.users ≡ []
  pub new_id : any (λ v. v.id == id) db.users ≡ false
  pub hashed : is_empty (lib.bcrypt_hash r.password) ≡ false
  pub verified : lib.bcrypt_verify r.password (lib.bcrypt_hash r.password) ≡ true

module _ (cfg : Settings) (lib : Platform) (user_id : ℕ) (r : RegisterRequest) where
  abbrev pub account : User
  account = new_user lib user_id r

  abbrev pub with_account : AuthDb → AuthDb
  with_account db = record db { users = db.users ++ account ∷ [] }
