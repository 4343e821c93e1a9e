-- ===== src/Auth/Sessions.antt =====
-- What the endpoints of app/routers/auth.py promise of the sessions of the users: a session is a refresh token
-- that is not revoked.
pub mod Steps
pub mod Tokens
pub mod Refinement
mod Examples
use agentis_backend.Prelude.{
  ℕ, String, Bool, true, false, not, Option, List, [], ◌∷◌, ◌++◌, ◌==◌, ◌+◌, none, some, str_eq,
  is_some, if◌then◌else◌, select, ◌≡◌,
}
use agentis_backend.Config.{Settings}
use agentis_backend.Database.{Session, begin}
use agentis_backend.Http.{Result, ok, err}
use agentis_backend.Auth.Model.{User, RefreshToken, AuthDb, Platform}
use agentis_backend.Auth.Refresh.{refresh, logout}
use agentis_backend.Auth.Refresh.Rotation.{active_of}
use agentis_backend.Auth.Login.{login, FailCounts}
use agentis_backend.Auth.Register.{RegisterRequest, register}

-- The sessions of each user, oldest first.
abbrev pub Sessions : Type 0
Sessions = ℕ → List RefreshToken

abbrev pub sessions_of : AuthDb → Sessions
sessions_of db v = active_of v db

-- What can happen to the sessions.
pub data Command : Type 0 where
  keep : Command
  open_session : RefreshToken → Command
  close_session : (id : ℕ) → Command
  swap_session : (id : ℕ) → RefreshToken → Command
  end_sessions : (user : ℕ) → Command

abbrev pub opened : RefreshToken → Sessions → Sessions
opened t s v = if t.user_id == v then s v ++ t ∷ [] else s v

abbrev pub closed : ℕ → Sessions → Sessions
closed id s v = select (λ t. not (t.id == id)) (s v)

abbrev pub emptied : ℕ → Sessions → Sessions
emptied user s v = if user == v then [] else s v

abbrev pub apply : Command → Sessions → Sessions
apply keep s = s
apply (open_session t) s = opened t s
apply (close_session id) s = closed id s
apply (swap_session id t) s = opened t (closed id s)
apply (end_sessions user) s = emptied user s

-- The requests, with the random choices and the times that the model takes as arguments.
pub data Call : Type 0 where
  refreshing : (now id : ℕ) → (raw : String) → (cookie : Option String) → Call
  logging_out : (now : ℕ) → (cookie : Option String) → Call
  logging_in : (now id : ℕ) → (raw email password : String) → (fails : FailCounts) → Call
  registering : (now user_id id : ℕ) → (raw : String) → RegisterRequest → Call

-- The rows of the token that a cookie presents: an empty cookie is none.
abbrev pub presented : Platform → AuthDb → (cookie : Option String) → List RefreshToken
presented lib db none = []
presented lib db (some token) =
    if str_eq token ""
    then []
    else select (λ t. str_eq t.token_hash (lib.sha256 token)) db.refresh_tokens

-- The users of an email, in whatever case.
abbrev pub users_of : Platform → AuthDb → (email : String) → List User
users_of lib db email = select (λ u. str_eq (lib.lower u.email) (lib.lower email)) db.users

abbrev pub new_session : Settings → Platform → (now id : ℕ) → (raw : String) → ℕ → RefreshToken
new_session cfg lib now id raw user = record {
  id = id;
  user_id = user;
  token_hash = lib.sha256 raw;
  created_at = now;
  expires_at = now + cfg.jwt_refresh_ttl;
  revoked_at = none;
}

-- What a request may do to the sessions of a database, by whether it succeeds.
pub data Offers (cfg : Settings) (lib : Platform) (db : AuthDb)
    : Call → Bool → Command → Type 0 where
  refresh_swaps :
      {now id user : ℕ} {raw : String} {cookie : Option String} {old : RefreshToken}
      → presented lib db cookie ≡ old ∷ []
      → is_some old.revoked_at ≡ false
      → user ≡ old.user_id
      → Offers cfg lib db
          (refreshing now id raw cookie)
          true
          (swap_session old.id (new_session cfg lib now id raw user))
  refresh_ends :
      {now id : ℕ} {raw : String} {cookie : Option String} {old : RefreshToken}
      → presented lib db cookie ≡ old ∷ []
      → is_some old.revoked_at ≡ true
      → Offers cfg lib db (refreshing now id raw cookie) false (end_sessions old.user_id)
  refresh_keeps :
      {now id : ℕ} {raw : String} {cookie : Option String}
      → ((old : RefreshToken) → presented lib db cookie ≡ old ∷ [] → is_some old.revoked_at ≡ false)
      → Offers cfg lib db (refreshing now id raw cookie) false keep
  logout_keeps :
      {now : ℕ} {cookie : Option String}
      → presented lib db cookie ≡ []
      → Offers cfg lib db (logging_out now cookie) true keep
  logout_closes :
      {now : ℕ} {cookie : Option String} {old : RefreshToken}
      → presented lib db cookie ≡ old ∷ []
      → Offers cfg lib db (logging_out now cookie) true (close_session old.id)
  logout_fails :
      {now : ℕ} {cookie : Option String} {a b : RefreshToken} {rest : List RefreshToken}
      → presented lib db cookie ≡ a ∷ b ∷ rest
      → Offers cfg lib db (logging_out now cookie) false keep
  login_opens :
      {now id : ℕ} {raw email password hash : String} {fails : FailCounts} {u : User}
      → users_of lib db email ≡ u ∷ []
      → u.password_hash ≡ some hash
      → lib.bcrypt_verify password hash ≡ true
      → is_some u.deleted_at ≡ false
      → Offers cfg lib db
          (logging_in now id raw email password fails)
          true
          (open_session (new_session cfg lib now id raw u.id))
  login_fails :
      {now id : ℕ} {raw email password : String} {fails : FailCounts}
      → Offers cfg lib db (logging_in now id raw email password fails) false keep
  register_opens :
      {now user_id id : ℕ} {raw : String} {r : RegisterRequest}
      → users_of lib db r.email ≡ []
      → Offers cfg lib db
          (registering now user_id id raw r)
          true
          (open_session (new_session cfg lib now id raw user_id))
  register_fails :
      {now user_id id : ℕ} {raw : String} {r : RegisterRequest}
      → Offers cfg lib db (registering now user_id id raw r) false keep

abbrev pub is_ok : {A : Type 0} → Result A → Bool
is_ok (ok a) = true
is_ok (err e) = false

abbrev pub ended : {A : Type 0} → Result A × Session AuthDb → Bool × AuthDb
ended (r, s) = (is_ok r, s.stored)

-- Whether the request succeeds, and the database after it.
unfoldable pub run : Settings → Platform → Call → AuthDb → Bool × AuthDb
run cfg lib (refreshing now id raw cookie) db = ended (refresh cfg lib now id raw cookie (begin db))
run cfg lib (logging_out now cookie) db = ended (logout lib now cookie (begin db))
run cfg lib (logging_in now id raw email password fails) db =
    let (r, g) =
      login cfg lib now id raw email password (record { auth = begin db; fails = fails }) in
    (is_ok r, g.auth.stored)
run cfg lib (registering now user_id id raw r) db =
    ended (register cfg lib now user_id id raw r (begin db))
