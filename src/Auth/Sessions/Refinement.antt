-- ===== src/Auth/Sessions/Refinement.antt =====
-- Login and registration, and the theorem that the endpoints implement what is promised of the sessions.
use agentis_backend.Prelude.{
  ℕ, String, ◌≡◌, refl, Bool, Option, none, some, List, [], ◌∷◌, ◌++◌, leb, is_some, Bool-cases,
  inl, inr,
}
use agentis_backend.Config.{Settings}
use agentis_backend.Database.{Session, begin}
use agentis_backend.Http.{scalar_one_or_none, Result, ok, err, ◌>>=◌, and_then, pure}
use agentis_backend.Auth.Model.{TokenGrant, User, AuthDb, Platform}
use agentis_backend.Auth.Refresh.{issue}
use agentis_backend.Auth.Login.{
  Gate, FailCounts, fails_at, check_password, check_user, check_found, login,
}
use agentis_backend.Auth.Register.{
  find_user, RegisterRequest, register, new_user, user_response, UserResponse,
}
use agentis_backend.Auth.Sessions.{
  open_session, Call, refreshing, logging_out, logging_in, registering, login_opens, login_fails,
  register_opens, register_fails, users_of, new_session, is_ok, ended, run,
}
use agentis_backend.PyText.{is_empty}
use agentis_backend.Auth.Sessions.Tokens.{refresh_refines, logout_refines}
use agentis_backend.Auth.Sessions.Steps.{Refines, kept, issue_refines}

found_one : (rows : List User) (u : User) → scalar_one_or_none rows ≡ ok (some u) → rows ≡ u ∷ []
found_one [] u e = cc
found_one (v ∷ []) u e = cc
found_one (v ∷ w ∷ rest) u e = cc

found_none : (rows : List User) → scalar_one_or_none rows ≡ ok none → rows ≡ []
found_none [] e = refl
found_none (v ∷ []) e = cc
found_none (v ∷ w ∷ rest) e = cc

module _ (cfg : Settings) (lib : Platform) (now id : ℕ) (raw email password : String)
    (fails : FailCounts) where
  abbrev attempt : Call
  attempt = logging_in now id raw email password fails

  abbrev gate : AuthDb → FailCounts → Gate
  gate db counts = record { auth = begin db; fails = counts }

  abbrev at_gate : Result TokenGrant × Gate → Bool × AuthDb
  at_gate (r, g) = (is_ok r, g.auth.stored)

  check_password_refines :
      (db : AuthDb) (u : User) (hash : String)
      → users_of lib db email ≡ u ∷ []
      → u.password_hash ≡ some hash
      → Refines cfg lib attempt db
          (at_gate (check_password cfg lib now id raw email password u hash (gate db fails)))
  check_password_refines db u hash row hashed = elim (Bool-cases (is_empty hash)) [
    | inl blank ↦ rw blank (kept login_fails)
    | inr filled ↦ elim (Bool-cases (is_some u.deleted_at)) [
      | inl deleted ↦ rw (filled, deleted) (kept login_fails)
      | inr active ↦ elim (Bool-cases (lib.bcrypt_verify password hash)) [
        | inl right ↦
            rw (filled, active, right)
              (issue_refines cfg lib now id raw attempt db u (begin db) (λ s. s) refl (λ v. refl)
                login_fails (open_session (new_session cfg lib now id raw u.id))
                (login_opens row hashed right active) (λ v. refl))
        | inr wrong ↦ rw (filled, active, wrong) (kept login_fails)
      ]
    ]
  ]

  check_user_refines :
      (db : AuthDb) (u : User) (hash : Option String)
      → users_of lib db email ≡ u ∷ []
      → u.password_hash ≡ hash
      → Refines cfg lib attempt db
          (at_gate (check_user cfg lib now id raw email password (some u) (gate db fails)))
  check_user_refines db u none row e = rw e (kept login_fails)
  check_user_refines db u (some hash) row e = simp e (check_password_refines db u hash row e)

  check_found_refines :
      (db : AuthDb) (found : Result (Option User))
      → find_user lib email db ≡ found
      → Refines cfg lib attempt db
          (at_gate (check_found cfg lib now id raw email password found (gate db fails)))
  unfolding find_user
  check_found_refines db (err e) rows = kept login_fails
  check_found_refines db (ok none) rows = kept login_fails
  check_found_refines db (ok (some u)) rows =
      check_user_refines db u u.password_hash (found_one (users_of lib db email) u rows) refl

  login_refines :
      (db : AuthDb)
      → Refines cfg lib attempt db
          (at_gate (login cfg lib now id raw email password (gate db fails)))
  unfolding login
  login_refines db = elim (Bool-cases (leb 5 (fails_at now (lib.lower email) fails))) [
    | inl closed_out ↦ rw closed_out (kept login_fails)
    | inr free ↦ rw free (check_found_refines db (find_user lib email db) refl)
  ]

module _ (cfg : Settings) (lib : Platform) (now user_id id : ℕ) (raw : String)
    (r : RegisterRequest) where
  abbrev registration : Call
  registration = registering now user_id id raw r

  answered :
      (result : Result TokenGrant) (v : UserResponse) (s : Session AuthDb)
      → ended (and_then {B = UserResponse × TokenGrant} result (λ grant. pure (v, grant)) s)
        ≡ (is_ok result, s.stored)
  answered (ok grant) v s = refl
  answered (err e) v s = refl

  register_found :
      (db : AuthDb) (found : Result (Option User))
      → find_user lib r.email db ≡ found
      → Refines cfg lib registration db (ended (register cfg lib now user_id id raw r (begin db)))
  unfolding register ◌>>=◌
  register_found db (err e) same = rw same (kept register_fails)
  register_found db (ok (some taken)) same = rw same (kept register_fails)
  register_found db (ok none) same =
      let u = new_user lib user_id r in
      let s : Session AuthDb = record {
        stored = db;
        session = record db { users = db.users ++ u ∷ [] };
      } in
      let (result, s') = issue cfg lib now id raw u s in
      rw (same, answered result (user_response lib u) s')
        (issue_refines cfg lib now id raw registration db u s (λ s. s) refl (λ v. refl)
          register_fails (open_session (new_session cfg lib now id raw user_id))
          (register_opens (found_none (users_of lib db r.email) (unfold find_user in same)))
          (λ v. refl))

-- Every request, whatever its arguments and whatever comes of it, does to the sessions of the users what a
-- command that it offers does. A refresh that succeeds swaps the session of the token in the cookie for a new one
-- of the same user, with the hash of the new token; one that fails ends all the sessions of the user if that token
-- was revoked, and else changes nothing. A logout closes the session of the token in the cookie, and changes
-- nothing if there is none or more than one. A login that succeeds opens a session of the one user of the email,
-- who is not deleted and whose password it is; a registration that succeeds opens one of the new user, whose email
-- no one has; they change nothing otherwise.
pub run_refines :
    (cfg : Settings) (lib : Platform) (call : Call) (db : AuthDb)
    → Refines cfg lib call db (run cfg lib call db)
unfolding run
run_refines cfg lib (refreshing now id raw cookie) db = refresh_refines cfg lib now id raw cookie db
run_refines cfg lib (logging_out now cookie) db = logout_refines cfg lib now cookie db
run_refines cfg lib (logging_in now id raw email password fails) db =
    login_refines cfg lib now id raw email password fails db
run_refines cfg lib (registering now user_id id raw r) db =
    register_found cfg lib now user_id id raw r db (find_user lib r.email db) refl
