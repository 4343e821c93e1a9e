-- ===== src/Auth/Examples.antt =====
-- The theorems about the authentication at concrete inputs.
use agentis_backend.Prelude.{
  ◌+◌, length, suc, ltb, if◌then◌else◌, ℕ, ◌≡◌, ◌≢◌, refl, some, none, [], ◌∷◌, List, String, ◌≤◌,
  arith, select, count,
}
use agentis_backend.Config.{defaults}
use agentis_backend.Http.{ok, err, http}
use agentis_backend.Database.{respond, begin}
use agentis_backend.Auth.Keys.{
  unauthenticated, key_row, create_api_key, revoke_api_key, get_current_user,
}
use agentis_backend.Auth.Keys.Lifetime.{
  active_keys, create_api_key_limit, revoke_api_key-get_current_user,
}
use agentis_backend.Auth.RateLimit.{within, too_many, check_rate_limit}
use agentis_backend.Auth.RateLimit.Window.{after, check_rate_limit_lem}
use agentis_backend.Auth.Login.{Gate, login, rate_limited, no_fails}
use agentis_backend.Auth.Register.{find_user}
use agentis_backend.Auth.Login.Lockout.{IsSoon, attempts, failures_at, login_lockout}
use agentis_backend.Auth.Model.{get_user, ApiKey, AuthDb}
use agentis_backend.Auth.Sample.{lib, ann, token, db}
use agentis_backend.Auth.Refresh.Rotation.{
  active_of, outcome, grant, replayed, IsRedeemable, refresh-replay, refresh-single_use,
}

refresh-replay_example :
    ((outcome defaults lib 10 3 "new" "old" db).0 ≡ err (http replayed))
    × (active_of 1 (outcome defaults lib 10 3 "new" "old" db).1 ≡ [])
    × ((v : ℕ) → v ≢ 1 → active_of v (outcome defaults lib 10 3 "new" "old" db).1 ≡ active_of v db)
unfolding select
refresh-replay_example =
    refresh-replay defaults lib 10 3 "new" "old" db (token 1 "old" (some 5)) refl refl refl

live-IsRedeemable : IsRedeemable lib 10 "new" "live" db (token 2 "live" none) ann
unfolding select get_user
live-IsRedeemable = record {
  some_token = refl;
  found = refl;
  live = refl;
  fresh = refl;
  owner = refl;
  unused = refl;
}

refresh-single_use_example :
    ((outcome defaults lib 10 3 "new" "live" db).0
      ≡ ok (grant defaults lib 10 3 "new" "live" db ann))
    × ((outcome defaults lib 20 4 "newer" "live" (outcome defaults lib 10 3 "new" "live" db).1).0
        ≡ err (http replayed))
    × (active_of 1
          (outcome defaults lib 20 4 "newer" "live" (outcome defaults lib 10 3 "new" "live" db).1).1
        ≡ [])
refresh-single_use_example =
    refresh-single_use defaults lib 10 3 "new" "live" db (token 2 "live" none) ann 20 4 "newer"
      live-IsRedeemable

-- A database with one API key of ann.
abbrev key : ApiKey
key = key_row lib 0 1 "aa" none 1

abbrev key_db : AuthDb
key_db = record db { api_keys = key ∷ [] }

create_api_key_limit_example :
    active_keys 1 (respond (create_api_key lib 5 2 "bb" none ann) key_db).1 ≤ 10
unfolding count
create_api_key_limit_example = create_api_key_limit lib 1 5 2 "bb" none ann key_db (omega arith)

revoke_api_key-get_current_user_example :
    let (r, db') = respond (revoke_api_key lib 5 "1" ann) key_db in
    (r ≡ ok tt)
    × (respond (get_current_user lib 9 (some "agentis_sk_aa") none) db'
        ≡ (err (http (unauthenticated "Invalid API key")), db'))
unfolding select
revoke_api_key-get_current_user_example =
    revoke_api_key-get_current_user lib ann key_db key 5 9 1 "1" "agentis_sk_aa" none refl refl refl
      refl refl

abbrev gate : Gate
gate = record { auth = begin db; fails = λ k. no_fails }

abbrev guesses : List (ℕ × String)
guesses = (10, "a") ∷ (20, "b") ∷ (30, "c") ∷ (40, "d") ∷ (50, "e") ∷ []

login_lockout_example :
    let after_guesses = attempts defaults lib 3 "new" "ann@x.org" guesses gate in
    (IsSoon 10 900
      → login defaults lib 900 3 "new" "ann@x.org" "Secret-Pass-1" after_guesses
        ≡ (err (http rate_limited), after_guesses))
    × (10 + 1800 ≤ 900 → failures_at defaults lib 3 "new" "ann@x.org" 900 after_guesses ≡ 0)
unfolding find_user select
login_lockout_example =
    login_lockout defaults lib 3 "new" "ann@x.org" "Secret-Pass-1" ann 10 guesses 900
      "Secret-Pass-1" gate (record { found = refl; hashed = refl; filled = refl; active = refl })
      (
        ((omega arith, omega arith), refl),
        (
          ((omega arith, omega arith), refl),
          (
            ((omega arith, omega arith), refl),
            (((omega arith, omega arith), refl), (((omega arith, omega arith), refl), tt)),
          ),
        ),
      )
      (omega arith) refl

check_rate_limit_lem_example : (check_rate_limit 2 30 (after 2 (20 ∷ 10 ∷ []))).0 ≡ (
    if ltb 2 (suc (length (select (within 30) (20 ∷ 10 ∷ []))))
    then err (http (too_many 2 30))
    else ok tt)
check_rate_limit_lem_example =
    check_rate_limit_lem 2 30 (20 ∷ 10 ∷ [])
      ((omega arith, (omega arith, tt)), ((omega arith, tt), (tt, tt)))
