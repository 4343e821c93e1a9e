-- ===== src/Auth/Keys/Lifetime.antt =====
-- How long an API key serves, and how many a user has.
use agentis_backend.Prelude.{
  ℕ, ◌+◌, ◌≤◌, String, ◌≡◌, refl, ap, ◌∙◌, false, not, ◌&&◌, Option, some, List, [], ◌∷◌, ◌++◌,
  arith, ◌==◌, leb, str_eq, if◌then◌else◌, any, select, count, count-append, update_where,
  Bool-cases, inl, inr, ==_iff,
}
use agentis_backend.PyText.{is_empty}
use agentis_backend.Database.{respond}
use agentis_backend.Http.{ok, err, http, ◌>>=◌}
use agentis_backend.Auth.Model.{User, ApiKey, AuthDb, Platform}
use agentis_backend.Auth.Keys.{
  unauthenticated, active_key_of, key_row, insert_key, create_api_key, key_of, revoke_key,
  revoke_id, revoke_api_key, usable, by_api_key, get_current_user,
}

-- The number of the keys of a user that are not revoked.
abbrev pub active_keys : ℕ → AuthDb → ℕ
active_keys v db = count (active_key_of v) db.api_keys

count-key_row :
    (lib : Platform) (v now id user : ℕ) (raw : String) (label : Option String) (keys : List ApiKey)
    → count (active_key_of v) (keys ++ key_row lib now id raw label user ∷ [])
      ≡ count (active_key_of v) keys + (if user == v then 1 else 0)
unfolding count
count-key_row lib v now id user raw label keys =
    count-append (active_key_of v) keys (key_row lib now id raw label user ∷ [])
    ∙ ap (λ k. count (active_key_of v) keys + k) (ground arith)

-- Creating a key, for whatever user, keeps the number of active keys of each user at ten or less.
pub create_api_key_limit :
    (lib : Platform) (v now id : ℕ) (raw : String) (label : Option String) (u : User) (db : AuthDb)
    → active_keys v db ≤ 10
    → active_keys v (respond (create_api_key lib now id raw label u) db).1 ≤ 10
unfolding create_api_key insert_key ◌>>=◌
create_api_key_limit lib v now id raw label u db h =
    elim (Bool-cases (leb 10 (count (active_key_of u.id) db.api_keys))) [
      | inl full ↦ rw (respond, full) h
      | inr free ↦
          let row = key_row lib now id raw label u.id in
          elim (Bool-cases (any (λ j. str_eq j.key_hash row.key_hash) db.api_keys)) [
            | inl taken ↦ rw (respond, free, taken) h
            | inr new ↦
                rw (respond, free, new, count-key_row lib v now id u.id raw label db.api_keys)
                  (ground (arith, h, free, ==_iff u.id v))
          ]
    ]

-- Every row with the hash has the id.
abbrev pub IsOnly : ℕ → String → AuthDb → Type 0
IsOnly id hash db = any (λ k. str_eq k.key_hash hash && not (k.id == id)) db.api_keys ≡ false

none_usable :
    (now later id : ℕ) (hash : String) (keys : List ApiKey)
    → any (λ k. str_eq k.key_hash hash && not (k.id == id)) keys ≡ false
    → select
        (usable later hash)
        (update_where (λ k. k.id == id) (λ k. record k { revoked_at = some now }) keys)
      ≡ []
unfolding select update_where
none_usable now later id hash [] h = refl
none_usable now later id hash (k ∷ keys) h = ground (arith, none_usable now later id hash keys)

-- The row that a user's request for a key finds.
abbrev pub own_keys : User → ℕ → AuthDb → List ApiKey
own_keys u id db = select (key_of id u.id) db.api_keys

module _ (lib : Platform) (u : User) (db : AuthDb) (k : ApiKey) where
  revoked :
      (now id : ℕ)
      → own_keys u id db ≡ k ∷ []
      → respond (revoke_id now (some id) u) db ≡ (ok tt, revoke_key now k db)
  unfolding ◌>>=◌ revoke_id
  revoked now id h = rw (respond, h) refl

  refused :
      (later : ℕ) (key : String) (keys : AuthDb)
      → select (usable later (lib.sha256 key)) keys.api_keys ≡ []
      → respond (by_api_key lib later key) keys
        ≡ (err (http (unauthenticated "Invalid API key")), keys)
  unfolding ◌>>=◌ by_api_key
  refused later key keys h = rw (respond, h) refl

  -- The owner of a key revokes it, and from then on, at any time and whatever bearer token comes with it, the
  -- key is refused, if no other row has its hash.
  pub revoke_api_key-get_current_user :
      (now later id : ℕ) (key_id key : String) (bearer : Option String)
      → lib.uuid_parse key_id ≡ some id
      → own_keys u id db ≡ k ∷ []
      → k.id ≡ id
      → is_empty key ≡ false
      → IsOnly id (lib.sha256 key) db
      → let (r, db') = respond (revoke_api_key lib now key_id u) db in
        (r ≡ ok tt)
        × (respond (get_current_user lib later (some key) bearer) db'
            ≡ (err (http (unauthenticated "Invalid API key")), db'))
  unfolding revoke_api_key get_current_user
  revoke_api_key-get_current_user now later id key_id key bearer parsed own same filled only =
      rw (parsed, revoked now id own, filled)
        (
          ap (λ p. p.0) (revoked now id own),
          refused later key (revoke_key now k db)
              (rw same (none_usable now later id (lib.sha256 key) db.api_keys only)),
        )
