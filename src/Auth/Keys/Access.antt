-- ===== src/Auth/Keys/Access.antt =====
-- What a new API key is good for.
use mathlib.Core.List.{map-append}
use agentis_backend.Prelude.{
  map, ==_refl, none, ℕ, ◌+◌, ◌<◌, String, ◌≡◌, refl, false, Option, some, List, [], ◌∷◌, ◌++◌,
  arith, leb, str_eq, any, select, select-append, count,
}
use agentis_backend.Database.{respond}
use agentis_backend.Http.{Result, ok, ◌>>=◌}
use agentis_backend.Auth.Model.{User, ApiKey, AuthDb, Platform}
use agentis_backend.Auth.Keys.{
  create_api_key, insert_key, generate_api_key, key_row, add_key, active_key_of, list_api_keys,
  ApiKeyResponse, key_response,
}

module _ (lib : Platform) (now id t : ℕ) (raw : String) (label : Option String) (u : User)
    (db : AuthDb) where
  abbrev pub text : String
  text = (generate_api_key lib raw).0

  abbrev row : ApiKey
  row = key_row lib now id raw label u.id

  created :
      leb 10 (count (active_key_of u.id) db.api_keys) ≡ false
      → any (λ k. str_eq k.key_hash (lib.sha256 text)) db.api_keys ≡ false
      → respond (create_api_key lib now id raw label u) db
        ≡ (ok (record { key = text; label = label; id = id }), add_key row db)
  unfolding create_api_key insert_key ◌>>=◌
  created few fresh = rw (respond, few, fresh) refl

  -- list_api_keys, with a rendering of times.
  abbrev pub listed : (isoformat : ℕ → String) → AuthDb → Result (List ApiKeyResponse)
  listed isoformat d = (respond (list_api_keys lib isoformat u) d).0

  -- A key that is created for a user with fewer than ten active keys, if no row has its hash, is shown by
  -- list_api_keys beside those that were shown before, last if rows are shown in the order in which they
  -- were added.
  pub create_api_key-list_api_keys :
      (isoformat : ℕ → String)
      → count (active_key_of u.id) db.api_keys < 10
      → any (λ k. str_eq k.key_hash (lib.sha256 text)) db.api_keys ≡ false
      → let after = (respond (create_api_key lib now id raw label u) db).1 in
        (shown : List ApiKeyResponse) × (listed isoformat db ≡ ok shown)
        × (listed isoformat after
            ≡ ok (
                shown
                ++ record {
                  id = lib.uuid_str id;
                  label = label;
                  created_at = isoformat now;
                  expires_at = some (isoformat (now + 31536000));
                  last_used_at = none;
                }
                  ∷ []))
  unfolding list_api_keys select
  create_api_key-list_api_keys isoformat few fresh =
      let show = key_response lib isoformat in
      let mine = select (active_key_of u.id) db.api_keys in
      (
        map show mine,
        refl,
        rw
            (
              created (ground arith) fresh,
              select-append (active_key_of u.id) db.api_keys (row ∷ []),
              ==_refl u.id,
              map-append show mine (row ∷ []),
            )
            refl,
      )
