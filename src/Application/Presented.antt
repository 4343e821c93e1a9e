-- ===== src/Application/Presented.antt =====
-- What the dependency get_current_user establishes: whose credentials a request presents.
use agentis_backend.Prelude.{
  ℕ, ◌≡◌, ◌⊎◌, ◌<◌, inl, inr, refl, sym, ap, subst, String, Bool, true, false, Option, none, some,
  List, [], ◌∷◌, arith, str_eq, eq_iff, is_some, none_of_is_some, none_of_is_none, all_three,
  select, Some, select-Some, Some-mono, ◌∙◌, Bool-cases, if◌then◌else◌,
}
use agentis_backend.PyText.{is_empty}
use agentis_backend.Database.{Session, begin}
use agentis_backend.Http.{
  Failure, Result, ok, err, http, crash, lift, raise, pure, scalar_one_or_none, ◌>>=◌,
}
use agentis_backend.Auth.Model.{
  User, ApiKey, AuthDb, Platform, Claims, Decoded, decoded, expired_signature, jwt_error, get_user,
  get_user-id,
}
use agentis_backend.Auth.Keys.{
  unauthenticated, not_expired, usable, touch, live_user, user_of_id, by_key, by_claims, by_bearer,
  by_api_key, get_current_user,
}
use agentis_backend.Application.{bearer_token}
use agentis_backend.Application.Requests.{Credentials}

-- The time is later than the first, if there is one.
abbrev pub IsAhead : ℕ → Option ℕ → Type 0
IsAhead now none = Unit
IsAhead now (some t) = now < t

module _ (lib : Platform) (now : ℕ) (creds : Credentials) (db : AuthDb) where
  -- The key in the header is one of the user's, neither revoked nor expired.
  abbrev pub PresentsKey : User → Type 0
  PresentsKey u =
      (text : String) × (creds.x_api_key ≡ some text)
      × Some
          (λ k.
            (k.user_id ≡ u.id)
            × ((k.key_hash ≡ lib.sha256 text) × ((k.revoked_at ≡ none) × IsAhead now k.expires_at)))
          db.api_keys

  -- The bearer token is one that the library accepts now, of the user.
  abbrev pub PresentsToken : User → Type 0
  PresentsToken u =
      (token : String) × (claims : Claims) × (bearer_token creds.authorization ≡ some token)
      × (lib.jwt_decode now token ≡ decoded claims)
      × (lib.uuid_parse claims.sub ≡ some u.id)

  -- The credentials are those of a stored user that is not deleted.
  abbrev pub Presents : User → Type 0
  Presents u =
      (get_user u.id db.users ≡ some u) × (u.deleted_at ≡ none) × (PresentsKey u ⊎ PresentsToken u)

-- A refusal: 401, or the 500 of an exception.
abbrev pub IsRefusal : Failure → Type 0
IsRefusal (http e) = e.status_code ≡ 401
IsRefusal (crash text) = Unit
IsRefusal _ = ⊥

-- The action either returns what satisfies `P` or refuses, and commits nothing.
abbrev pub Verdict : (User → Type 0) → AuthDb → Result User × Session AuthDb → Type 0
Verdict P db (ok u, s) = P u × (s.stored ≡ db)
Verdict P db (err e, s) = IsRefusal e × (s.stored ≡ db)

some_injective : {a b : ℕ} → some a ≡ some b → a ≡ b
some_injective h = cc

module _ (P : User → Type 0) (db : AuthDb) (id : ℕ)
    (settle : (u : User)
      → u.id ≡ id
      → get_user u.id db.users ≡ some u
      → u.deleted_at ≡ none
      → P u) where
  live_user-Verdict :
      (found : Option User) (s : Session AuthDb)
      → get_user id db.users ≡ found
      → s.stored ≡ db
      → Verdict P db (live_user found s)
  live_user-Verdict none s e kept = (refl, kept)
  live_user-Verdict (some u) s e kept = by_flag (is_some u.deleted_at) refl
    where
      by_flag :
          (b : Bool)
          → is_some u.deleted_at ≡ b
          → Verdict P db ((if b then raise (unauthenticated "User not found") else pure u) s)
      by_flag true gone = (refl, kept)
      by_flag false alive =
          let same = get_user-id id db.users u e in
          (
            settle u same (subst (λ n. get_user n db.users ≡ some u) (sym same) e)
                (none_of_is_some u.deleted_at alive),
            kept,
          )

module _ (lib : Platform) (now : ℕ) (creds : Credentials) (db : AuthDb) where
  -- The session's view of the users is the stored one.
  abbrev IsView : Session AuthDb → Type 0
  IsView s = (s.stored ≡ db) × (s.session.users ≡ db.users)

  user_of_id-Verdict :
      (P : User → Type 0) (id : Option ℕ)
      → ((u : User) → id ≡ some u.id → get_user u.id db.users ≡ some u → u.deleted_at ≡ none → P u)
      → (s : Session AuthDb) → IsView s
      → Verdict P db (user_of_id id s)
  unfolding ◌>>=◌
  user_of_id-Verdict P none settle s (kept, same) = (tt, kept)
  user_of_id-Verdict P (some id) settle s (kept, same) =
      live_user-Verdict P db id (λ u e. settle u (ap some (sym e))) (get_user id s.session.users) s
        (ap (get_user id) (sym same)) kept

  by_bearer-Verdict :
      Verdict
        (Presents lib now creds db)
        db
        (by_bearer lib now (bearer_token creds.authorization) (begin db))
  by_bearer-Verdict = of_header (bearer_token creds.authorization) refl
    where
      of_token :
          (token : String) (r : Decoded)
          → (bearer_token creds.authorization) ≡ some token
          → lib.jwt_decode now token ≡ r
          → Verdict (Presents lib now creds db) db (by_claims lib r (begin db))
      of_token token expired_signature e f = (refl, refl)
      of_token token jwt_error e f = (refl, refl)
      of_token token (decoded claims) e f =
          user_of_id-Verdict (Presents lib now creds db) (lib.uuid_parse claims.sub)
            (λ u id there alive. (there, alive, inr (token, claims, e, f, id))) (begin db)
            (refl, refl)

      of_header :
          (sent : Option String)
          → bearer_token creds.authorization ≡ sent
          → Verdict (Presents lib now creds db) db (by_bearer lib now sent (begin db))
      of_header none e = (refl, refl)
      of_header (some token) e = of_token token (lib.jwt_decode now token) e refl

  not_expired-IsAhead : (o : Option ℕ) → not_expired now o ≡ true → IsAhead now o
  not_expired-IsAhead none h = tt
  not_expired-IsAhead (some t) h = ground (arith, h)

  -- What the WHERE of get_current_user lets through.
  usable_fields :
      (hash : String) (k : ApiKey)
      → usable now hash k ≡ true
      → (k.key_hash ≡ hash) × ((k.revoked_at ≡ none) × IsAhead now k.expires_at)
  usable_fields hash k h =
      let (same, (live, early)) = all_three (str_eq k.key_hash hash) _ _ h in
      (
        (eq_iff k.key_hash hash).0 same,
        (none_of_is_none k.revoked_at live, not_expired-IsAhead k.expires_at early),
      )

  by_api_key-Verdict :
      (key : String)
      → creds.x_api_key ≡ some key
      → Verdict (Presents lib now creds db) db (by_api_key lib now key (begin db))
  unfolding by_api_key ◌>>=◌
  by_api_key-Verdict key given = of_rows (select (usable now (lib.sha256 key)) db.api_keys) refl
    where
      of_rows :
          (rows : List ApiKey)
          → select (usable now (lib.sha256 key)) db.api_keys ≡ rows
          → Verdict
              (Presents lib now creds db)
              db
              ((lift (scalar_one_or_none rows) >>= by_key now) (begin db))
      of_rows [] e = (refl, refl)
      of_rows (k ∷ l ∷ rest) e = (tt, refl)
      of_rows (k ∷ []) e =
          user_of_id-Verdict (Presents lib now creds db) (some k.user_id)
            (λ u id there alive. (
              there,
              alive,
              inl (
                key,
                given,
                Some-mono _ _
                    (λ j at. (
                      ap (λ (a : ApiKey). a.user_id) at.0 ∙ some_injective id,
                      usable_fields (lib.sha256 key) j at.1,
                    ))
                    db.api_keys (select-Some (usable now (lib.sha256 key)) db.api_keys k [] e),
              ),
            ))
            (record (begin db) { session = touch now k db }) (refl, refl)

  pub get_current_user-Verdict :
      Verdict
        (Presents lib now creds db)
        db
        (get_current_user lib now creds.x_api_key (bearer_token creds.authorization) (begin db))
  unfolding get_current_user
  get_current_user-Verdict = of_header creds.x_api_key refl
    where
      of_header :
          (key : Option String)
          → creds.x_api_key ≡ key
          → Verdict
              (Presents lib now creds db)
              db
              (get_current_user lib now key (bearer_token creds.authorization) (begin db))
      of_header none e = by_bearer-Verdict
      of_header (some key) e = elim (Bool-cases (is_empty key)) [
        | inl blank ↦ rw blank by_bearer-Verdict
        | inr given ↦ rw given (by_api_key-Verdict key e)
      ]
