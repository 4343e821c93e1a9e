-- ===== src/Auth/Sessions/Tokens.antt =====
-- What refresh and logout do to the sessions.
use agentis_backend.Prelude.{
  ℕ, String, ◌≡◌, refl, true, false, Option, none, some, List, [], ◌∷◌, str_eq, ltb, is_some,
  Bool-cases, inl, inr,
}
use agentis_backend.Config.{Settings}
use agentis_backend.Database.{begin}
use agentis_backend.Http.{◌>>=◌}
use agentis_backend.Auth.Model.{User, RefreshToken, AuthDb, Platform, get_user, get_user-id}
use agentis_backend.Auth.Refresh.{
  rotate, redeem, refresh, logout, revoke_all, revoke_token, find_token,
}
use agentis_backend.Auth.Refresh.Rotation.{with_hash}
use agentis_backend.Auth.Sessions.{
  keep, close_session, swap_session, end_sessions, closed, Call, refreshing, logging_out,
  refresh_swaps, refresh_ends, refresh_keeps, logout_keeps, logout_closes, logout_fails, presented,
  new_session, ended,
}
use agentis_backend.Auth.Sessions.Steps.{
  Refines, kept, active-revoke, active-revoke_all, issue_refines,
}

-- The only row is not revoked.
only_live :
    (rows : List RefreshToken) (stored : RefreshToken)
    → rows ≡ stored ∷ []
    → is_some stored.revoked_at ≡ false
    → (old : RefreshToken) → rows ≡ old ∷ []
    → is_some old.revoked_at ≡ false
only_live rows stored e live old f = cc

module _ (cfg : Settings) (lib : Platform) (now id : ℕ) (raw : String) (cookie : Option String)
    (db : AuthDb) where
  abbrev exchange : Call
  exchange = refreshing now id raw cookie

  -- Redeeming a token that the database has.
  rotate_refines :
      (stored : RefreshToken) (found : Option User)
      → presented lib db cookie ≡ stored ∷ []
      → is_some stored.revoked_at ≡ false
      → get_user stored.user_id db.users ≡ found
      → Refines cfg lib exchange db (ended (rotate cfg lib now id raw stored (begin db)))
  unfolding rotate revoke_token ◌>>=◌
  rotate_refines stored none held live e =
      rw e (kept (refresh_keeps (only_live (presented lib db cookie) stored held live)))
  rotate_refines stored (some u) held live e = rw e (
      issue_refines cfg lib now id raw exchange db u
        (record { stored = db; session = revoke_token now stored db }) (closed stored.id) refl
        (λ v. active-revoke v now stored.id db.refresh_tokens)
        (refresh_keeps (only_live (presented lib db cookie) stored held live))
        (swap_session stored.id (new_session cfg lib now id raw u.id))
        (refresh_swaps held live (get_user-id stored.user_id db.users u e)) (λ v. refl))

  unheld :
      presented lib db cookie ≡ []
      → (old : RefreshToken) → presented lib db cookie ≡ old ∷ []
      → is_some old.revoked_at ≡ false
  unheld e old f = cc

  crowded :
      (a b : RefreshToken) (rest : List RefreshToken)
      → presented lib db cookie ≡ a ∷ b ∷ rest
      → (old : RefreshToken) → presented lib db cookie ≡ old ∷ []
      → is_some old.revoked_at ≡ false
  crowded a b rest e old f = cc

  redeem_refines :
      (t : RefreshToken)
      → presented lib db cookie ≡ t ∷ []
      → Refines cfg lib exchange db (ended (redeem cfg lib now id raw (some t) (begin db)))
  unfolding redeem ◌>>=◌
  redeem_refines t held = elim (Bool-cases (is_some t.revoked_at)) [
    | inl revoked ↦ rw revoked (record {
      command = end_sessions t.user_id;
      offered = refresh_ends held revoked;
      done = λ v. unfold revoke_all in active-revoke_all v now t.user_id db.refresh_tokens;
    })
    | inr live ↦ elim (Bool-cases (ltb t.expires_at now)) [
      | inl late ↦
          rw (live, late) (kept (refresh_keeps (only_live (presented lib db cookie) t held live)))
      | inr valid ↦ rw (live, valid) (rotate_refines t (get_user t.user_id db.users) held live refl)
    ]
  ]

  found_refines :
      (rows : List RefreshToken) (hash : String)
      → with_hash hash db ≡ rows
      → presented lib db cookie ≡ rows
      → Refines cfg lib exchange db
          (ended ((find_token hash >>= redeem cfg lib now id raw) (begin db)))
  unfolding find_token redeem ◌>>=◌
  found_refines [] hash e held = rw e (kept (refresh_keeps (unheld held)))
  found_refines (t ∷ []) hash e held = rw e (redeem_refines t held)
  found_refines (t ∷ u ∷ rest) hash e held = rw e (kept (refresh_keeps (crowded t u rest held)))

module _ (cfg : Settings) (lib : Platform) (now : ℕ) where
  given_rows :
      (token : String) (db : AuthDb)
      → str_eq token "" ≡ false
      → presented lib db (some token) ≡ with_hash (lib.sha256 token) db
  given_rows token db given = rw given refl

  blank_rows :
      (token : String) (db : AuthDb) → str_eq token "" ≡ true → presented lib db (some token) ≡ []
  blank_rows token db blank = rw blank refl

  pub refresh_refines :
      (id : ℕ) (raw : String) (cookie : Option String) (db : AuthDb)
      → Refines cfg lib
          (refreshing now id raw cookie)
          db
          (ended (refresh cfg lib now id raw cookie (begin db)))
  unfolding refresh
  refresh_refines id raw none db = kept (refresh_keeps (unheld cfg lib now id raw none db refl))
  refresh_refines id raw (some token) db = elim (Bool-cases (str_eq token "")) [
    | inl blank ↦ rw blank (
        kept
          (refresh_keeps (unheld cfg lib now id raw (some token) db (blank_rows token db blank))))
    | inr given ↦ rw given (
        found_refines cfg lib now id raw (some token) db (with_hash (lib.sha256 token) db)
          (lib.sha256 token) refl (given_rows token db given))
  ]

  ignored :
      (cookie : Option String) (db : AuthDb)
      → presented lib db cookie ≡ []
      → Refines cfg lib (logging_out now cookie) db (true, db)
  ignored cookie db e = record { command = keep; offered = logout_keeps e; done = λ v. refl }

  logout_found :
      (token : String) (db : AuthDb) (rows : List RefreshToken)
      → with_hash (lib.sha256 token) db ≡ rows
      → presented lib db (some token) ≡ rows
      → str_eq token "" ≡ false
      → Refines cfg lib
          (logging_out now (some token))
          db
          (ended (logout lib now (some token) (begin db)))
  unfolding logout find_token revoke_token ◌>>=◌
  logout_found token db [] e held given = rw (given, e) (ignored (some token) db held)
  logout_found token db (t ∷ []) e held given =
      rw (given, e)
        (record {
          command = close_session t.id;
          offered = logout_closes held;
          done = λ v. active-revoke v now t.id db.refresh_tokens;
        })
  logout_found token db (t ∷ u ∷ rest) e held given = rw (given, e) (kept (logout_fails held))

  pub logout_refines :
      (cookie : Option String) (db : AuthDb)
      → Refines cfg lib (logging_out now cookie) db (ended (logout lib now cookie (begin db)))
  unfolding logout
  logout_refines none db = ignored none db refl
  logout_refines (some token) db = elim (Bool-cases (str_eq token "")) [
    | inl blank ↦ rw blank (ignored (some token) db (blank_rows token db blank))
    | inr given ↦
        logout_found token db (with_hash (lib.sha256 token) db) refl (given_rows token db given)
          given
  ]
