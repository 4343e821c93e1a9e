-- ===== src/Auth/Login/Emails.antt =====
-- Registration gives each email, in whatever case, to one user at most.
use agentis_backend.Prelude.{
  ℕ, ◌≤◌, String, ◌≡◌, ◌⊎◌, inl, inr, refl, sym, ◌∙◌, ap, subst, Option, none, some, List, [], ◌∷◌,
  ◌++◌, arith, length, str_eq, eq_iff, any, select, count, count-append, length-select, Bool-cases,
}
use agentis_backend.Config.{Settings}
use agentis_backend.Database.{Session, respond}
use agentis_backend.Http.{Result, ok, err, scalar_one_or_none, ◌>>=◌, and_then, pure}
use agentis_backend.Auth.Model.{User, AuthDb, Platform, TokenGrant, add_refresh_token}
use agentis_backend.Auth.Refresh.{issue}
use agentis_backend.Auth.Register.{
  RegisterRequest, find_user, UserResponse, user_response, with_email, register,
}
use agentis_backend.Auth.Login.Access.{account, with_account}

-- No two users have emails that are the same but for their case.
abbrev pub HasDistinctEmails : Platform → AuthDb → Type 0
HasDistinctEmails lib db = (email : String) → count (with_email lib email) db.users ≤ 1

module _ (cfg : Settings) (lib : Platform) (now user_id id : ℕ) (raw : String) where
  -- The users that are stored after a token is issued: those of before, or those of the session.
  issue_stored :
      (u : User) (s : Session AuthDb)
      → let stored = (issue cfg lib now id raw u s).1.stored in
        (stored ≡ s.stored) ⊎ (stored.users ≡ s.session.users)
  unfolding issue add_refresh_token ◌>>=◌
  issue_stored u s =
      elim (Bool-cases (any (λ t. str_eq t.token_hash (lib.sha256 raw)) s.session.refresh_tokens)) [
        | inl taken ↦ rw taken (inl refl)
        | inr fresh ↦ rw fresh (inr refl)
      ]

  abbrev registered : RegisterRequest → AuthDb → AuthDb
  registered r db = (respond (register cfg lib now user_id id raw r) db).1

  answered :
      (r : Result TokenGrant) (v : UserResponse) (s : Session AuthDb)
      → (and_then {B = UserResponse × TokenGrant} r (λ grant. pure (v, grant)) s).1 ≡ s
  answered (ok grant) v s = refl
  answered (err e) v s = refl

  abbrev begun : RegisterRequest → AuthDb → Session AuthDb
  begun r db = record { stored = db; session = with_account cfg lib user_id r db }

  registered_free :
      (r : RegisterRequest) (db : AuthDb)
      → find_user lib r.email db ≡ ok none
      → registered r db
        ≡ (issue cfg lib now id raw (account cfg lib user_id r) (begun r db)).1.stored
  unfolding register ◌>>=◌
  registered_free r db free =
      rw (free, registered)
        (let (result, s) = issue cfg lib now id raw (account cfg lib user_id r) (begun r db) in
          ap (λ (s : Session AuthDb). s.stored)
            (answered result (user_response lib (account cfg lib user_id r)) s))

  -- A registration stores nothing, or one more user, whose email no user had.
  by_matches :
      (r : RegisterRequest) (db : AuthDb) (matches : List User)
      → select (with_email lib r.email) db.users ≡ matches
      → (registered r db ≡ db)
        ⊎ ((matches ≡ []) × ((registered r db).users ≡ db.users ++ account cfg lib user_id r ∷ []))
  unfolding register find_user ◌>>=◌
  by_matches r db [] same =
      rw (registered_free r db (ap scalar_one_or_none same))
        (elim (issue_stored (account cfg lib user_id r) (begun r db)) [
          | inl e ↦ inl e
          | inr e ↦ inr (refl, e)
        ])
  by_matches r db (x ∷ []) same = rw (same, registered, find_user) (inl refl)
  by_matches r db (x ∷ y ∷ rest) same = rw (same, registered, find_user) (inl refl)

-- An email that matches a new one has as many users as that one.
count-account :
    (cfg : Settings) (lib : Platform) (user_id : ℕ) (r : RegisterRequest) (email : String)
    (users : List User)
    → count (with_email lib email) users ≤ 1
    → count (with_email lib r.email) users ≡ 0
    → count (with_email lib email) (users ++ account cfg lib user_id r ∷ []) ≤ 1
unfolding count
count-account cfg lib user_id r email users distinct none_yet =
    elim (Bool-cases (str_eq (lib.lower r.email) (lib.lower email))) [
      | inl same ↦
          let e = (eq_iff (lib.lower r.email) (lib.lower email)).0 same in
          let matching = λ (text : String) (u : User). str_eq (lib.lower u.email) text in
          ground (
            arith,
            count-append (with_email lib email) users (account cfg lib user_id r ∷ []),
            subst (λ (text : String). count (matching text) users ≡ 0) e none_yet,
          )
      | inr other ↦ ground (
        arith,
        count-append (with_email lib email) users (account cfg lib user_id r ∷ []),
        distinct,
      )
    ]

kept :
    (cfg : Settings) (lib : Platform) (now user_id id : ℕ) (raw : String) (r : RegisterRequest)
    (db : AuthDb)
    → HasDistinctEmails lib db
    → HasDistinctEmails lib (registered cfg lib now user_id id raw r db)
kept cfg lib now user_id id raw r db distinct email =
    elim (by_matches cfg lib now user_id id raw r db (select (with_email lib r.email) db.users)
      refl) [
        | inl same ↦
            subst (λ (d : AuthDb). count (with_email lib email) d.users ≤ 1) (sym same)
              (distinct email)
        | inr (free, more) ↦
            subst (λ (us : List User). count (with_email lib email) us ≤ 1) (sym more)
              (count-account cfg lib user_id r email db.users (distinct email)
                (sym (length-select (with_email lib r.email) db.users) ∙ ap length free))
      ]

one_row :
    (rows : List User) → length rows ≤ 1 → (u : Option User) × (scalar_one_or_none rows ≡ ok u)
one_row [] h = (none, refl)
one_row (u ∷ []) h = (some u, refl)
one_row (u ∷ v ∷ rest) h = absurd (omega arith)

-- Registration, whether it succeeds or fails, keeps every email, in whatever case, with one stored user at
-- most, so that looking up an email does not fail.
pub register-HasDistinctEmails :
    (cfg : Settings) (lib : Platform) (now user_id id : ℕ) (raw : String) (r : RegisterRequest)
    (db : AuthDb)
    → HasDistinctEmails lib db
    → let after = (respond (register cfg lib now user_id id raw r) db).1 in
      HasDistinctEmails lib after
      × ((email : String) → (u : Option User) × (find_user lib email after ≡ ok u))
unfolding find_user
register-HasDistinctEmails cfg lib now user_id id raw r db distinct =
    let distinct' = kept cfg lib now user_id id raw r db distinct in
    let after = registered cfg lib now user_id id raw r db in
    (
      distinct',
      λ email.
          one_row (select (with_email lib email) after.users)
            (omega (arith, length-select (with_email lib email) after.users, distinct' email)),
    )
