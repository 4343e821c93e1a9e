-- ===== src/Auth/Sessions/Steps.antt =====
-- What it is to implement a command on the sessions, and what writing to the table of tokens does to them.
use mathlib.Core.List.{append-nil}
use agentis_backend.Prelude.{
  ℕ, String, ◌≡◌, refl, ◌∙◌, sym, ap, Bool, true, false, some, List, [], ◌∷◌, ◌++◌, arith, ◌==◌,
  any, str_eq, is_none, if◌then◌else◌, select, select-append, update_where, Bool-cases, inl, inr,
  ◌&&◌,
}
use agentis_backend.Config.{Settings}
use agentis_backend.Database.{Session}
use agentis_backend.Http.{◌>>=◌}
use agentis_backend.Auth.Model.{User, RefreshToken, AuthDb, Platform, add_refresh_token}
use agentis_backend.Auth.Refresh.{issue}
use agentis_backend.Auth.Sessions.{
  Sessions, sessions_of, Command, keep, opened, closed, apply, Call, Offers, new_session, ended,
}

-- The request does to the sessions what a command does that it offers.
pub record Refines (cfg : Settings) (lib : Platform) (call : Call) (db : AuthDb)
    (out : Bool × AuthDb) : Type 0 where
  pub command : Command
  pub offered : Offers cfg lib db call out.0 command
  pub done : (v : ℕ) → sessions_of out.1 v ≡ apply command (sessions_of db) v

pub kept :
    {cfg : Settings} {lib : Platform} {call : Call} {db : AuthDb}
    → Offers cfg lib db call false keep
    → Refines cfg lib call db (false, db)
kept h = record { command = keep; offered = h; done = λ v. refl }

-- A new row of the table is a new session of its user.
pub active-append :
    (v : ℕ) (t : RefreshToken) (xs : List RefreshToken)
    → is_none t.revoked_at ≡ true
    → select (λ r. r.user_id == v && is_none r.revoked_at) (xs ++ t ∷ [])
      ≡ opened t (λ u. select (λ r. r.user_id == u && is_none r.revoked_at) xs) v
unfolding select
active-append v t xs h =
    select-append (λ r. r.user_id == v && is_none r.revoked_at) xs (t ∷ [])
    ∙ elim (Bool-cases (t.user_id == v)) [
      | inl same ↦ rw (same, h) refl
      | inr other ↦
          rw (other, append-nil (select (λ r. r.user_id == v && is_none r.revoked_at) xs)) refl
    ]

-- Revoking the rows of an id closes the sessions of the id.
pub active-revoke :
    (v now id : ℕ) (xs : List RefreshToken)
    → select
        (λ r. r.user_id == v && is_none r.revoked_at)
        (update_where (λ t. t.id == id) (λ t. record t { revoked_at = some now }) xs)
      ≡ closed id (λ u. select (λ r. r.user_id == u && is_none r.revoked_at) xs) v
unfolding select update_where
active-revoke v now id [] = refl
active-revoke v now id (x ∷ xs) = ground (arith, active-revoke v now id xs)

pub active-revoke_all :
    (v now user : ℕ) (xs : List RefreshToken)
    → select
        (λ r. r.user_id == v && is_none r.revoked_at)
        (update_where
          (λ t. t.user_id == user && is_none t.revoked_at)
          (λ t. record t { revoked_at = some now })
          xs)
      ≡ (if user == v then [] else select (λ r. r.user_id == v && is_none r.revoked_at) xs)
unfolding select update_where
active-revoke_all v now user [] = ground arith
active-revoke_all v now user (x ∷ xs) = ground (arith, active-revoke_all v now user xs)

module _ (cfg : Settings) (lib : Platform) (now id : ℕ) (raw : String) where
  -- Issuing either stores a new session with the user's id, or fails and stores nothing.
  pub issue_refines :
      (call : Call) (db : AuthDb) (u : User) (s : Session AuthDb) (f : Sessions → Sessions)
      → s.stored ≡ db
      → ((v : ℕ) → sessions_of s.session v ≡ f (sessions_of db) v)
      → Offers cfg lib db call false keep
      → (c : Command) → Offers cfg lib db call true c
      → ((v : ℕ)
          → apply c (sessions_of db) v
            ≡ opened (new_session cfg lib now id raw u.id) (f (sessions_of db)) v)
      → Refines cfg lib call db (ended (issue cfg lib now id raw u s))
  unfolding issue add_refresh_token ◌>>=◌
  issue_refines call db u s f same view fails c offered effect =
      elim (Bool-cases (any (λ t. str_eq t.token_hash (lib.sha256 raw)) s.session.refresh_tokens)) [
        | inl taken ↦ rw (taken, same) (kept fails)
        | inr fresh ↦ rw fresh (record {
          command = c;
          offered = offered;
          done = λ v.
              active-append v (new_session cfg lib now id raw u.id) s.session.refresh_tokens refl
              ∙ ap
                  (λ (l : List RefreshToken).
                    if u.id == v then l ++ new_session cfg lib now id raw u.id ∷ [] else l)
                  (view v)
              ∙ sym (effect v);
        })
      ]
