-- ===== src/Auth/Login/Lockout.antt =====
-- Guessing a password: five wrong ones close the account's login for a while.
use agentis_backend.Prelude.{
  ℕ, ◌+◌, ◌≤◌, ◌<◌, String, ◌≡◌, refl, sym, ap, subst, true, false, some, List, [], ◌∷◌, arith, leb,
  length, All, str_eq_refl, is_some, Bool-cases, inl, inr,
}
use agentis_backend.PyText.{is_empty}
use agentis_backend.Config.{Settings}
use agentis_backend.Http.{ok, err, http}
use agentis_backend.Auth.Model.{User, Platform}
use agentis_backend.Auth.Login.{
  Gate, login, rate_limited, set_count, fails_at, FailCount, FailCounts,
}
use agentis_backend.Auth.Register.{find_user}

-- The user of an email, who is active and has a password with the hash.
pub record HasLogin (lib : Platform) (email hash : String) (u : User) (g : Gate) : Type 0 where
  pub found : find_user lib email g.auth.session ≡ ok (some u)
  pub hashed : u.password_hash ≡ some hash
  pub filled : is_empty hash ≡ false
  pub active : is_some u.deleted_at ≡ false

set_count-same :
    (key : String) (c : FailCount) (counts : FailCounts) → set_count key c counts key ≡ c
set_count-same key c counts = rw (str_eq_refl key) refl

-- The 15 minutes from `start` on.
abbrev pub IsSoon : (start t : ℕ) → Type 0
IsSoon start t = (start ≤ t) × (t < start + 900)

module _ (cfg : Settings) (lib : Platform) (id : ℕ) (raw email : String) where
  -- The state after attempts, each with its time and password, one after the other.
  abbrev pub attempts : List (ℕ × String) → Gate → Gate
  attempts [] g = g
  attempts ((t, p) ∷ ps) g = attempts ps (login cfg lib t id raw email p g).1

  -- The failures that count at a time, the counter itself, and when it lapses.
  abbrev pub failures_at : ℕ → Gate → ℕ
  failures_at now g = fails_at now (lib.lower email) g.fails

  abbrev count_of : Gate → ℕ
  count_of g = (g.fails (lib.lower email)).count

  abbrev end_of : Gate → ℕ
  end_of g = (g.fails (lib.lower email)).expires_at

  module _ (hash : String) (u : User) (start : ℕ) where
    -- The counter lasts for the 15 minutes, and for 15 more at most.
    abbrev Lasts : Gate → Type 0
    Lasts g = (start + 900 ≤ end_of g) × (end_of g ≤ start + 1800)

    -- A wrong password, soon after the start.
    abbrev pub IsWrong : ℕ × String → Type 0
    IsWrong (t, p) = IsSoon start t × (lib.bcrypt_verify p hash ≡ false)

    wrong :
        (t : ℕ) (p : String) (g : Gate)
        → HasLogin lib email hash u g
        → lib.bcrypt_verify p hash ≡ false
        → leb 5 (failures_at t g) ≡ false
        → (login cfg lib t id raw email p g).1 ≡ record g {
          fails =
              set_count
                (lib.lower email)
                (record { count = failures_at t g + 1; expires_at = t + 900 })
                g.fails;
        }
    unfolding login
    wrong t p g h differs free = rw (free, h.found, h.hashed, h.filled, h.active, differs) refl

    full :
        (t : ℕ) (p : String) (g : Gate)
        → leb 5 (failures_at t g) ≡ true
        → login cfg lib t id raw email p g ≡ (err (http rate_limited), g)
    unfolding login
    full t p g h = rw h refl

    -- One wrong password that is not refused: the login stays, and the counter is one higher, and lasts.
    wrong_step :
        (t : ℕ) (p : String) (g : Gate)
        → HasLogin lib email hash u g
        → IsWrong (t, p)
        → leb 5 (failures_at t g) ≡ false
        → let g' = (login cfg lib t id raw email p g).1 in
          HasLogin lib email hash u g' × (count_of g' ≡ failures_at t g + 1) × Lasts g'
    wrong_step t p g h ((early, late), differs) free = rw (wrong t p g h differs free) (
      record { found = h.found; hashed = h.hashed; filled = h.filled; active = h.active },
      ap (λ (c : FailCount). c.count) (set_count-same (lib.lower email) _ g.fails),
      (
        subst (λ (c : FailCount). start + 900 ≤ c.expires_at)
            (sym (set_count-same (lib.lower email) _ g.fails)) (omega arith),
        subst (λ (c : FailCount). c.expires_at ≤ start + 1800)
            (sym (set_count-same (lib.lower email) _ g.fails)) (omega arith),
      ),
    )

    counts_now : (t : ℕ) (g : Gate) → IsSoon start t → Lasts g → failures_at t g ≡ count_of g
    counts_now t g (early, late) (lasts, ends) = ground arith

    attempts_reach :
        (ps : List (ℕ × String)) (g : Gate)
        → HasLogin lib email hash u g
        → All IsWrong ps
        → Lasts g
        → 5 ≤ count_of g + length ps
        → (5 ≤ count_of (attempts ps g)) × Lasts (attempts ps g)
    attempts_reach [] g h wrongs lasts n = (omega arith, lasts)
    attempts_reach ((t, p) ∷ ps) g h (bad, wrongs) lasts n =
        elim (Bool-cases (leb 5 (failures_at t g))) [
          | inl e ↦
              let stays = full t p g e in
              rw stays
                (attempts_reach ps g h wrongs lasts (ground (arith, e, counts_now t g bad.0 lasts)))
          | inr e ↦
              let (h', more, lasts') = wrong_step t p g h bad e in
              attempts_reach ps (login cfg lib t id raw email p g).1 h' wrongs lasts'
                (omega (arith, more, counts_now t g bad.0 lasts, n))
        ]

    -- At least five attempts with wrong passwords within 15 minutes, where no failure counts at their start: in
    -- these 15 minutes every later attempt to log in with the email is refused with 429 and changes nothing, with
    -- the right password too; 30 minutes after the start no failure counts any more.
    pub login_lockout :
        (ps : List (ℕ × String)) (now : ℕ) (password : String) (g : Gate)
        → HasLogin lib email hash u g
        → All IsWrong ps
        → 5 ≤ length ps
        → failures_at start g ≡ 0
        → (IsSoon start now
            → login cfg lib now id raw email password (attempts ps g)
              ≡ (err (http rate_limited), attempts ps g))
          × (start + 1800 ≤ now → failures_at now (attempts ps g) ≡ 0)
    login_lockout [] now password g h wrongs n free = absurd (omega arith)
    login_lockout ((t, p) ∷ ps) now password g h (bad, wrongs) n free =
        let zero_then : failures_at t g ≡ 0 = ground (arith, free, bad.0) in
        let (h', one, lasts) = wrong_step t p g h bad (ground (arith, zero_then)) in
        let g' = (login cfg lib t id raw email p g).1 in
        let (five, lasts') =
          attempts_reach ps g' h' wrongs lasts (omega (arith, one, zero_then, n)) in
        (
          (λ soon.
              full now password (attempts ps g')
                (ground (arith, five, counts_now now (attempts ps g') soon lasts'))),
          (λ late. ground (arith, lasts', late)),
        )
