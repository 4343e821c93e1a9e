-- ===== src/Auth/RateLimit/Window.antt =====
-- The rate limiter counts the requests of the last hour.
use agentis_backend.Prelude.{
  ℕ, suc, ◌≤◌, ◌<◌, ◌≡◌, refl, ap, ◌∙◌, Bool, false, List, [], ◌∷◌, All, length, ltb, ◌==◌,
  if◌then◌else◌, any, select, select-select_of_imp, arith,
}
use agentis_backend.Http.{ok, err, http}
use agentis_backend.Auth.RateLimit.{within, too_many, check_rate_limit}

-- Times, the latest first, no two the same.
abbrev pub IsLatestFirst : List ℕ → Type 0
IsLatestFirst [] = Unit
IsLatestFirst (t ∷ ts) = All (λ u. u < t) ts × IsLatestFirst ts

-- The set after requests at the times, whatever the limit answered to each.
abbrev pub after : (limit : ℕ) → List ℕ → List ℕ
after limit [] = []
after limit (t ∷ earlier) = (check_rate_limit limit t (after limit earlier)).1

no_time :
    (t now : ℕ) (ts : List ℕ)
    → All (λ u. u < t) ts
    → any (λ u. u == t) (select (within now) ts) ≡ false
unfolding select
no_time t now [] h = refl
no_time t now (u ∷ ts) (less, h) = ground (arith, no_time t now ts h)

below : (t now : ℕ) (ts : List ℕ) → t ≤ now → All (λ u. u < t) ts → All (λ u. u ≤ now) ts
below t now [] e h = tt
below t now (u ∷ ts) e (less, h) = (omega arith, below t now ts e h)

select_both :
    (p : ℕ → Bool) (t : ℕ) (xs ys : List ℕ)
    → select p xs ≡ select p ys
    → select p (t ∷ xs) ≡ select p (t ∷ ys)
unfolding select
select_both p t xs ys h = rw h refl

-- The set that a request leaves, if the set before had, within the hour, the times of `ts`.
check_times :
    (limit t : ℕ) (times ts : List ℕ)
    → select (within t) times ≡ select (within t) ts
    → All (λ u. u < t) ts
    → (check_rate_limit limit t times).1 ≡ t ∷ select (within t) ts
unfolding check_rate_limit
check_times limit t times ts same less = rw (same, no_time t t ts less) refl

within_after :
    (limit now : ℕ) (ts : List ℕ)
    → IsLatestFirst ts
    → All (λ u. u ≤ now) ts
    → select (within now) (after limit ts) ≡ select (within now) ts
within_after limit now [] h b = refl
within_after limit now (t ∷ ts) (less, h) (e, b) =
    let same : select (within t) (after limit ts) ≡ select (within t) ts =
      within_after limit t ts h (below t t ts (omega arith) less) in
    let kept : (check_rate_limit limit t (after limit ts)).1 ≡ t ∷ select (within t) ts =
      check_times limit t (after limit ts) ts same less in
    ap (select (within now)) kept
    ∙ select_both (within now) t (select (within t) ts) ts
        (select-select_of_imp (within now) (within t) (λ x i. ground (arith, i, e)) ts)

-- After requests at any times, no two the same, a later request is refused exactly if, with it, more than
-- `limit` requests came within the last hour, the refused ones included.
pub check_rate_limit_lem :
    (limit now : ℕ) (ts : List ℕ)
    → IsLatestFirst (now ∷ ts)
    → (check_rate_limit limit now (after limit ts)).0 ≡ (
        if ltb limit (suc (length (select (within now) ts)))
        then err (http (too_many limit now))
        else ok tt)
check_rate_limit_lem limit now ts (less, h) =
    unfold check_rate_limit in
    rw (within_after limit now ts h (below now now ts (omega arith) less), no_time now now ts less)
      refl
