-- ===== src/Auth/RateLimit.antt =====
-- app/auth/rate_limiter.py: a sliding window of an hour over a sorted set of Redis.
pub mod Window
use agentis_backend.Prelude.{
  ℕ, ◌+◌, ◌/◌, String, Bool, List, [], ◌∷◌, length, ltb, ◌==◌, if◌then◌else◌, any, select,
}
use agentis_backend.PyText.{show}
use agentis_backend.Http.{Result, ok, err, http, HttpException}

-- WINDOW_SECONDS, in the microseconds that the times count
abbrev pub window : ℕ
window = 3600000000

-- The times that ZREMRANGEBYSCORE key 0 (now - window) leaves.
abbrev pub within : ℕ → ℕ → Bool
within now t = ltb now (t + window)

-- ZADD of a time under its own text: a member that is there is not added again.
abbrev pub add_time : ℕ → List ℕ → List ℕ
add_time t times = if any (λ u. u == t) times then times else t ∷ times

abbrev pub too_many : (limit now : ℕ) → HttpException
too_many limit now = record {
  status_code = 429;
  code = "rate_limited";
  message = "Rate limit exceeded. Try again later.";
  headers =
      ("X-RateLimit-Limit", show limit)
      ∷ ("X-RateLimit-Remaining", "0")
      ∷ ("X-RateLimit-Reset", show (now / 1000000 + 3600))
      ∷ ("Retry-After", "3600")
      ∷ [];
}

-- check_rate_limit, on the set of one client and path
unfoldable pub check_rate_limit : (limit now : ℕ) → List ℕ → Result (Unit {0}) × List ℕ
check_rate_limit limit now times =
    let kept = add_time now (select (within now) times) in
    (if ltb limit (length kept) then err (http (too_many limit now)) else ok tt, kept)
