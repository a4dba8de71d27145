-- ===== src/RateLimit.antt =====
-- apps/api/app/rate_limit.py: how many questions a user and a complex may ask in one minute. Redis
-- is a parameter; a limit that is zero or negative is 0 here.
pub mod Counting
pub mod Bound
use liviq.Base.{
  ℕ, Bool, true, false, ◌&&◌, Option, none, some, List, [], ◌∷◌, ◌++◌, if◌then◌else◌, ◌==◌, ltb,
  leb, Text, codes,
}

-- `incr` gives the new count, or none for a `RedisError`; `expire` whether it succeeds. The store
-- is what Redis holds after the call, failed or not.
pub record Counters : Type 1 where
  pub S : Type 0
  pub incr : (now : ℕ) → Text → S → Option ℕ × S
  pub expire : (now : ℕ) → Text → ℕ → S → Bool × S

-- What one of the two tests comes to: a limit of 0 asks nothing of Redis.
pub data Verdict : Type 0 where
  below over broken : Verdict

abbrev pub verdict_of : ℕ → Option ℕ → Verdict
verdict_of limit none = broken
verdict_of limit (some n) = if ltb limit n then over else below

abbrev pub window_ttl : ℕ
window_ttl = 120

module _ (redis : Counters) where
  open redis use {S}

  -- `_incr_window`
  unfoldable pub incr_window : ℕ → Text → S → Option ℕ × S
  incr_window now key s =
      let (count, t) = redis.incr now key s in
      elim count [
        | none ↦ (none, t)
        | some n ↦
            if n == 1
            then (let (kept, u) = redis.expire now key window_ttl t in
                (if kept then some n else none, u))
            else (some n, t)
      ]

  abbrev pub user_key : Text → Text → Text
  user_key user_id window = codes "rl:user:" ++ (user_id ++ (58 ∷ window))

  abbrev pub tenant_key : Text → Text → Text
  tenant_key tenant_id window = codes "rl:tenant:" ++ (tenant_id ++ (58 ∷ window))

  unfoldable pub test_limit : ℕ → ℕ → Text → S → Verdict × S
  test_limit now limit key s =
      if limit == 0
      then (below, s)
      else (let (count, t) = incr_window now key s in (verdict_of limit count, t))

  -- `check_rate_limit`: true lets the question pass, false is the status 429.
  unfoldable pub check_rate_limit : ℕ → Text → Text → Text → ℕ → ℕ → S → Bool × S
  check_rate_limit now window user_id tenant_id user_limit tenant_limit s =
      let (first, t) = test_limit now user_limit (user_key user_id window) s in
      elim first [
        | over ↦ (false, t)
        | broken ↦ (true, t)
        | below ↦
            let (second, u) = test_limit now tenant_limit (tenant_key tenant_id window) t in
            elim second [ over ↦ (false, u) | broken ↦ (true, u) | below ↦ (true, u) ]
      ]
