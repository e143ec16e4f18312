-- ===== src/Limiter.antt =====
-- internal/gateway/middleware/limiter.go: one token bucket for each user. Tokens are counted in
-- billionths, so that a nanosecond earns one and the arithmetic of the source is exact.
pub mod Rate
use my_ai_router.Common.{
  ℕ, ◌+◌, ◌-◌, ◌*◌, Bool, true, false, Option, none, some, get, put, String, ltb, if◌then◌else◌,
  note,
}
use my_ai_router.Context.{Context, write_error, add_step}
use my_ai_router.Pipeline.{Bucket, World, Handler, Middleware, return}

abbrev pub token : ℕ
token = 1_000_000_000

abbrev pub full : ℕ
full = 60 * token

abbrev pub refill : ℕ → Bucket → ℕ
refill now b =
    let earned = b.tokens + (now - b.last_check) in if ltb full earned then full else earned

-- One request at `now`: the bucket behind it, and whether it may pass.
unfoldable pub take_token : ℕ → Bucket → Bucket × Bool
take_token now b =
    let tokens = refill now b in
    if ltb tokens token
    then (record { tokens = tokens; last_check = now }, false)
    else (record { tokens = tokens - token; last_check = now }, true)

-- `limiters.LoadOrStore`
abbrev pub bucket_of : World → String → Bucket
bucket_of w user = elim (get user w.limiters) [
  | none ↦ record { tokens = full; last_check = w.now }
  | some b ↦ b
]

unfoldable pub rate_limit : Middleware
unfolding take_token
rate_limit next c w =
    let (bucket, allowed) = take_token w.now (bucket_of w c.user_id) in
    let w' = record w { limiters = put c.user_id bucket w.limiters } in
    let refused =
      add_step (write_error c 429 (note "Rate limit exceeded (max 60/min).")) "Rate Limit" "failed"
        (note "Rate limit exceeded") in
    let passed = next (add_step c "Rate Limit" "success" (note "Rate limit checked")) w' in
    if allowed then passed else return refused w'
