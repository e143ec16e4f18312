-- ===== src/Limiter/Rate.antt =====
-- How many requests a token bucket lets pass.
use my_ai_router.Common.{ℕ, ◌+◌, ◌-◌, ◌*◌, ◌≤◌, ◌≡◌, true, List, [], ◌∷◌, if◌then◌else◌, arith}
use my_ai_router.Pipeline.{Bucket}
use my_ai_router.Limiter.{token, full, take_token}

abbrev pub IsBounded : Bucket → Type 0
IsBounded b = b.tokens ≤ full

take_token-IsBounded : (now : ℕ) (b : Bucket) → IsBounded (take_token now b).0
unfolding take_token
take_token-IsBounded now b = ground arith

-- How many of the requests at the given times pass.
pub admitted : Bucket → List ℕ → ℕ
admitted b [] = 0
admitted b (now ∷ times) =
    let (b', allowed) = take_token now b in (if allowed then 1 else 0) + admitted b' times

-- The clock does not run back.
abbrev pub InOrder : ℕ → ℕ → List ℕ → Type 0
InOrder from until [] = from ≤ until
InOrder from until (now ∷ times) = (from ≤ now) × InOrder now until times

take_token-clock : (now : ℕ) (b : Bucket) → (take_token now b).0.last_check ≡ now
unfolding take_token
take_token-clock now b = ground arith

-- A request that passes is paid for.
take_token-pays :
    (now : ℕ) (b : Bucket)
    → (if (take_token now b).1 then 1 else 0) * token + (take_token now b).0.tokens
      ≤ b.tokens + (now - b.last_check)
unfolding take_token
take_token-pays now b = ground arith

times_token : (a b : ℕ) → (a + b) * token ≡ a * token + b * token
times_token a b = omega arith

InOrder-le : (from until : ℕ) (times : List ℕ) → InOrder from until times → from ≤ until
InOrder-le from until [] h = h
InOrder-le from until (now ∷ times) h = omega (arith, InOrder-le now until times h.1)

-- Any run of requests in a span of time passes at most what the bucket held at its start and one
-- request for each second of the span.
pub admitted_rate :
    (b : Bucket) (until : ℕ) (times : List ℕ)
    → InOrder b.last_check until times
    → admitted b times * token ≤ b.tokens + (until - b.last_check)
unfolding admitted
admitted_rate b until [] h = omega arith
admitted_rate b until (now ∷ times) h =
    let b' = (take_token now b).0 in
    let clock = take_token-clock now b in
    let rest = admitted_rate b' until times (rw clock h.1) in
    omega (
      arith,
      clock,
      rest,
      h.0,
      InOrder-le now until times h.1,
      take_token-pays now b,
      times_token (if (take_token now b).1 then 1 else 0) (admitted b' times),
    )

-- A waiting user earns back: a request that comes a second or more after the last one passes.
pub take_token_after_second :
    (now : ℕ) (b : Bucket) → b.last_check + token ≤ now → (take_token now b).1 ≡ true
unfolding take_token
take_token_after_second now b h = ground arith
