-- ===== src/Health/Average.antt =====
-- The moving average of a connection's latency against its samples.
use native.Mathlib.Nat.{pow-suc}
use my_ai_router.Common.{ℕ, ◌*◌, ◌^◌, ◌≤◌, arith, ap}
use my_ai_router.Health.{Decimal, ewma}

-- `a ≤ b` between a number of milliseconds and an estimate.
abbrev pub Within : ℕ → ℕ → Decimal → Type 0
Within low high d = (low * 10 ^ d.places ≤ d.digits) × (d.digits ≤ high * 10 ^ d.places)

scaled : (a b power : ℕ) → a ≤ b → a * power ≤ b * power
scaled a b power h = grind arith

-- Where the estimate so far and the next sample lie in a range, so does the new estimate.
pub ewma-Within :
    (low high : ℕ) (prev : Decimal) (next : ℕ)
    → low ≤ next
    → next ≤ high
    → Within low high prev
    → Within low high (ewma prev next)
unfolding ewma
ewma-Within low high prev next a b w = ground (
  arith,
  pow-suc 10 prev.places,
  ap (λ (p : ℕ). low * p) (pow-suc 10 prev.places),
  ap (λ (p : ℕ). high * p) (pow-suc 10 prev.places),
  scaled low next (10 ^ prev.places) a,
  scaled next high (10 ^ prev.places) b,
)
