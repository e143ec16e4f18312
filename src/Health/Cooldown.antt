-- ===== src/Health/Cooldown.antt =====
-- The cooldown of a connection: how it grows, how long it lasts and what ends it.
use native.Mathlib.Nat.{pow-suc, one-le-pow}
use native.Mathlib.Numerals.{add-one}
use my_ai_router.Common.{
  ℕ, zero, suc, ◌+◌, ◌*◌, ◌^◌, ◌≤◌, ◌≡◌, refl, ap, min, false, put, get-put, get-put_self, List, [],
  ◌∷◌, ◌∙◌, length, ltb, lt→ltb, ◌<◌, true, if◌then◌else◌, String, str_eq, eq_iff, arith,
}
use my_ai_router.Health.{
  Tracker, ConnState, base_cooldown, max_cooldown, state_of, double_capped, backoff_for,
  record_success, record_failure, in_cooldown,
}

doubled : (rounds backoff : ℕ) → backoff * 2 ^ suc rounds ≡ backoff * 2 * 2 ^ rounds
doubled rounds backoff = omega (arith, ap (λ (p : ℕ). backoff * p) (pow-suc 2 rounds))

times_power : (rounds backoff : ℕ) → backoff ≤ backoff * 2 ^ rounds
times_power rounds backoff = grind (arith, one-le-pow rounds 2 (omega arith))

double_capped-min :
    (rounds backoff : ℕ)
    → backoff ≤ max_cooldown
    → double_capped rounds backoff ≡ min (backoff * 2 ^ rounds) max_cooldown
unfolding double_capped
double_capped-min zero backoff h = omega arith
double_capped-min (suc rounds) backoff h = ground (
  arith,
  doubled rounds backoff,
  times_power rounds (backoff * 2),
  double_capped-min rounds (backoff * 2),
)

backoff_for-min :
    (failures : ℕ) → backoff_for (suc failures) ≡ min (base_cooldown * 2 ^ failures) max_cooldown
unfolding backoff_for
backoff_for-min failures =
    ap (λ rounds. double_capped rounds base_cooldown) (omega arith)
    ∙ double_capped-min failures base_cooldown (omega arith)

in_cooldown-put :
    (t : Tracker) (id other : String) (s : ConnState) (later : ℕ)
    → in_cooldown (put id s t) other later
      ≡ (if str_eq id other then ltb later s.cooldown_until else in_cooldown t other later)
unfolding in_cooldown
in_cooldown-put t id other s later = ground (arith, get-put id other s t)

state_of-put : (t : Tracker) (id : String) (s : ConnState) → state_of (put id s t) id ≡ s
unfolding state_of
state_of-put t id s = rw (get-put_self id s t, state_of)

-- A success ends the cooldown of its connection at once, and leaves that of the others.
in_cooldown-record_success :
    (t : Tracker) (id other : String) (latency ttfb later : ℕ)
    → in_cooldown (record_success t id latency ttfb) other later
      ≡ (if str_eq id other then false else in_cooldown t other later)
unfolding record_success
in_cooldown-record_success t id other latency ttfb later =
    rw (in_cooldown-put t id other) (ground arith)

-- A failure touches only its own connection.
in_cooldown-record_failure :
    (t : Tracker) (id other : String) (now later : ℕ)
    → in_cooldown (record_failure t id now) other later ≡ (
        if str_eq id other
        then ltb later (now + backoff_for (suc (state_of t id).consecutive_failures))
        else in_cooldown t other later)
unfolding record_failure
in_cooldown-record_failure t id other now later = rw (in_cooldown-put t id other) (rw add-one refl)

times_power_min : (n : ℕ) → base_cooldown ≤ min (base_cooldown * 2 ^ n) max_cooldown
times_power_min n = omega (arith, times_power n base_cooldown)

-- A failure keeps its connection in cooldown for 30 s at least.
pub in_cooldown_after_failure :
    (t : Tracker) (id : String) (now later : ℕ)
    → later < now + base_cooldown
    → in_cooldown (record_failure t id now) id later ≡ true
in_cooldown_after_failure t id now later soon =
    rw (in_cooldown-record_failure t id id now later, (eq_iff id id).1 refl)
      (lt→ltb later _ (
        omega (
          arith,
          backoff_for-min (state_of t id).consecutive_failures,
          times_power_min (state_of t id).consecutive_failures,
        )))

abbrev pub failures_of : Tracker → String → ℕ
failures_of t id = (state_of t id).consecutive_failures

-- Failures of one connection at the given times.
pub fail_at : Tracker → String → List ℕ → Tracker
fail_at t id [] = t
fail_at t id (now ∷ times) = fail_at (record_failure t id now) id times

failures_of-fail_at :
    (t : Tracker) (id : String) (times : List ℕ)
    → failures_of (fail_at t id times) id ≡ failures_of t id + length times
unfolding fail_at record_failure
failures_of-fail_at t id [] = omega arith
failures_of-fail_at t id (now ∷ times) = omega (
  arith,
  failures_of-fail_at (record_failure t id now) id times,
  ap (λ s. s.consecutive_failures) (state_of-put t id _),
)

failures_of-record_success :
    (t : Tracker) (id : String) (latency ttfb : ℕ)
    → failures_of (record_success t id latency ttfb) id ≡ 0
unfolding record_success
failures_of-record_success t id latency ttfb =
    ap (λ s. s.consecutive_failures) (state_of-put t id _)

failures_of_streak :
    (t : Tracker) (id : String) (latency ttfb : ℕ) (times : List ℕ)
    → failures_of (fail_at (record_success t id latency ttfb) id times) id ≡ length times
failures_of_streak t id latency ttfb times = omega (
  arith,
  failures_of-fail_at (record_success t id latency ttfb) id times,
  failures_of-record_success t id latency ttfb,
)

-- After a success and then `n + 1` failures in a row, the last of them at `now`, the connection is
-- in cooldown just until 30 s doubled `n` times, and at most 5 minutes, after `now`.
pub cooldown_of_streak :
    (t : Tracker) (id : String) (latency ttfb : ℕ) (times : List ℕ) (now later : ℕ)
    → in_cooldown
        (record_failure (fail_at (record_success t id latency ttfb) id times) id now)
        id
        later
      ≡ ltb later (now + min (base_cooldown * 2 ^ length times) max_cooldown)
cooldown_of_streak t id latency ttfb times now later = rw (
  in_cooldown-record_failure _ id id now later,
  (eq_iff id id).1 refl,
  failures_of_streak t id latency ttfb times,
  backoff_for-min (length times),
)
