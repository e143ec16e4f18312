-- ===== src/Retry/Verdict.antt =====
-- When the sequential loop goes on to the next target, and when it stops.
use my_ai_router.Common.{
  ℕ, ◌≡◌, refl, Bool, true, false, ◌&&◌, ◌||◌, not, Option, some, List, [], ◌∷◌, str_eq, Message,
  ltb, if◌then◌else◌, arith, Bool-cases, inl, inr,
}
use my_ai_router.Policy.{
  AttemptPolicy, ErrorClass, retryable, account_failover, terminal, max_fallback_count,
}
use my_ai_router.Context.{Context, Target, add_step}
use my_ai_router.Pipeline.{World}
use my_ai_router.Retry.Attempt.{Tried, is_success}
use my_ai_router.Retry.Sequential.{
  Route, Round, stop, advance, settle, settle_success, on_success, on_low_confidence, on_failure,
  record_failed, give_up, spend, fail_over, decide, class_of, is_last,
}

abbrev pub goes_on : Round → Bool
goes_on (stop c w) = false
goes_on (advance e s c w) = true

-- The budget of hops: no cap, or a cap that is not reached.
abbrev pub under_budget : AttemptPolicy → ℕ → Bool
under_budget p hops =
    not (ltb 0 (max_fallback_count (some p))) || ltb hops (max_fallback_count (some p))

-- Behind a 401 or 403 the next target must serve another model, or be of the same provider.
abbrev pub may_follow : Target → List Target → Bool
may_follow t [] = false
may_follow t (u ∷ rest) = not (str_eq u.model_name t.model_name) || str_eq u.provider t.provider

abbrev pub failure_goes_on : ErrorClass → AttemptPolicy → Target → List Target → ℕ → Bool
failure_goes_on terminal p t rest hops = false
failure_goes_on retryable p t rest hops = under_budget p hops
failure_goes_on account_failover p t rest hops = may_follow t rest && under_budget p hops

abbrev pub should_go_on : Route → Target → List Target → Tried → Bool
should_go_on r t rest tried =
    if is_success (tried.error) (tried.ctx.response_code)
    then not (is_last rest) && (str_eq r.kind "progressive" && r.low (tried.ctx.response_body))
    else failure_goes_on (class_of r.policy tried) r.policy t rest (tried.ctx.fallback_count)

goes_on-spend :
    (p : AttemptPolicy) (rest : List Target) (text : Message) (c : Context) (w : World)
    → goes_on (spend (some p) rest text c w) ≡ under_budget p c.fallback_count
unfolding spend
goes_on-spend p rest text c w = ground arith

goes_on-fail_over :
    (p : AttemptPolicy) (t : Target) (rest : List Target) (text : Message) (c : Context) (w : World)
    → goes_on (fail_over (some p) t rest text c w)
      ≡ (may_follow t rest && under_budget p c.fallback_count)
unfolding fail_over give_up add_step
goes_on-fail_over p t [] text c w = refl
goes_on-fail_over p t (u ∷ rest) text c w = elim (Bool-cases (str_eq u.model_name t.model_name)) [
  | inl e ↦ elim (Bool-cases (str_eq u.provider t.provider)) [
    | inl f ↦ rw (e, f) (goes_on-spend p (u ∷ rest) text c w)
    | inr f ↦ rw (e, f) refl
  ]
  | inr e ↦ rw e (goes_on-spend p (u ∷ rest) text _ w)
]

goes_on-decide :
    (class : ErrorClass) (p : AttemptPolicy) (t : Target) (rest : List Target) (text : Message)
    (c : Context) (w : World)
    → goes_on (decide class p t rest text c w) ≡ failure_goes_on class p t rest c.fallback_count
unfolding decide give_up
goes_on-decide terminal p t rest text c w = refl
goes_on-decide retryable p t rest text c w = goes_on-spend p rest text c w
goes_on-decide account_failover p t rest text c w = goes_on-fail_over p t rest text c w

goes_on-success :
    (r : Route) (n : ℕ) (t : Target) (rest : List Target) (tried : Tried) (e : Option Message)
    (s : ℕ)
    → goes_on (settle_success r n t rest tried e s)
      ≡ (not (is_last rest) && (str_eq r.kind "progressive" && r.low (tried.ctx.response_body)))
unfolding settle_success on_success on_low_confidence
goes_on-success r n t [] tried e s = refl
goes_on-success r n t (u ∷ rest) tried e s =
    elim (Bool-cases (str_eq r.kind "progressive" && r.low (tried.ctx.response_body))) [
      | inl low ↦ rw low refl
      | inr high ↦ rw high refl
    ]

-- A round goes on just in these cases: a success with a poor answer of a progressive route that has
-- another target; a retryable failure under the budget; or a failure of the account, under the
-- budget, where the next target serves another model or belongs to the same provider. A terminal
-- failure always stops.
pub goes_on-settle :
    (r : Route) (n : ℕ) (t : Target) (rest : List Target) (tried : Tried) (e : Option Message)
    (s : ℕ)
    → goes_on (settle r n t rest tried e s) ≡ should_go_on r t rest tried
unfolding settle on_failure record_failed
goes_on-settle r n t rest tried e s =
    elim (Bool-cases (is_success (tried.error) (tried.ctx.response_code))) [
      | inl succeeded ↦ rw succeeded (goes_on-success r n t rest tried e s)
      | inr failed ↦ rw failed (goes_on-decide _ r.policy t rest _ _ _)
    ]
