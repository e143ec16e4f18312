-- ===== src/Policy/Classes.antt =====
-- The classes of upstream failures, described by the status codes that they hold.
use my_ai_router.Common.{
  ℕ, ◌≤◌, ◌≡◌, ◌≢◌, ◌↔◌, ◌⊎◌, refl, Bool-cases, inl, inr, if◌then◌else◌, ◌||◌, Option, none, some,
  String, str_eq, eq_iff, arith,
}
use my_ai_router.Policy.{
  retryable, account_failover, terminal, classify_status, classify_with_policy, AttemptPolicy,
  normalized, attempt_timeout, final_timeout, max_fallback_count, policy_aggressive,
  policy_conservative, policy_auto,
}

-- Codes that say that the upstream, and not the request, is at fault.
abbrev pub Transient : ℕ → Type 0
Transient code = (code ≡ 0) ⊎ (code ≡ 408) ⊎ (code ≡ 429) ⊎ (500 ≤ code)

-- Codes that say that the account is at fault.
abbrev pub Denied : ℕ → Type 0
Denied code = (code ≡ 401) ⊎ (code ≡ 403)

-- The default classification is retryable at the transient codes, account failover at 401 and 403,
-- and terminal at every other code.
classify_status_cases :
    (code : ℕ)
    → (Transient code × (classify_status code ≡ retryable))
      ⊎ (Denied code × (classify_status code ≡ account_failover))
      ⊎ ((¬ Transient code) × (¬ Denied code) × (classify_status code ≡ terminal))
unfolding classify_status
classify_status_cases code = ground arith

-- The three policies against the default: `aggressive` retries always, `conservative` retries just
-- where the default does and never fails over to another account, and any other name is the default.
pub classify_with_policy_cases :
    (code : ℕ) (policy : String)
    → policy ≢ policy_aggressive
    → policy ≢ policy_conservative
    → (classify_with_policy code policy_aggressive ≡ retryable)
      × ((classify_with_policy code policy_conservative ≡ retryable)
          ↔ (classify_status code ≡ retryable))
      × (classify_with_policy code policy_conservative ≢ account_failover)
      × (classify_with_policy code policy ≡ classify_status code)
unfolding classify_with_policy
classify_with_policy_cases code policy a b = (
  refl,
  (λ h. ground arith, λ h. ground arith),
  λ h. ground arith,
  ground (arith, eq_iff policy policy_aggressive, eq_iff policy policy_conservative),
)

abbrev pub fallback_policy_of : Option AttemptPolicy → String
fallback_policy_of none = policy_auto
fallback_policy_of (some p) = p.fallback_policy

coerced_neutral :
    (code : ℕ) (policy : String)
    → classify_with_policy code (
        if str_eq policy policy_aggressive || str_eq policy policy_conservative
        then policy
        else policy_auto)
      ≡ classify_with_policy code policy
unfolding classify_with_policy
coerced_neutral code policy = elim (Bool-cases (str_eq policy policy_aggressive)) [
  | inl e ↦ rw e (rw e)
  | inr e ↦ elim (Bool-cases (str_eq policy policy_conservative)) [
    | inl c ↦ rw (e, c) (rw (e, c))
    | inr c ↦ rw (e, c)
  ]
]

-- `Normalized` changes no decision: the classification, both timeouts and the cap stay the same.
pub normalized_neutral :
    (p : Option AttemptPolicy) (code : ℕ)
    → (classify_with_policy code (fallback_policy_of (normalized p))
        ≡ classify_with_policy code (fallback_policy_of p))
      × (attempt_timeout (normalized p) ≡ attempt_timeout p)
      × (final_timeout (normalized p) ≡ final_timeout p)
      × (max_fallback_count (normalized p) ≡ max_fallback_count p)
unfolding classify_with_policy normalized attempt_timeout final_timeout max_fallback_count
normalized_neutral none code = (refl, refl, refl, refl)
normalized_neutral (some p) code = (coerced_neutral code p.fallback_policy, refl, refl, refl)
