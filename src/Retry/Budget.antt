-- ===== src/Retry/Budget.antt =====
-- The cap on fallback hops of the sequential loop.
use my_ai_router.Common.{
  ℕ, suc, ◌+◌, ◌≤◌, ◌<◌, ◌≡◌, ◌⊎◌, refl, false, Option, none, some, List, [], ◌∷◌, ◌++◌, str_eq,
  Message, if◌then◌else◌, arith, Bool-cases, inl, inr, subst,
}
use my_ai_router.Json.{Fields}
use my_ai_router.Policy.{AttemptPolicy, max_fallback_count}
use my_ai_router.Context.{Context, Target, TargetAttempt}
use my_ai_router.Pipeline.{World, Outcome, Handler}
use my_ai_router.Retry.Attempt.{Tried, attempt, is_success}
use my_ai_router.Retry.Sequential.{
  Route, Round, stop, advance, settle, settle_success, on_failure, record_failed, sequential,
  timeout_for, is_last, skipped,
}
use my_ai_router.Retry.Laws.{After, sequential_rule}
use my_ai_router.Retry.Decision.{Decided, decide-Decided}
use my_ai_router.Retry.Attempts.{
  IsAttempt, is_call, Noted, Recorded, Written, round-Written, exhausted-attempts,
}

-- How many of the recorded attempts called an upstream.
abbrev pub calls : List TargetAttempt → ℕ
calls [] = 0
calls (a ∷ rest) = (if is_call a then 1 else 0) + calls rest

calls-append : (xs ys : List TargetAttempt) → calls (xs ++ ys) ≡ calls xs + calls ys
calls-append [] ys = omega arith
calls-append (x ∷ xs) ys = omega (arith, calls-append xs ys)

calls-skipped : (n : ℕ) (ts : List Target) → calls (skipped n ts) ≡ 0
unfolding skipped
calls-skipped n [] = refl
calls-skipped n (t ∷ ts) = omega (arith, calls-skipped (suc n) ts)

calls-Noted :
    (n : ℕ) (before after : List TargetAttempt)
    → Noted n before after
    → calls after ≡ suc (calls before)
calls-Noted n before after (a, i, c, p) = rw (p, calls-append before (a ∷ []), c) (omega arith)

calls-Recorded :
    (n : ℕ) (rest : List Target) (before after : List TargetAttempt)
    → Recorded n rest before after
    → calls after ≡ suc (calls before)
calls-Recorded n rest before after (mid, noted, inl p) = rw p (calls-Noted n before mid noted)
calls-Recorded n rest before after (mid, noted, inr p) =
    rw (p, calls-append mid _)
      (omega (arith, calls-Noted n before mid noted, calls-skipped (suc n) rest))

-- A round that goes on has stayed under the cap.
abbrev Hop : AttemptPolicy → List Target → ℕ → Round → Type 0
Hop p rest hops (stop d w) = Unit {0}
Hop p rest hops (advance e s d w) =
    (d.fallback_count ≡ hops + (if is_last rest then 0 else 1))
    × ((max_fallback_count (some p) ≡ 0) ⊎ (hops < max_fallback_count (some p)))

Decided-Hop :
    (p : AttemptPolicy) (number : ℕ) (t : Target) (rest : List Target) (tried : Tried) (x : Round)
    → Decided p rest (record_failed number t tried) x
    → Hop p rest (tried.ctx.fallback_count) x
unfolding record_failed
Decided-Hop p number t rest tried (stop d w) h = tt
Decided-Hop p number t rest tried (advance e s d w) h = (h.3, h.4)

settle_success-Hop :
    (r : Route) (number : ℕ) (t : Target) (rest : List Target) (tried : Tried) (e : Option Message)
    (s : ℕ)
    → str_eq r.kind "progressive" ≡ false
    → Hop r.policy rest (tried.ctx.fallback_count) (settle_success r number t rest tried e s)
unfolding settle_success
settle_success-Hop r number t [] tried e s plain = tt
settle_success-Hop r number t (u ∷ rest) tried e s plain = rw plain tt

settle-Hop :
    (r : Route) (number : ℕ) (t : Target) (rest : List Target) (tried : Tried) (e : Option Message)
    (s : ℕ)
    → str_eq r.kind "progressive" ≡ false
    → Hop r.policy rest (tried.ctx.fallback_count) (settle r number t rest tried e s)
unfolding settle on_failure
settle-Hop r number t rest tried e s plain =
    elim (Bool-cases (is_success (tried.error) (tried.ctx.response_code))) [
      | inl succeeded ↦ rw succeeded (settle_success-Hop r number t rest tried e s plain)
      | inr failed ↦
          rw failed
            (Decided-Hop r.policy number t rest tried _ (decide-Decided _ r.policy t rest _ _ _))
    ]

attempt-fallbacks :
    (next : Handler) (k : IsAttempt next) (t : Target) (body : Fields) (number timeout : ℕ)
    (c : Context) (w : World)
    → (attempt next t body number timeout c w).ctx.fallback_count ≡ c.fallback_count
unfolding attempt
attempt-fallbacks next k t body number timeout c w = k.keeps_fallbacks _ _

round-Hop :
    (r : Route) (k : IsAttempt r.next) (n : ℕ) (t : Target) (rest : List Target)
    (e : Option Message) (s : ℕ) (c : Context) (w : World)
    → str_eq r.kind "progressive" ≡ false
    → Hop r.policy rest c.fallback_count
        (settle r n t rest (attempt r.next t r.body n (timeout_for r rest) c w) e s)
round-Hop r k n t rest e s c w plain =
    let timeout = timeout_for r rest in
    let x = settle r n t rest (attempt r.next t r.body n timeout c w) e s in
    subst (λ hops. Hop r.policy rest hops x) (attempt-fallbacks r.next k t r.body n timeout c w)
      (settle-Hop r n t rest (attempt r.next t r.body n timeout c w) e s plain)

-- Every call but the last one was followed by a hop that the cap allowed.
abbrev UnderCap : ℕ → List Target → ℕ → Context → Type 0
UnderCap cap ts n c =
    (calls c.target_attempts ≤ cap)
    × (is_last ts ≡ false → calls c.target_attempts ≡ c.fallback_count)

abbrev WithinCap : ℕ → Outcome → Type 0
WithinCap cap o = calls o.ctx.target_attempts ≤ cap + 1

Hop-UnderCap :
    (p : AttemptPolicy) (cap n : ℕ) (t : Target) (rest : List Target) (c : Context) (x : Round)
    → max_fallback_count (some p) ≡ cap
    → 0 < cap
    → UnderCap cap (t ∷ rest) n c
    → Written n rest c.target_attempts x
    → Hop p rest c.fallback_count x
    → After (WithinCap cap) (UnderCap cap rest (suc n)) x
Hop-UnderCap p cap n t rest c (stop d w) e pos h written hop =
    omega (arith, calls-Recorded n rest c.target_attempts d.target_attempts written, h.0)
Hop-UnderCap p cap n t [] c (advance m s d w) e pos h written hop =
    let step = calls-Noted n c.target_attempts d.target_attempts written in
    let now = h.1 refl in (omega (arith, step, now, hop.1, e), λ absurd_last. cc)
Hop-UnderCap p cap n t (u ∷ rest) c (advance m s d w) e pos h written hop =
    let step = calls-Noted n c.target_attempts d.target_attempts written in
    let now = h.1 refl in
    (omega (arith, step, now, hop.1, e), λ more. omega (arith, step, now, hop.0))

-- A route that is not progressive and has a positive cap on its hops calls at most one upstream more
-- than the cap allows hops, whatever the upstreams answer, if `next` keeps the record of attempts and
-- the count of hops.
pub sequential-calls-le :
    (r : Route) (cap : ℕ) (targets : List Target) (c : Context) (w : World)
    → IsAttempt r.next
    → str_eq r.kind "progressive" ≡ false
    → max_fallback_count (some r.policy) ≡ cap
    → 0 < cap
    → c.target_attempts ≡ []
    → c.fallback_count ≡ 0
    → calls (sequential r 1 targets none 503 c w).ctx.target_attempts ≤ cap + 1
sequential-calls-le r cap targets c w k plain e pos fresh zero_hops =
    sequential_rule (WithinCap cap) (UnderCap cap) r
      (λ n t rest m s d v h.
        Hop-UnderCap r.policy cap n t rest d _ e pos h (round-Written r k n t rest m s d v)
          (round-Hop r k n t rest m s d v plain))
      (λ n m s d v h. rw (exhausted-attempts m s d v) (omega (arith, h.0))) targets 1 none 503 c w
      (rw fresh (omega arith, λ more. rw zero_hops refl))
