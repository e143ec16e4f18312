-- ===== src/Retry/Attempts.antt =====
-- The record of attempts that the sequential loop leaves behind for traces and usage.
use my_ai_router.Common.{
  ℕ, suc, ◌+◌, ◌≤◌, ◌≡◌, ◌⊎◌, refl, Bool, true, ◌&&◌, not, Option, none, List, [], ◌∷◌, ◌++◌,
  str_eq, Message, arith, Bool-cases, inl, inr, length, length-append, subst,
}
use my_ai_router.Policy.{AttemptPolicy}
use my_ai_router.Context.{Context, Target, TargetAttempt, add_step}
use my_ai_router.Json.{Fields}
use my_ai_router.Pipeline.{World, Outcome, Handler}
use my_ai_router.Retry.Attempt.{Tried, attempt, is_success}
use my_ai_router.Retry.Sequential.{
  Route, Round, stop, advance, settle, settle_success, on_failure, record_failed, exhausted,
  sequential, timeout_for, skipped,
}
use my_ai_router.Retry.Laws.{After, sequential_rule}
use my_ai_router.Retry.Decision.{Decided, decide-Decided, write_error-Kept}

-- The fields of the request that the loop itself keeps and its `next` leaves alone.
pub record IsAttempt (next : Handler) : Type 0 where
  pub keeps_attempts :
      (c : Context) (w : World) → (next c w).ctx.target_attempts ≡ c.target_attempts
  pub keeps_fallbacks : (c : Context) (w : World) → (next c w).ctx.fallback_count ≡ c.fallback_count

-- Attempts numbered upwards from a number.
abbrev pub Numbered : ℕ → List TargetAttempt → Type 0
Numbered n [] = Unit {0}
Numbered n (a ∷ rest) = (a.index ≡ n) × Numbered (suc n) rest

Numbered-append :
    (n : ℕ) (xs ys : List TargetAttempt)
    → Numbered n xs
    → Numbered (n + length xs) ys
    → Numbered n (xs ++ ys)
Numbered-append n [] ys h k = subst (λ m. Numbered m ys) (omega arith) k
Numbered-append n (x ∷ xs) ys h k =
    (h.0, Numbered-append (suc n) xs ys h.1 (subst (λ m. Numbered m ys) (omega arith) k))

skipped-Numbered :
    (n : ℕ) (ts : List Target) → Numbered n (skipped n ts) × (length (skipped n ts) ≡ length ts)
unfolding skipped
skipped-Numbered n [] = (tt, refl)
skipped-Numbered n (t ∷ ts) = ground (arith, skipped-Numbered (suc n) ts)

abbrev pub is_call : TargetAttempt → Bool
is_call a = not (str_eq a.status "skipped")

-- One round writes down its own attempt under its number, and behind a success the targets that it
-- spares.
abbrev pub Noted : ℕ → List TargetAttempt → List TargetAttempt → Type 0
Noted number before after =
    (a : TargetAttempt) × (a.index ≡ number) × (is_call a ≡ true) × (after ≡ before ++ a ∷ [])

abbrev pub Recorded : ℕ → List Target → List TargetAttempt → List TargetAttempt → Type 0
Recorded number rest before after =
    (mid : List TargetAttempt) × Noted number before mid
    × ((after ≡ mid) ⊎ (after ≡ mid ++ skipped (suc number) rest))

-- What a round has written down when it ends.
abbrev pub Written : ℕ → List Target → List TargetAttempt → Round → Type 0
Written number rest before (stop d w) = Recorded number rest before d.target_attempts
Written number rest before (advance e s d w) = Noted number before d.target_attempts

settle_success-Written :
    (r : Route) (number : ℕ) (t : Target) (rest : List Target) (tried : Tried) (e : Option Message)
    (s : ℕ)
    → Written number rest (tried.ctx.target_attempts) (settle_success r number t rest tried e s)
unfolding settle_success add_step
settle_success-Written r number t [] tried e s = (_, (_, refl, refl, refl), inr refl)
settle_success-Written r number t (u ∷ rest) tried e s =
    elim (Bool-cases (str_eq r.kind "progressive" && r.low (tried.ctx.response_body))) [
      | inl low ↦ rw low (_, refl, refl, refl)
      | inr high ↦ rw high (_, (_, refl, refl, refl), inr refl)
    ]

Decided-Written :
    (p : AttemptPolicy) (number : ℕ) (t : Target) (rest : List Target) (tried : Tried) (x : Round)
    → Decided p rest (record_failed number t tried) x
    → Written number rest (tried.ctx.target_attempts) x
unfolding record_failed
Decided-Written p number t rest tried (stop d w) h = (_, (_, refl, refl, h.attempts), inl refl)
Decided-Written p number t rest tried (advance e s d w) h = (_, refl, refl, h.0.attempts)

settle-Written :
    (r : Route) (number : ℕ) (t : Target) (rest : List Target) (tried : Tried) (e : Option Message)
    (s : ℕ)
    → Written number rest (tried.ctx.target_attempts) (settle r number t rest tried e s)
unfolding settle on_failure
settle-Written r number t rest tried e s =
    elim (Bool-cases (is_success (tried.error) (tried.ctx.response_code))) [
      | inl succeeded ↦ rw succeeded (settle_success-Written r number t rest tried e s)
      | inr failed ↦
          rw failed (
            Decided-Written r.policy number t rest tried _ (decide-Decided _ r.policy t rest _ _ _))
    ]

Noted-Numbered :
    (n : ℕ) (before after : List TargetAttempt)
    → Numbered 1 before
    → n ≡ suc (length before)
    → Noted n before after
    → Numbered 1 after × (length after ≡ suc (length before))
Noted-Numbered n before after h e (a, i, c, p) = rw p (
  Numbered-append 1 before (a ∷ []) h (omega arith, tt),
  omega (arith, length-append before (a ∷ [])),
)

Recorded-Numbered :
    (n : ℕ) (rest : List Target) (before after : List TargetAttempt)
    → Numbered 1 before
    → n ≡ suc (length before)
    → Recorded n rest before after
    → Numbered 1 after × (length after ≤ length before + suc (length rest))
Recorded-Numbered n rest before after h e (mid, noted, inl p) =
    let (numbered, longer) = Noted-Numbered n before mid h e noted in rw p (numbered, omega arith)
Recorded-Numbered n rest before after h e (mid, noted, inr p) =
    let (numbered, longer) = Noted-Numbered n before mid h e noted in
    let (rest_numbered, rest_length) = skipped-Numbered (suc n) rest in
    rw p (
      Numbered-append 1 mid _ numbered
          (subst (λ k. Numbered k (skipped (suc n) rest)) (omega arith) rest_numbered),
      omega (arith, length-append mid (skipped (suc n) rest)),
    )

-- The numbers run on, and no target is recorded twice.
abbrev Progress : ℕ → List Target → ℕ → Context → Type 0
Progress total ts n c =
    Numbered 1 c.target_attempts
    × (n ≡ suc (length c.target_attempts))
    × (length c.target_attempts + length ts ≤ total)

abbrev Reported : ℕ → Outcome → Type 0
Reported total o = Numbered 1 o.ctx.target_attempts × (length o.ctx.target_attempts ≤ total)

Written-Progress :
    (total n : ℕ) (rest : List Target) (before : List TargetAttempt) (x : Round)
    → Numbered 1 before
    → n ≡ suc (length before)
    → length before + suc (length rest) ≤ total
    → Written n rest before x
    → After (Reported total) (Progress total rest (suc n)) x
Written-Progress total n rest before (stop d w) h e l r =
    let (numbered, shorter) = Recorded-Numbered n rest before d.target_attempts h e r in
    (numbered, omega arith)
Written-Progress total n rest before (advance m s d w) h e l r =
    let (numbered, longer) = Noted-Numbered n before d.target_attempts h e r in
    (numbered, omega arith, omega arith)

attempt-attempts :
    (next : Handler) (k : IsAttempt next) (t : Target) (body : Fields) (number timeout : ℕ)
    (c : Context) (w : World)
    → (attempt next t body number timeout c w).ctx.target_attempts ≡ c.target_attempts
unfolding attempt
attempt-attempts next k t body number timeout c w = k.keeps_attempts _ _

pub round-Written :
    (r : Route) (k : IsAttempt r.next) (n : ℕ) (t : Target) (rest : List Target)
    (e : Option Message) (s : ℕ) (c : Context) (w : World)
    → Written n rest c.target_attempts
        (settle r n t rest (attempt r.next t r.body n (timeout_for r rest) c w) e s)
round-Written r k n t rest e s c w =
    let timeout = timeout_for r rest in
    let x = settle r n t rest (attempt r.next t r.body n timeout c w) e s in
    subst (λ a. Written n rest a x) (attempt-attempts r.next k t r.body n timeout c w)
      (settle-Written r n t rest (attempt r.next t r.body n timeout c w) e s)

pub exhausted-attempts :
    (e : Option Message) (s : ℕ) (c : Context) (w : World)
    → (exhausted e s c w).ctx.target_attempts ≡ c.target_attempts
unfolding exhausted add_step
exhausted-attempts e s c w = (write_error-Kept c s _).attempts

-- The loop over `targets`, from a request without attempts on, records attempts that are numbered
-- from 1 without gaps, and no more of them than there are targets, if `next` records none itself.
pub sequential-Numbered :
    (r : Route) (targets : List Target) (c : Context) (w : World)
    → IsAttempt r.next
    → c.target_attempts ≡ []
    → let after = (sequential r 1 targets none 503 c w).ctx.target_attempts in
      Numbered 1 after × (length after ≤ length targets)
sequential-Numbered r targets c w k fresh =
    sequential_rule (Reported (length targets)) (Progress (length targets)) r
      (λ n t rest e s d v h.
        Written-Progress _ n rest d.target_attempts _ h.0 h.1 h.2
          (round-Written r k n t rest e s d v))
      (λ n e s d v h. rw (exhausted-attempts e s d v) (h.0, omega (arith, h.2))) targets 1 none 503
      c w (rw fresh (tt, omega arith, omega arith))
