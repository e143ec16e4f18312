-- ===== src/Optimizer/Safety.antt =====
-- What the runner hands back.
use my_ai_router.Common.{
  subst, sym, true≢false, ℕ, ◌≤◌, ◌≡◌, ◌⊎◌, refl, inl, inr, true, false, Bool-cases, Option, none,
  some, Option-cases, List, [], ◌∷◌, All, arith, String, ltb, Message,
}
use my_ai_router.Json.{Json}
use my_ai_router.Optimizer.{
  OptimizationContext, PassResult, PassAnswer, failed, answered, Pass, Validator, estimate,
}
use my_ai_router.Optimizer.Runner.{
  Progress, OptimizationReport, find_validator, check_inflation, mark_inflated, judge, take_answer,
  run_pass, run_passes, written_by, validate, optimize, begin, inflation, inflation_error,
}

-- The first and the last state are within a bound, and so is the last one's count.
abbrev pub Within : ℕ → Progress → Type 0
Within bound p =
    (estimate p.original.messages ≤ bound)
    × (p.original.estimated_tokens ≤ bound)
    × (estimate p.current.messages ≤ bound)
    × (p.current.estimated_tokens ≤ bound)

-- What the pass writes into shared messages makes neither list longer.
abbrev pub WritesNoLonger : Pass → Type 0
WritesNoLonger pass =
    (original : List Json) (c : OptimizationContext)
    → (estimate (pass.left original c).original ≤ estimate original)
      × (estimate (pass.left original c).current ≤ estimate c.messages)

judge-Within :
    (bound : ℕ) (name : String) (res : PassResult) (p : Progress)
    → (res.rollback ≡ false → estimate res.messages ≤ estimate p.current.messages)
    → Within bound p
    → Within bound (judge name res p)
unfolding judge
judge-Within bound name res p shrinks (first, counted_first, last, counted) =
    elim (Bool-cases res.rollback) [
      | inl back ↦ simp back (first, counted_first, last, counted)
      | inr kept ↦ elim (Bool-cases res.success) [
        | inl good ↦
            let shorter = shrinks kept in
            simp (kept, good) (first, counted_first, omega arith, omega arith)
        | inr bad ↦ simp (kept, bad) (first, counted_first, last, counted)
      ]
    ]

inflation_caught :
    (before after : List Json)
    → inflation_error before after ≡ none
    → estimate after ≤ estimate before
unfolding inflation_error
inflation_caught before after = elim (Bool-cases (ltb (estimate before) (estimate after))) [
  | inl loud ↦ rw loud (λ e. cc)
  | inr quiet ↦ rw quiet (λ _. ground arith)
]

mark_inflated-shrinks :
    (res : PassResult) (bound : ℕ) (found : Option Message)
    → (found ≡ none → estimate res.messages ≤ bound)
    → (mark_inflated res found).rollback ≡ false
    → estimate (mark_inflated res found).messages ≤ bound
unfolding mark_inflated
mark_inflated-shrinks res bound none small kept = small refl
mark_inflated-shrinks res bound (some m) small kept = absurd (true≢false kept)

check_inflation-shrinks :
    (original current : OptimizationContext) (res : PassResult)
    → (check_inflation (some inflation) original current res).rollback ≡ false
    → estimate (check_inflation (some inflation) original current res).messages
      ≤ estimate current.messages
unfolding check_inflation
check_inflation-shrinks original current res =
    mark_inflated-shrinks res (estimate current.messages)
      (inflation_error current.messages res.messages)
      (inflation_caught current.messages res.messages)

take_answer-Within :
    (validators : List Validator) (bound : ℕ) (pass : Pass) (p : Progress) (answer : PassAnswer)
    → find_validator "inflation" validators ≡ some inflation
    → Within bound p
    → Within bound (take_answer validators pass p answer)
unfolding take_answer
take_answer-Within validators bound pass p (failed m) registered h = h
take_answer-Within validators bound pass p (answered res) registered h = rw registered (
    judge-Within bound pass.name (check_inflation (some inflation) p.original p.current res) p
      (check_inflation-shrinks p.original p.current res) h)

written_by-Within :
    (bound : ℕ) (pass : Pass) (p : Progress)
    → WritesNoLonger pass
    → Within bound p
    → Within bound (written_by pass p)
unfolding written_by
written_by-Within bound pass p short (first, counted_first, last, counted) =
    let (original, current) = short p.original.messages p.current in
    (omega (arith, original, first), counted_first, omega (arith, current, last), counted)

run_passes-Within :
    (validators : List Validator) (bound : ℕ) (passes : List Pass) (p : Progress)
    → find_validator "inflation" validators ≡ some inflation
    → All WritesNoLonger passes
    → Within bound p
    → Within bound (run_passes validators passes p)
unfolding run_passes run_pass
run_passes-Within validators bound [] p registered short h = h
run_passes-Within validators bound (pass ∷ rest) p registered (short, shorts) h =
    run_passes-Within validators bound rest (run_pass validators pass p) registered shorts (
      take_answer-Within validators bound pass (written_by pass p) (pass.run p.current) registered
        (written_by-Within bound pass p short h))

-- Either every validator accepts the last good state, or the first state is back.
abbrev pub Validated : List Validator → Progress → OptimizationReport → Type 0
Validated validators p report =
    ((report.validation_success ≡ true)
      × (report.messages ≡ p.current.messages)
      × (report.optimized_tokens ≡ p.current.estimated_tokens)
      × All (λ v. v.verify p.current p.original.messages p.current.messages ≡ none) validators)
    ⊎ ((report.validation_success ≡ false)
        × (report.messages ≡ p.original.messages)
        × (report.optimized_tokens ≡ p.original.estimated_tokens))

Validated-cons :
    (v : Validator) (rest : List Validator) (p : Progress) (report : OptimizationReport)
    → v.verify p.current p.original.messages p.current.messages ≡ none
    → Validated rest p report
    → Validated (v ∷ rest) p report
Validated-cons v rest p report quiet (inl (good, same, count, all)) =
    inl (good, same, count, (quiet, all))
Validated-cons v rest p report quiet (inr back) = inr back

validate_accepts :
    (v : Validator) (rest : List Validator) (p : Progress)
    → v.verify p.current p.original.messages p.current.messages ≡ none
    → validate (v ∷ rest) p ≡ validate rest p
unfolding validate
validate_accepts v rest p quiet = rw quiet refl

validate-Validated :
    (validators : List Validator) (p : Progress) → Validated validators p (validate validators p)
unfolding validate
validate-Validated [] p = inl (refl, refl, refl, tt)
validate-Validated (v ∷ rest) p =
    elim (Option-cases (v.verify p.current p.original.messages p.current.messages)) [
      | inl quiet ↦
          subst (Validated (v ∷ rest) p) (sym (validate_accepts v rest p quiet))
            (Validated-cons v rest p (validate rest p) quiet (validate-Validated rest p))
      | inr (m, loud) ↦ simp loud (inr (refl, refl, refl))
    ]

-- The report either holds messages that every registered validator accepts, against what the passes
-- have left of the original ones, with success, or what is left of the original messages, without.
-- The passes are arbitrary.
pub optimize-Validated :
    (validators : List Validator) (original : OptimizationContext) (passes : List Pass)
    → ((optimize validators original passes).validation_success ≡ true)
        × ((final : OptimizationContext) × (left : List Json) × ((optimize validators original
                passes).messages
              ≡ final.messages)
            × All (λ v. v.verify final left final.messages ≡ none) validators)
      ⊎ (((optimize validators original passes).validation_success ≡ false)
          × ((optimize validators original passes).messages
              ≡ (run_passes validators passes (begin original)).original.messages))
unfolding optimize
optimize-Validated validators original passes =
    let p = run_passes validators passes (begin original) in
    elim (validate-Validated validators p) [
      | inl (good, same, count, all) ↦ inl (good, (p.current, p.original.messages, same, all))
      | inr (bad, same, count) ↦ inr (bad, same)
    ]

-- Where the inflation check is registered, the original's count is that of its messages, and no pass
-- makes messages longer by writing into the ones it is given, the report's messages count no more
-- tokens than the original ones did, and neither does its own figure, whatever the passes answer and
-- whether or not they write into messages that the states share.
pub optimize-shrinks :
    (validators : List Validator) (original : OptimizationContext) (passes : List Pass)
    → find_validator "inflation" validators ≡ some inflation
    → original.estimated_tokens ≡ estimate original.messages
    → All WritesNoLonger passes
    → (estimate (optimize validators original passes).messages ≤ estimate original.messages)
      × ((optimize validators original passes).optimized_tokens ≤ original.estimated_tokens)
unfolding optimize
optimize-shrinks validators original passes registered counted short =
    let p = run_passes validators passes (begin original) in
    let (first, counted_first, last, counted_last) =
      run_passes-Within validators (estimate original.messages) passes (begin original) registered
        short (omega arith, omega (arith, counted), omega arith, omega (arith, counted)) in
    elim (validate-Validated validators p) [
      | inl (good, same, count, all) ↦ rw (same, count) (last, omega (arith, counted_last, counted))
      | inr (bad, same, count) ↦ rw (same, count) (first, omega (arith, counted_first, counted))
    ]
