-- ===== src/Observability/Records.antt =====
-- What the records of requests hold.
use my_ai_router.Common.{
  ℕ, ◌≤◌, ◌≡◌, refl, sym, ap, subst, ◌⊎◌, ◌∙◌, inl, inr, true, false, Bool-cases, [], ◌∷◌, ◌++◌,
  Option, none, some, String, ◌==◌, if◌then◌else◌, arith,
}
use my_ai_router.Context.{Context}
use my_ai_router.Pipeline.{World, Outcome, Handler, UsageEntry}
use my_ai_router.Retry.Attempt.{is_success}
use my_ai_router.Observability.{
  succeeded, count_tokens, prompt_estimate, completion_estimate, usage_entry, latency_of,
  record_outcome, observability, status_of, traces_off, preview_limit,
}
use my_ai_router.Observability.Content.{prompt_chars}
use my_ai_router.Observability.Answers.{Formats, response_preview}

prompt_estimate_positive : (chars : ℕ) → 1 ≤ prompt_estimate chars true
unfolding prompt_estimate
prompt_estimate_positive chars = ground arith

completion_estimate_positive : (preview body : String) → 1 ≤ completion_estimate preview body true
unfolding completion_estimate
completion_estimate_positive preview body = ground arith

at_least : (n other : ℕ) → 1 ≤ other → 1 ≤ (if n == 0 then other else n)
at_least n other h = ground arith

counted :
    (f : Formats) (c : Context)
    → (1 ≤ (count_tokens f true c).prompt_tokens) × (1 ≤ (count_tokens f true c).completion_tokens)
unfolding count_tokens
counted f c = (
  at_least c.prompt_tokens _ (prompt_estimate_positive (prompt_chars f.ops c.request_body)),
  at_least c.completion_tokens _ (
      completion_estimate_positive (response_preview f preview_limit c.response_body)
        c.response_body),
)

succeeded_lem : (e : Option String) (code : ℕ) → succeeded e code ≡ is_success e code
unfolding succeeded
succeeded_lem none code = refl
succeeded_lem (some e) code = refl

charged :
    (f : Formats) (e : Option String) (code : ℕ) (c : Context)
    → (is_success e code ≡ false)
      ⊎ ((1 ≤ (count_tokens f (succeeded e code) c).prompt_tokens)
          × (1 ≤ (count_tokens f (succeeded e code) c).completion_tokens))
charged f e code c = elim (Bool-cases (is_success e code)) [
  | inr failed ↦ inl failed
  | inl worked ↦ inr (
      subst
        (λ b.
          (1 ≤ (count_tokens f b c).prompt_tokens) × (1 ≤ (count_tokens f b c).completion_tokens))
        (sym (succeeded_lem e code ∙ worked)) (counted f c))
]

record_outcome_usage :
    (f : Formats) (o : Outcome)
    → let ok = succeeded o.error o.ctx.response_code in
      (record_outcome f o).world.usage
      ≡ o.world.usage
        ++ usage_entry (count_tokens f ok o.ctx) ok (latency_of o.ctx.started o.world.now) ∷ []
unfolding record_outcome
record_outcome_usage f o = elim (Bool-cases (traces_off o.world)) [
  | inl e ↦ rw e refl
  | inr e ↦ rw e refl
]

-- A request leaves one more entry in the table of usage, and its answer is left alone: the entry has
-- the status "ok" just where the request has succeeded, and then it counts one token at least for the
-- prompt and one for the answer.
pub observability_records :
    (f : Formats) (next : Handler) (c : Context) (w : World)
    → let below = next c w in
      let above = observability f next c w in
      (above.ctx.socket ≡ below.ctx.socket)
      × (above.error ≡ below.error)
      × ((entry : UsageEntry) × (above.world.usage ≡ below.world.usage ++ entry ∷ [])
          × (entry.status ≡ status_of (is_success below.error below.ctx.response_code))
          × ((is_success below.error below.ctx.response_code ≡ false)
              ⊎ ((1 ≤ entry.prompt_tokens) × (1 ≤ entry.completion_tokens))))
unfolding observability record_outcome count_tokens
observability_records f next c w =
    let o = next c w in
    let ok = succeeded o.error o.ctx.response_code in
    (
      refl,
      refl,
      (
        usage_entry (count_tokens f ok o.ctx) ok (latency_of o.ctx.started o.world.now),
        record_outcome_usage f o,
        ap status_of (succeeded_lem o.error o.ctx.response_code),
        charged f o.error o.ctx.response_code o.ctx,
      ),
    )
