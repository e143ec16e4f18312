-- ===== src/Usage/Totals.antt =====
-- The daily summaries and the budget of a key, against the requests that are saved.
use my_ai_router.Common.{
  ℕ, ◌+◌, ◌≡◌, refl, Bool, true, ◌&&◌, List, [], ◌∷◌, ◌++◌, String, str_eq, eq_iff, get, get-put,
  slice, is_empty, arith, if◌then◌else◌, Bool-cases, inl, inr, ap, ◌∙◌,
}
use my_ai_router.Usage.{
  UsageRow, DailySummaryData, UsageTables, or_zero, save_request_usage, update_daily_summary,
  stamped_row, tokens_used, date_key, add_row,
}

-- A request's entry, with the time at which it is saved.
abbrev pub Entry : Type 0
Entry = String × UsageRow

-- The entry's own timestamp, where it has one.
abbrev pub time_of : Entry → String
time_of (now, r) = if is_empty r.timestamp then now else r.timestamp

-- The timestamp starts with the date.
abbrev pub is_on : String → Entry → Bool
is_on day e = str_eq (slice (time_of e) 0 10) day

-- The sum of a figure over the entries that a test picks.
unfoldable pub total : (Entry → Bool) → (UsageRow → ℕ) → List Entry → ℕ
total picks figure [] = 0
total picks figure (e ∷ rest) =
    let later = total picks figure rest in if picks e then figure e.1 + later else later

-- The entries saved one after another, where the engine carries out every statement.
unfoldable pub save_all : List Entry → UsageTables → UsageTables
unfolding save_request_usage
save_all [] t = t
save_all ((now, r) ∷ rest) t = save_all rest (save_request_usage true true true now r t).0

abbrev pub no_usage : UsageTables
no_usage = record { history = []; daily = [] }

abbrev summary_of : String → UsageTables → DailySummaryData
summary_of day t = or_zero (get day t.daily)

-- One summary counts more than another one by the figures of the day's entries.
abbrev pub GrownBy : String → List Entry → DailySummaryData → DailySummaryData → Type 0
GrownBy day entries old new =
    (new.requests ≡ old.requests + total (is_on day) (λ r. 1) entries)
    × (new.prompt_tokens ≡ old.prompt_tokens + total (is_on day) (λ r. r.prompt_tokens) entries)
    × (new.completion_tokens
        ≡ old.completion_tokens + total (is_on day) (λ r. r.completion_tokens) entries)
    × (new.cached_tokens ≡ old.cached_tokens + total (is_on day) (λ r. r.cached_tokens) entries)

save_request_usage-summary :
    (now : String) (r : UsageRow) (t : UsageTables) (day : String)
    → summary_of day (save_request_usage true true true now r t).0
      ≡ (if is_on day (now, r) then add_row r (summary_of day t) else summary_of day t)
unfolding save_request_usage update_daily_summary
save_request_usage-summary now r t day =
    let key = date_key (stamped_row now r) in
    rw (get-put key day (add_row r (or_zero (get key t.daily))) t.daily)
      (elim (Bool-cases (str_eq key day)) [
        | inl e ↦ rw e (ap (λ d. add_row r (summary_of d t)) ((eq_iff key day).0 e))
        | inr e ↦ rw e refl
      ])

GrownBy-cons :
    (day : String) (e : Entry) (rest : List Entry) (old mid new : DailySummaryData)
    → mid ≡ (if is_on day e then add_row e.1 old else old)
    → GrownBy day rest mid new
    → GrownBy day (e ∷ rest) old new
unfolding total
GrownBy-cons day e rest old mid new step (requests, prompt, completion, cached) =
    elim (Bool-cases (is_on day e)) [
      | inl hit ↦
          let grown : mid ≡ add_row e.1 old = step ∙ rw hit refl in
          rw hit (
            omega (arith, requests, ap (λ s. s.requests) grown),
            omega (arith, prompt, ap (λ s. s.prompt_tokens) grown),
            omega (arith, completion, ap (λ s. s.completion_tokens) grown),
            omega (arith, cached, ap (λ s. s.cached_tokens) grown),
          )
      | inr miss ↦
          let same : mid ≡ old = step ∙ rw miss refl in
          rw miss (
            omega (arith, requests, ap (λ s. s.requests) same),
            omega (arith, prompt, ap (λ s. s.prompt_tokens) same),
            omega (arith, completion, ap (λ s. s.completion_tokens) same),
            omega (arith, cached, ap (λ s. s.cached_tokens) same),
          )
    ]

-- Where the engine carries out every statement, the requests, prompt tokens, completion tokens and
-- cached tokens in a day's summary grow by those of the saved entries whose timestamp, or time of
-- saving where they have none, starts with that date; a summary that is missing counts as zero.
pub save_all-summed :
    (entries : List Entry) (t : UsageTables) (day : String)
    → GrownBy day entries (or_zero (get day t.daily)) (or_zero (get day (save_all entries t).daily))
unfolding save_all total
save_all-summed [] t day = (omega arith, omega arith, omega arith, omega arith)
save_all-summed ((now, r) ∷ rest) t day =
    let next = (save_request_usage true true true now r t).0 in
    GrownBy-cons day (now, r) rest (summary_of day t) (summary_of day next)
      (summary_of day (save_all rest next)) (save_request_usage-summary now r t day)
      (save_all-summed rest next day)

tokens_used-append :
    (since : String → Bool) (key : String) (rows : List UsageRow) (r : UsageRow)
    → tokens_used since key (rows ++ r ∷ [])
      ≡ tokens_used since key rows + tokens_used since key (r ∷ [])
unfolding tokens_used
tokens_used-append since key [] r = omega arith
tokens_used-append since key (x ∷ rest) r = ground (arith, tokens_used-append since key rest r)

-- The entry is saved under the key, at a time that counts.
abbrev pub is_of : (String → Bool) → String → Entry → Bool
is_of since key e = str_eq e.1.api_key key && since (time_of e)

-- The tokens that a key has used since the day began grow by the prompt and completion tokens of
-- exactly those saved entries that carry this key and whose timestamp, or time of saving where they
-- have none, is not before the day's start.
pub tokens_used-save_all :
    (since : String → Bool) (key : String) (entries : List Entry) (t : UsageTables)
    → tokens_used since key (save_all entries t).history
      ≡ tokens_used since key t.history
        + total (is_of since key) (λ r. r.prompt_tokens + r.completion_tokens) entries
unfolding save_all total tokens_used save_request_usage update_daily_summary
tokens_used-save_all since key [] t = omega arith
tokens_used-save_all since key ((now, r) ∷ rest) t = ground (
  arith,
  tokens_used-save_all since key rest (save_request_usage true true true now r t).0,
  tokens_used-append since key t.history (stamped_row now r),
)
