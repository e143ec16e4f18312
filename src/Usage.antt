-- ===== src/Usage.antt =====
-- pkg/db/usage.go and `TokensUsedToday` of pkg/db/apikeys.go: the log of usage, its daily summaries, and
-- the tokens that a key has used. Costs are left out. A statement's flag says whether the engine
-- carries it out.
pub mod Totals
use my_ai_router.Common.{
  ℕ, ◌+◌, Bool, true, false, ◌&&◌, Option, none, some, List, [], ◌∷◌, ◌++◌, String, str_eq,
  is_empty, slice, Dict, get, put, if◌then◌else◌,
}

pub record UsageRow : Type 0 where
  pub timestamp : String
  pub provider : String
  pub model : String
  pub connection_id : String
  pub api_key : String
  pub endpoint : String
  pub prompt_tokens : ℕ
  pub completion_tokens : ℕ
  pub cached_tokens : ℕ
  pub status : String

pub record DailySummaryData : Type 0 where
  pub requests : ℕ
  pub prompt_tokens : ℕ
  pub completion_tokens : ℕ
  pub cached_tokens : ℕ

-- The tables `usageHistory` and `usageDaily`.
pub record UsageTables : Type 0 where
  pub history : List UsageRow
  pub daily : Dict DailySummaryData

abbrev pub zero_summary : DailySummaryData
zero_summary = record { requests = 0; prompt_tokens = 0; completion_tokens = 0; cached_tokens = 0 }

abbrev pub or_zero : Option DailySummaryData → DailySummaryData
or_zero none = zero_summary
or_zero (some s) = s

-- `entry.Timestamp[:10]`
abbrev pub date_key : UsageRow → String
date_key r = slice r.timestamp 0 10

abbrev pub add_row : UsageRow → DailySummaryData → DailySummaryData
add_row r s = record {
  requests = s.requests + 1;
  prompt_tokens = s.prompt_tokens + r.prompt_tokens;
  completion_tokens = s.completion_tokens + r.completion_tokens;
  cached_tokens = s.cached_tokens + r.cached_tokens;
}

-- A summary that cannot be read counts as none.
abbrev pub read_summary : Bool → String → Dict DailySummaryData → DailySummaryData
read_summary asks day daily = if asks then or_zero (get day daily) else zero_summary

unfoldable pub update_daily_summary : Bool → Bool → UsageRow → UsageTables → UsageTables × Bool
update_daily_summary asks runs r t =
    let day = date_key r in
    if runs
    then (record t { daily = put day (add_row r (read_summary asks day t.daily)) t.daily }, true)
    else (t, false)

-- `entry.Timestamp = time.Now()...` where it has none.
abbrev pub stamped_row : String → UsageRow → UsageRow
stamped_row now r = record r { timestamp = if is_empty r.timestamp then now else r.timestamp }

-- `SaveRequestUsage`, with a flag for the insertion and two for the summary.
unfoldable pub save_request_usage :
    Bool → Bool → Bool → String → UsageRow → UsageTables → UsageTables × Bool
unfolding update_daily_summary
save_request_usage inserts asks runs now entry t =
    let r = stamped_row now entry in
    if inserts
    then update_daily_summary asks runs r (record t { history = t.history ++ r ∷ [] })
    else (t, false)

-- `TokensUsedToday`: `since` tells whether a timestamp is of the current day or later.
unfoldable pub tokens_used : (String → Bool) → String → List UsageRow → ℕ
tokens_used since key [] = 0
tokens_used since key (r ∷ rest) =
    let later = tokens_used since key rest in
    if str_eq r.api_key key && since r.timestamp
    then r.prompt_tokens + r.completion_tokens + later
    else later
