-- ===== src/Pipeline.antt =====
-- internal/gateway/middleware/pipeline.go: handlers, middlewares and the chain that runs them.
-- A handler takes the request and the state that requests share, and returns both with its error.
pub mod Chain
use my_ai_router.Common.{ℕ, Bool, Option, none, some, String, List, [], ◌∷◌, Dict}
use my_ai_router.Health.{Tracker}
use my_ai_router.Live.{ActivityTracker}
use my_ai_router.Context.{Context, Percent, PrepareResult, TargetAttempt, TraceStep}
use my_ai_router.Config.{Snapshot}

-- `userLimiter`: tokens in billionths of a token, so that a nanosecond earns one.
pub record Bucket : Type 0 where
  pub tokens : ℕ
  pub last_check : ℕ

-- `db.UsageEntry`, with the durations and counts of its metadata. Costs and rates are left out.
pub record UsageEntry : Type 0 where
  pub provider : String
  pub model : String
  pub connection_id : String
  pub api_key : String
  pub prompt_tokens : ℕ
  pub completion_tokens : ℕ
  pub cached_tokens : ℕ
  pub status : String
  pub duration_ms : ℕ
  pub ttfb_ms : ℕ
  pub retry_count : ℕ
  pub fallback : ℕ

-- `db.FlatTrace`, with the fields of its request and response parts. Costs are left out.
pub record FlatTrace : Type 0 where
  pub id : String
  pub status : String
  pub provider : String
  pub model : String
  pub route : String
  pub node : String
  pub route_nodes : List String
  pub attempt : ℕ
  pub total_attempts : ℕ
  pub latency_ms : ℕ
  pub ttfb_ms : ℕ
  pub input_tokens : ℕ
  pub output_tokens : ℕ
  pub cached_tokens : ℕ
  pub compression : Percent
  pub is_stream : Bool
  pub retry_count : ℕ
  pub fallback_count : ℕ
  pub target_attempts : List TargetAttempt
  pub pipeline : List TraceStep
  pub messages : ℕ
  pub chars : ℕ
  pub prepared : Option PrepareResult
  pub finish_reason : String
  pub error_code : ℕ
  pub error_message : String
  pub request : String
  pub response : String

-- What all requests share. The tables of usage and traces take every entry. `now` is the clock, which only upstream calls move.
pub record World : Type 0 where
  pub now : ℕ
  pub health : Tracker
  pub live : ActivityTracker
  pub limiters : Dict Bucket
  pub balance_counter : ℕ
  pub config : Snapshot
  pub usage : List UsageEntry
  pub traces : List FlatTrace

pub record Outcome : Type 0 where
  pub error : Option String
  pub ctx : Context
  pub world : World

abbrev pub Handler : Type 0
Handler = Context → World → Outcome

-- The first argument is `next`.
abbrev pub Middleware : Type 0
Middleware = Handler → Handler

abbrev pub return : Context → World → Outcome
return c w = record { error = none; ctx = c; world = w }

-- `Pipeline.Run`: behind the last middleware a call of `next` does nothing.
unfoldable pub run : List Middleware → Handler
run [] c w = return c w
run (m ∷ ms) c w = m (run ms) c w
