-- ===== src/Optimizer.antt =====
-- pkg/optimizer: what a compression pass and a validator are, and the tokens that they count.
-- Times, costs, byte counts and ratios are left out of the reports.
pub mod Planner
pub mod Runner
pub mod Safety
pub mod Plans
pub mod Validators
pub mod Dedup
use my_ai_router.Common.{
  ℕ, ◌+◌, ◌/◌, Bool, true, false, Option, none, some, String, len, List, [], ◌∷◌, Dict, get,
  Message,
}
use my_ai_router.Json.{Json, Fields, Items, nil, cons, object, string, array, member, as_string}

-- `EstimateTokens`
abbrev pub estimate_tokens : String → ℕ
estimate_tokens text = len text / 4

abbrev pub part_tokens : Json → ℕ
part_tokens (object m) = elim (as_string (member "text" m)) [
  | some text ↦ estimate_tokens text
  | none ↦ elim (as_string (member "content" m)) [
    | some content ↦ estimate_tokens content
    | none ↦ 0
  ]
]
part_tokens _ = 0

unfoldable pub parts_tokens : Items → ℕ
parts_tokens nil = 0
parts_tokens (cons part rest) = part_tokens part + parts_tokens rest

abbrev pub content_tokens : Option Json → ℕ
content_tokens (some (string content)) = estimate_tokens content
content_tokens (some (array parts)) = parts_tokens parts
content_tokens _ = 0

abbrev pub message_tokens : Json → ℕ
message_tokens (object m) = content_tokens (member "content" m)
message_tokens _ = 0

-- `EstimateMessageListTokens`
unfoldable pub estimate : List Json → ℕ
estimate [] = 0
estimate (m ∷ rest) = message_tokens m + estimate rest

-- `OptimizationContext`, the fields that the planner and the runner use.
pub record OptimizationContext : Type 0 where
  pub messages : List Json
  pub content_type : String
  pub has_json : Bool
  pub has_code : Bool
  pub has_logs : Bool
  pub estimated_tokens : ℕ
  pub goal : String

pub record PassResult : Type 0 where
  pub messages : List Json
  pub success : Bool
  pub rollback : Bool
  pub warnings : List Message

-- The interface `Pass`: a pass answers, or fails with an error.
pub data PassAnswer : Type 0 where
  failed : Message → PassAnswer
  answered : PassResult → PassAnswer

-- A pass is handed the maps themselves, and may write into those that message lists share. `left`
-- takes the original messages and the context of the run, and tells what the run's writes leave of
-- the one and of the other.
pub record Left : Type 0 where
  pub original : List Json
  pub current : List Json

pub record Pass : Type 0 where
  pub name : String
  pub before : List String
  pub after : List String
  pub can_run : OptimizationContext → Bool
  pub run : OptimizationContext → PassAnswer
  pub left : List Json → OptimizationContext → Left

-- The interface `Validator`: the error that it finds between two message lists.
pub record Validator : Type 0 where
  pub name : String
  pub verify : OptimizationContext → List Json → List Json → Option Message

-- The registry's maps. Go visits a map in any order: the list has the order of one visit.
pub record Registry : Type 0 where
  pub passes : Dict Pass
  pub validators : List Validator
  pub engines : Dict (List String)
