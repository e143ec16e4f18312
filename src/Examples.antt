-- ===== src/Examples.antt =====
-- Small inputs on which the theorems and the definitions are run.
mod Routes
mod Concurrent
pub mod Upstream
mod Whole
mod Parts
mod Front
pub mod Admin
mod Faults
mod Doors
use my_ai_router.Common.{ℕ, Bool, true, false, Option, none, some, List, [], ◌∷◌, String, TextOps}
use my_ai_router.Json.{Json, Fields, field, end, string, object, array, cons, nil}
use my_ai_router.Policy.{AttemptPolicy}
use my_ai_router.Config.{Snapshot, Combo, Settings}
use my_ai_router.Context.{Context, Connection, Target, new_context}
use my_ai_router.Pipeline.{World}

abbrev account : String → String → ℕ → Connection
account id provider priority = record {
  id = id;
  provider = provider;
  priority = priority;
  is_active = true;
  settings = end;
}

abbrev target : String → String → String → Target
target id provider model = record {
  connection = account id provider 1;
  model_name = model;
  provider = provider;
}

abbrev two_targets : List Target
two_targets = target "a1" "openai" "gpt-4o" ∷ target "b1" "anthropic" "claude" ∷ []

-- Text that is in lower case and trimmed already.
abbrev plain_text : TextOps
plain_text = record { to_lower = λ s. s; trim_space = λ s. s }

abbrev one_hop : AttemptPolicy
one_hop = record {
  attempt_timeout_ms = 100;
  final_timeout_ms = 0;
  max_fallbacks = 1;
  fallback_policy = "aggressive";
}

abbrev fast_combo : Combo
fast_combo = record {
  id = "c1";
  name = "fast";
  kind = "smart";
  models = "openai/gpt-4o" ∷ "anthropic/claude" ∷ [];
  policy = some one_hop;
}

abbrev login_settings : Settings
login_settings = record {
  rtk_enabled = false;
  headroom_enabled = false;
  headroom_url = "";
  caveman_enabled = false;
  ponytail_enabled = false;
  require_login = true;
  optimizer_enabled = false;
  optimization_engine = "auto";
  optimization_profile = "";
  optimization_goal = "";
  pipeline_steps = [];
  trace_storage_mode = "";
}

abbrev two_accounts : Snapshot
two_accounts = record {
  settings = some login_settings;
  combos = fast_combo ∷ [];
  model_configs = [];
  connections = account "a1" "openai" 1 ∷ account "b1" "anthropic" 2 ∷ [];
  custom_models = [];
}

abbrev quiet_world : World
quiet_world = record {
  now = 1_000_000_000_000;
  health = [];
  live = record { sessions = []; active = 0; errors = 0; retries = 0 };
  limiters = [];
  balance_counter = 0;
  config = two_accounts;
  usage = [];
  traces = [];
}

abbrev body_for : String → Fields
body_for model =
    field "model" (string model) (
      field "messages" (array (cons (object (field "content" (string "fix this bug") end)) nil))
        end)

abbrev request_for : String → Context
request_for model = new_context "req-1" (body_for model) false 0 false
