-- ===== src/Config.antt =====
-- pkg/db: the routing snapshot (snapshot.go), model policies (models.go), combos (combos.go) and the
-- settings that the pipeline reads. The tables behind them are read through the snapshot.
pub mod Lookup
pub mod Stored
pub mod Loaded
use my_ai_router.Common.{
  ℕ, ◌+◌, Bool, true, false, ◌&&◌, ◌||◌, Option, none, some, List, [], ◌∷◌, Dict, get, String,
  str_eq, cut_slash, keep_if, TextOps, if◌then◌else◌,
}
use my_ai_router.Policy.{AttemptPolicy}
use my_ai_router.Context.{Connection}

pub record CompressionConfig : Type 0 where
  pub enabled : Bool
  pub strategy : String
  pub trigger : String
  pub threshold_tokens : ℕ
  pub preserve_recent_messages : ℕ

pub record RoutingConfig : Type 0 where
  pub primary_provider : String
  pub fallback_model : Option String

pub record ModelConfig : Type 0 where
  pub id : String
  pub name : String
  pub routing : RoutingConfig
  pub compression : CompressionConfig

pub record Combo : Type 0 where
  pub id : String
  pub name : String
  pub kind : String
  pub models : List String
  pub policy : Option AttemptPolicy

pub record CustomModel : Type 0 where
  pub provider_alias : String
  pub id : String

pub record PipelineStep : Type 0 where
  pub name : String
  pub enabled : Bool

pub record Settings : Type 0 where
  pub rtk_enabled : Bool
  pub headroom_enabled : Bool
  pub headroom_url : String
  pub caveman_enabled : Bool
  pub ponytail_enabled : Bool
  pub require_login : Bool
  pub optimizer_enabled : Bool
  pub optimization_engine : String
  pub optimization_profile : String
  pub optimization_goal : String
  pub pipeline_steps : List PipelineStep
  pub trace_storage_mode : String

-- `none` for the settings stands for a read that fails.
pub record Snapshot : Type 0 where
  pub settings : Option Settings
  pub combos : List Combo
  pub model_configs : Dict ModelConfig
  pub connections : List Connection
  pub custom_models : List CustomModel

-- `activeByProvider[provider]`, as `buildRoutingSnapshot` fills it.
unfoldable pub active_connections : Snapshot → String → List Connection
active_connections s provider =
    keep_if (λ c. c.is_active && str_eq c.provider provider) s.connections

abbrev pub default_compression : CompressionConfig
default_compression = record {
  enabled = false;
  strategy = "balanced";
  trigger = "threshold";
  threshold_tokens = 64000;
  preserve_recent_messages = 20;
}

unfoldable pub default_config : String → Option (String × String) → ModelConfig
default_config id none = record {
  id = id;
  name = id;
  routing = record { primary_provider = "openai"; fallback_model = none };
  compression = default_compression;
}
default_config id (some (provider, name)) = record {
  id = id;
  name = name;
  routing = record { primary_provider = provider; fallback_model = none };
  compression = default_compression;
}

unfoldable pub model_config : Snapshot → String → ModelConfig
unfolding default_config
model_config s id = elim (get id s.model_configs) [
  | none ↦ default_config id (cut_slash id)
  | some cfg ↦ cfg
]

abbrev pub names_combo : TextOps → String → Combo → Bool
names_combo ops wanted c = str_eq (ops.to_lower c.name) wanted || str_eq (ops.to_lower c.id) wanted

unfoldable pub find_combo : TextOps → String → List Combo → Option Combo
find_combo ops wanted [] = none
find_combo ops wanted (c ∷ rest) =
    let later = find_combo ops wanted rest in if names_combo ops wanted c then some c else later

-- `ResolveCombo`: by name or id, without regard to case.
unfoldable pub resolve_combo : TextOps → Snapshot → String → Option Combo
unfolding find_combo
resolve_combo ops s name = find_combo ops (ops.to_lower (ops.trim_space name)) s.combos
