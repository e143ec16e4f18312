-- ===== src/Database.antt =====
-- pkg/db: the tables of the gateway's database and the routing snapshot, the copy in memory that
-- requests read (snapshot.go). A JSON column holds its decoded value, a time is its text. A
-- statement's flag says whether the engine carries it out.
pub mod Table
pub mod Reading
pub mod Combos
pub mod Models
pub mod Connections
pub mod ModelLists
pub mod Customs
pub mod Pricing
pub mod Nodes
pub mod SettingsRow
pub mod Bundle
pub mod Calls
pub mod Current
pub mod Ordered
pub mod Saved
pub mod Sets
pub mod Kept
pub mod ApiKeys
use my_ai_router.Common.{
  ℕ, Bool, true, false, ◌&&◌, not, Option, none, some, List, [], ◌∷◌, map, Dict, get, put, String,
  str_eq, leb, append, if◌then◌else◌,
}
use my_ai_router.Json.{Fields, end}
use my_ai_router.Policy.{AttemptPolicy, zero_policy}
use my_ai_router.Context.{Connection}
use my_ai_router.Config.{
  Snapshot, Combo, ModelConfig, CompressionConfig, CustomModel, Settings, model_config,
  active_connections,
}
use my_ai_router.Config.Stored.{StoredSettings}
use my_ai_router.Config.Loaded.{load_settings, shown}
use my_ai_router.Database.Table.{order_by}

pub record ComboRow : Type 0 where
  pub id : String
  pub name : String
  pub kind : String
  pub models : List String
  pub policy : Option AttemptPolicy
  pub created_at : String
  pub updated_at : String

-- A row of `models`, or the Go struct `ModelConfig` with all of its fields.
pub record ModelRow : Type 0 where
  pub id : String
  pub name : String
  pub primary_provider : String
  pub fallback_provider : Option String
  pub fallback_model : Option String
  pub compression : CompressionConfig
  pub created_at : String
  pub updated_at : String

-- Without settings, the column is null and `Data` a nil map.
pub record ProviderConnection : Type 0 where
  pub id : String
  pub provider : String
  pub auth_type : String
  pub name : String
  pub email : String
  pub priority : ℕ
  pub is_active : Bool
  pub settings : Option Fields
  pub created_at : String
  pub updated_at : String

pub record StoredCustomModel : Type 0 where
  pub provider_alias : String
  pub id : String
  pub model_type : String
  pub name : String

-- A `float64` stands as its text in JSON: prices are stored and read back, not computed with.
pub record ModelRate : Type 0 where
  pub input : String
  pub output : String
  pub cached : String

pub record PricingOverrideRecord : Type 0 where
  pub provider : String
  pub model : String
  pub rate : ModelRate

pub record ProviderNode : Type 0 where
  pub id : String
  pub node_type : String
  pub name : String
  pub settings : Fields
  pub created_at : String
  pub updated_at : String

pub record ProxyRoute : Type 0 where
  pub id : String
  pub name : String
  pub scheme : String
  pub host : String
  pub port : ℕ
  pub username : String
  pub password : String
  pub is_enabled : Bool
  pub created_at : String
  pub updated_at : String

-- The tables. The rows of `kv` stand under their scopes.
pub record Tables : Type 0 where
  pub settings : Option Fields
  pub combos : List ComboRow
  pub models : List ModelRow
  pub connections : List ProviderConnection
  pub nodes : List ProviderNode
  pub proxies : List ProxyRoute
  pub custom_models : Dict StoredCustomModel
  pub disabled_models : Dict (List String)
  pub enabled_models : Dict (List String)
  pub thinking_models : Dict (Dict Bool)
  pub pricing_overrides : Dict PricingOverrideRecord

-- `routingSnapshot`: `config` is the part that the chat pipeline reads, `settings` is all of them.
pub record RoutingSnapshot : Type 0 where
  pub settings : Option StoredSettings
  pub config : Snapshot
  pub custom_models : List StoredCustomModel
  pub enabled_models : Dict (List String)
  pub pricing_overrides : Dict ModelRate

-- The database and `snapshotPtr`.
pub record Store : Type 0 where
  pub tables : Tables
  pub snapshot : Option RoutingSnapshot

-- Which of the queries of `buildRoutingSnapshot` the engine answers.
pub record Queries : Type 0 where
  pub settings : Bool
  pub combos : Bool
  pub models : Bool
  pub connections : Bool
  pub custom_models : Bool
  pub pricing_overrides : Bool
  pub enabled_models : Bool

abbrev pub all_answered : Queries
all_answered = record {
  settings = true;
  combos = true;
  models = true;
  connections = true;
  custom_models = true;
  pricing_overrides = true;
  enabled_models = true;
}

-- How SQLite compares two texts: whether the first may stand before the second.
abbrev pub Collation : Type 0
Collation = String → String → Bool

-- `nil_map` is the panic of a write to a nil map.
pub data Fault : Type 0 where
  no_rows refused duplicate nil_map : Fault

pub data Result (A : Type 0) : Type 0 where
  ok : A → Result A
  fault : Fault → Result A

abbrev pub failure : {A : Type 0} → Result A → Option Fault
failure (ok a) = none
failure (fault e) = some e

-- Reading a nil map finds no member.
abbrev pub members : Option Fields → Fields
members none = end
members (some m) = m

-- A change of the tables, followed by `InvalidateRoutingSnapshot`.
abbrev pub invalidate : Tables → Store
invalidate t = record { tables = t; snapshot = none }
