-- ===== src/Database/Reading.antt =====
-- pkg/db/snapshot.go: the routing snapshot as it is read from the tables, kept, and dropped.
use my_ai_router.Common.{
  Bool, true, false, Option, none, some, List, [], ◌∷◌, map, Dict, put, String, str_eq, leb, append,
  if◌then◌else◌,
}
use my_ai_router.Json.{Fields}
use my_ai_router.Policy.{AttemptPolicy, zero_policy}
use my_ai_router.Context.{Connection}
use my_ai_router.Config.{Combo, ModelConfig, CustomModel, Settings}
use my_ai_router.Config.Stored.{StoredSettings}
use my_ai_router.Config.Loaded.{load_settings, shown}
use my_ai_router.Database.Table.{order_by}
use my_ai_router.Database.{
  Collation, ComboRow, ModelRate, ModelRow, PricingOverrideRecord, ProviderConnection, Queries,
  RoutingSnapshot, Store, StoredCustomModel, Tables, members,
}

-- A policy is stored as JSON. No policy is stored as null, which is read as the zero policy.
unfoldable pub read_policy : Option AttemptPolicy → Option AttemptPolicy
read_policy none = some zero_policy
read_policy (some p) = some p

abbrev pub read_combo : ComboRow → Combo
unfolding read_policy
read_combo r = record {
  id = r.id;
  name = r.name;
  kind = r.kind;
  models = r.models;
  policy = read_policy r.policy;
}

-- A fallback provider without a fallback model stands for its model of the same name.
abbrev pub completed_fallback : ModelRow → Option String
completed_fallback r = elim r.fallback_model [
  | some m ↦ some m
  | none ↦ elim r.fallback_provider [ none ↦ none | some p ↦ some (append p (append "/" r.name)) ]
]

-- The row as `GetModelConfig` and `listModelConfigsFromDB` scan it.
unfoldable pub scan_model : ModelRow → ModelRow
scan_model r = record r { fallback_model = completed_fallback r }

-- What the gateway reads of a scanned row.
unfoldable pub read_model : ModelRow → ModelConfig
read_model r = record {
  id = r.id;
  name = r.name;
  routing = record { primary_provider = r.primary_provider; fallback_model = r.fallback_model };
  compression = r.compression;
}

abbrev pub read_connection : ProviderConnection → Connection
read_connection c = record {
  id = c.id;
  provider = c.provider;
  priority = c.priority;
  is_active = c.is_active;
  settings = members c.settings;
}

-- `for i := range configs { snap.modelConfigs[configs[i].ID] = &configs[i] }`
unfoldable pub index_models : List ModelRow → Dict ModelConfig → Dict ModelConfig
unfolding read_model put
index_models [] indexed = indexed
index_models (r ∷ rest) indexed = index_models rest (put r.id (read_model r) indexed)

abbrev pub rates : Dict PricingOverrideRecord → Dict ModelRate
rates [] = []
rates ((k, r) ∷ rest) = (k, r.rate) ∷ rates rest

abbrev pub custom_list : Dict StoredCustomModel → List StoredCustomModel
custom_list [] = []
custom_list ((k, c) ∷ rest) = c ∷ custom_list rest

abbrev pub read_custom : StoredCustomModel → CustomModel
read_custom c = record { provider_alias = c.provider_alias; id = c.id }

-- `ORDER BY provider, priority`
abbrev pub by_provider : Collation → ProviderConnection → ProviderConnection → Bool
by_provider before a b =
    if str_eq a.provider b.provider then leb a.priority b.priority else before a.provider b.provider

-- `listCombosFromDB`, `listModelConfigsFromDB` and `listConnectionsFromDB`
unfoldable pub list_combos : Collation → Tables → List Combo
unfolding order_by
list_combos before t = map read_combo (order_by (λ a b. before a.name b.name) t.combos)

unfoldable pub list_models : Collation → Tables → List ModelRow
unfolding order_by scan_model
list_models before t = map scan_model (order_by (λ a b. before a.id b.id) t.models)

unfoldable pub list_connections : Collation → Tables → List ProviderConnection
unfolding order_by
list_connections before t = order_by (by_provider before) t.connections

abbrev pub when {ℓ} : {A : Type ℓ} → Bool → List A → List A
when true rows = rows
when false rows = []

abbrev pub load_when : Bool → Option Fields → Option StoredSettings
load_when false row = none
load_when true row = load_settings row

abbrev pub shown_settings : Option StoredSettings → Option Settings
shown_settings none = none
shown_settings (some s) = some (shown s)

-- A query that fails leaves its part of the snapshot empty.
unfoldable pub build_routing_snapshot : Collation → Queries → Tables → RoutingSnapshot
unfolding list_combos list_models list_connections index_models
build_routing_snapshot before q t = record {
  settings = load_when q.settings t.settings;
  config = record {
    settings = shown_settings (load_when q.settings t.settings);
    combos = when q.combos (list_combos before t);
    model_configs = index_models (when q.models (list_models before t)) [];
    connections = map read_connection (when q.connections (list_connections before t));
    custom_models = map read_custom (when q.custom_models (custom_list t.custom_models));
  };
  custom_models = when q.custom_models (custom_list t.custom_models);
  enabled_models = when q.enabled_models t.enabled_models;
  pricing_overrides = when q.pricing_overrides (rates t.pricing_overrides);
}

-- `getRoutingSnapshot`
unfoldable pub get_routing_snapshot : Collation → Queries → Store → RoutingSnapshot × Store
unfolding build_routing_snapshot
get_routing_snapshot before q s = elim s.snapshot [
  | some built ↦ (built, s)
  | none ↦
      let built = build_routing_snapshot before q s.tables in
      (built, record s { snapshot = some built })
]
