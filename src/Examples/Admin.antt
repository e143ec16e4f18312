-- ===== src/Examples/Admin.antt =====
-- Runs of the database: mutations behind the snapshot, and what is read afterwards.
use my_ai_router.Common.{
  ◌&&◌, ◌||◌, ◌≡◌, refl, true, false, none, some, List, [], ◌∷◌, len, leb, All, str_eq,
}
use my_ai_router.Json.{Fields, end, field, bool}
use my_ai_router.Config.{default_compression}
use my_ai_router.Config.Stored.{StoredSettings}
use my_ai_router.Config.Loaded.{with_defaults}
use my_ai_router.Database.{
  ComboRow, ModelRow, ProviderConnection, ProviderNode, Tables, Store, Collation, invalidate,
  ModelRate, all_answered,
}
use my_ai_router.Database.Reading.{get_routing_snapshot, build_routing_snapshot}
use my_ai_router.Database.Calls.{
  Call, run, read_snapshot, combo_delete, model_save, connection_create,
}
use my_ai_router.Database.Current.{get_routing_snapshot-run, delete_provider_node-lingers}
use my_ai_router.Database.Nodes.{delete_provider_node}
use my_ai_router.Database.Bundle.{ConfigBundle, Importer}
use my_ai_router.Database.Kept.{get_pricing_override-set}
use my_ai_router.Database.Sets.{is_named, left_out, disable_models-union, enable_models-difference}
use my_ai_router.Database.ModelLists.{get_disabled_models, disable_models, enable_models}
use my_ai_router.Database.Pricing.{set_pricing_override, get_pricing_override, last_slash}
use my_ai_router.Examples.{plain_text}

abbrev pub by_length : Collation
by_length a b = leb (len a) (len b)

abbrev team_account : ProviderConnection
team_account = record {
  id = "a1";
  provider = "team";
  auth_type = "key";
  name = "team";
  email = "";
  priority = 1;
  is_active = true;
  settings = none;
  created_at = "t0";
  updated_at = "t0";
}

abbrev team_node : ProviderNode
team_node = record {
  id = "team";
  node_type = "openai";
  name = "Team";
  settings = end;
  created_at = "t0";
  updated_at = "t0";
}

abbrev fast_row : ComboRow
fast_row = record {
  id = "c1";
  name = "fast";
  kind = "smart";
  models = "team/m" ∷ [];
  policy = none;
  created_at = "t0";
  updated_at = "t0";
}

abbrev gpt_policy : ModelRow
gpt_policy = record {
  id = "gpt";
  name = "gpt";
  primary_provider = "openai";
  fallback_provider = some "team";
  fallback_model = none;
  compression = default_compression;
  created_at = "";
  updated_at = "";
}

abbrev pub small_tables : Tables
small_tables = record {
  settings = some end;
  combos = fast_row ∷ [];
  models = [];
  connections = team_account ∷ [];
  nodes = team_node ∷ [];
  proxies = [];
  custom_models = [];
  disabled_models = [];
  enabled_models = [];
  thinking_models = [];
  pricing_overrides = [];
}

abbrev some_calls : List Call
some_calls =
    read_snapshot
    ∷ combo_delete true "c1"
    ∷ read_snapshot
    ∷ model_save true true "t1" gpt_policy
    ∷ connection_create true false "a2" "t1" team_account
    ∷ []

get_routing_snapshot-run_example :
    (get_routing_snapshot by_length all_answered
      (run plain_text by_length some_calls (invalidate small_tables))).0
    ≡ build_routing_snapshot by_length all_answered
        (run plain_text by_length some_calls (invalidate small_tables)).tables
get_routing_snapshot-run_example =
    get_routing_snapshot-run plain_text by_length small_tables some_calls
      (refl, (refl, (refl, (refl, (refl, tt)))))

abbrev pub importer : Importer
importer = record { accepts = λ id. true; fresh = λ n. "new"; now = "t2" }

abbrev pub policy_bundle : ConfigBundle
policy_bundle = record {
  providers = team_account ∷ [];
  nodes = [];
  combos = fast_row ∷ [];
  models = gpt_policy ∷ [];
  custom = [];
  proxies = [];
}

abbrev pub served_tables : Tables
served_tables = record small_tables {
  custom_models =
      ("team|m|chat", record { provider_alias = "team"; id = "m"; model_type = "chat"; name = "M" })
      ∷ [];
  proxies =
      record {
        id = "p1";
        name = "";
        scheme = "http";
        host = "h";
        port = 80;
        username = "";
        password = "";
        is_enabled = true;
        created_at = "";
        updated_at = "";
      }
      ∷ [];
}

delete_provider_node-lingers_example :
    let filled = (get_routing_snapshot by_length all_answered (invalidate small_tables)).1 in
    let after = (delete_provider_node true true "team" filled).0 in
    ((get_routing_snapshot by_length all_answered after).0
      ≡ (get_routing_snapshot by_length all_answered (invalidate small_tables)).0)
    × All (λ c. str_eq c.provider "team" ≡ false) after.tables.connections
delete_provider_node-lingers_example =
    delete_provider_node-lingers by_length "team" (invalidate small_tables)

abbrev cave_update : Fields
cave_update = field "cavemanEnabled" (bool true) end

abbrev plain_settings : StoredSettings
plain_settings = record {
  rtk_enabled = false;
  headroom_enabled = false;
  headroom_url = "";
  caveman_enabled = false;
  caveman_level = "";
  ponytail_enabled = false;
  ponytail_level = "";
  require_login = false;
  password_hash = "";
  optimizer_enabled = false;
  optimization_engine = "";
  optimization_profile = "";
  optimization_goal = "";
  pipeline_steps = [];
  trace_storage_mode = "";
  max_trace_records = 0;
}

abbrev loaded_settings : StoredSettings
unfolding with_defaults
loaded_settings = with_defaults plain_settings

abbrev caveman_settings : StoredSettings
caveman_settings = record loaded_settings { caveman_enabled = true }

disable_models-union_example :
    is_named "m" (
      get_disabled_models true "team"
        (disable_models true true "team" ("m" ∷ "n" ∷ []) (invalidate small_tables)).0)
    ≡ (is_named "m" (get_disabled_models true "team" (invalidate small_tables))
        || is_named "m" ("m" ∷ "n" ∷ []))
disable_models-union_example =
    disable_models-union "team" "m" ("m" ∷ "n" ∷ []) (invalidate small_tables)

abbrev disabled_store : Store
unfolding disable_models
disabled_store = (disable_models true true "team" ("m" ∷ "n" ∷ []) (invalidate small_tables)).0

enable_models-difference_example :
    is_named "m"
      (get_disabled_models true "team" (enable_models true true "team" ("m" ∷ []) disabled_store).0)
    ≡ (is_named "m" (get_disabled_models true "team" disabled_store) && left_out "m" ("m" ∷ []))
enable_models-difference_example = enable_models-difference "team" "m" ("m" ∷ []) disabled_store

abbrev gpt_rate : ModelRate
gpt_rate = record { input = "1"; output = "2"; cached = "0" }

get_pricing_override-set_example :
    (get_pricing_override plain_text by_length all_answered "openai" "gpt"
      (set_pricing_override plain_text true "openai" "gpt" gpt_rate (invalidate small_tables)).0).0
    ≡ some gpt_rate
unfolding last_slash
get_pricing_override-set_example =
    get_pricing_override-set plain_text by_length "openai" "gpt" gpt_rate (invalidate small_tables)
      refl refl refl refl refl
