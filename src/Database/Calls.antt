-- ===== src/Database/Calls.antt =====
-- The mutations of pkg/db as steps, in the order in which a process makes them, with the reads that
-- fill the snapshot between them.
use my_ai_router.Common.{Bool, Option, List, [], ◌∷◌, String, TextOps}
use my_ai_router.Json.{Fields}
use my_ai_router.Policy.{AttemptPolicy}
use my_ai_router.Database.{
  ComboRow, ModelRow, ProviderConnection, StoredCustomModel, ModelRate, ProviderNode, ProxyRoute,
  Store, Collation, all_answered,
}
use my_ai_router.Database.Reading.{get_routing_snapshot}
use my_ai_router.Database.Combos.{create_combo, delete_combo, update_combo}
use my_ai_router.Database.Models.{
  create_model_config, update_model_config, save_model_config, delete_model_config,
}
use my_ai_router.Database.Connections.{create_connection, update_connection, delete_connection}
use my_ai_router.Database.ModelLists.{
  disable_models, enable_models, set_enabled_models, set_thinking_model,
}
use my_ai_router.Database.Customs.{add_custom_model, delete_custom_model}
use my_ai_router.Database.Pricing.{set_pricing_override, delete_pricing_override}
use my_ai_router.Database.Nodes.{
  create_provider_node, delete_provider_node, create_proxy_route, update_proxy_route,
  delete_proxy_route,
}
use my_ai_router.Database.SettingsRow.{update_settings}
use my_ai_router.Database.Bundle.{ConfigBundle, Importer, config_import}

-- The Booleans say which of the statements the engine carries out.
pub data Call : Type 0 where
  read_snapshot : Call
  settings_update : Bool → Bool → Fields → Call
  combo_create : Bool → String → String → ComboRow → Call
  combo_update :
      Bool → String → String → String → String → List String → Option AttemptPolicy → Call
  combo_delete : Bool → String → Call
  model_create : Bool → String → ModelRow → Call
  model_update : Bool → String → String → ModelRow → Call
  model_save : Bool → Bool → String → ModelRow → Call
  model_delete : Bool → String → Call
  connection_create : Bool → Bool → String → String → ProviderConnection → Call
  connection_update : Bool → Bool → String → String → Fields → Call
  connection_delete : Bool → String → Call
  models_disable : Bool → Bool → String → List String → Call
  models_enable : Bool → Bool → String → List String → Call
  models_allow : Bool → String → List String → Call
  model_think : Bool → Bool → String → String → Bool → Call
  custom_add : Bool → Bool → StoredCustomModel → Call
  custom_delete : Bool → String → String → String → Call
  price_set : Bool → String → String → ModelRate → Call
  price_delete : Bool → Bool → String → String → Call
  node_create : Bool → Bool → String → ProviderNode → Call
  node_delete : Bool → Bool → String → Call
  proxy_create : Bool → String → String → ProxyRoute → Call
  proxy_update : Bool → Bool → String → String → Fields → Call
  proxy_delete : Bool → String → Call
  bundle_import : Importer → ConfigBundle → Call

module _ (ops : TextOps) (before : Collation) where
  unfoldable pub step : Call → Store → Store
  step read_snapshot s = (get_routing_snapshot before all_answered s).1
  step (settings_update asks runs updates) s = (update_settings asks runs updates s).0
  step (combo_create runs fresh now r) s = (create_combo runs fresh now r s).0
  step (combo_update runs now id name kind models policy) s =
      (update_combo runs now id name kind models policy s).0
  step (combo_delete runs id) s = (delete_combo runs id s).0
  step (model_create runs now cfg) s = (create_model_config runs now cfg s).0
  step (model_update runs now id cfg) s = (update_model_config runs now id cfg s).0
  step (model_save asks runs now cfg) s = (save_model_config asks runs now cfg s).0
  step (model_delete runs id) s = (delete_model_config runs id s).0
  step (connection_create asks runs fresh now c) s = (create_connection asks runs fresh now c s).0
  step (connection_update asks runs now id updates) s =
      (update_connection asks runs now id updates s).0
  step (connection_delete runs id) s = (delete_connection runs id s).0
  step (models_disable asks runs provider ids) s = (disable_models asks runs provider ids s).0
  step (models_enable asks runs provider ids) s = (enable_models asks runs provider ids s).0
  step (models_allow runs provider ids) s = (set_enabled_models runs provider ids s).0
  step (model_think asks runs provider model on) s =
      (set_thinking_model asks runs provider model on s).0
  step (custom_add asks runs c) s = (add_custom_model asks runs c s).0
  step (custom_delete runs alias id model_type) s =
      (delete_custom_model runs alias id model_type s).0
  step (price_set runs provider model rate) s =
      (set_pricing_override ops runs provider model rate s).0
  step (price_delete runs again provider model) s =
      (delete_pricing_override ops runs again provider model s).0
  step (node_create asks runs now n) s = (create_provider_node asks runs now n s).0
  step (node_delete runs again id) s = (delete_provider_node runs again id s).0
  step (proxy_create runs fresh now p) s = (create_proxy_route runs fresh now p s).0
  step (proxy_update asks runs now id updates) s = (update_proxy_route asks runs now id updates s).0
  step (proxy_delete runs id) s = (delete_proxy_route runs id s).0
  step (bundle_import i b) s = (config_import i b s).0

  unfoldable pub run : List Call → Store → Store
  unfolding step
  run [] s = s
  run (c ∷ calls) s = run calls (step c s)
