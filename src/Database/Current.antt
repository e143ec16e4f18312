-- ===== src/Database/Current.antt =====
-- Cache coherence: what the snapshot holds against what the tables hold.
use my_ai_router.Common.{
  ◌≡◌, refl, sym, Bool, String, true, false, true≢false, Option, none, some, List, [], ◌∷◌, TextOps,
  arith, Option-cases, inl, inr, All, str_eq,
}
use my_ai_router.Json.{Fields}
use my_ai_router.Config.Stored.{StoredSettings}
use my_ai_router.Database.Table.{delete_rows}
use my_ai_router.Database.{Store, Tables, RoutingSnapshot, Collation, all_answered, invalidate}
use my_ai_router.Database.Reading.{get_routing_snapshot, build_routing_snapshot}
use my_ai_router.Database.Combos.{create_combo, delete_combo, update_combo, insert_combo}
use my_ai_router.Database.Models.{
  create_model_config, update_model_config, save_model_config, delete_model_config,
  get_model_config,
}
use my_ai_router.Database.Connections.{
  create_connection, insert_connection, update_connection, update_found, store_connection,
  delete_connection,
}
use my_ai_router.Database.ModelLists.{
  disable_models, enable_models, set_enabled_models, set_thinking_model,
}
use my_ai_router.Database.Customs.{add_custom_model, delete_custom_model}
use my_ai_router.Database.Pricing.{set_pricing_override, delete_pricing_override}
use my_ai_router.Database.Nodes.{
  create_provider_node, delete_provider_node, create_proxy_route, update_proxy_route,
  delete_proxy_route,
}
use my_ai_router.Database.SettingsRow.{update_settings, store_settings, get_settings}
use my_ai_router.Database.Bundle.{config_import}
use my_ai_router.Database.Calls.{
  Call, step, run, read_snapshot, settings_update, combo_create, combo_update, combo_delete,
  model_create, model_update, model_save, model_delete, connection_create, connection_update,
  connection_delete, models_disable, models_enable, models_allow, model_think, custom_add,
  custom_delete, price_set, price_delete, node_create, node_delete, proxy_create, proxy_update,
  proxy_delete, bundle_import,
}

-- An empty snapshot, or the one that a read of the tables builds.
abbrev pub Agrees : Collation → Tables → Option RoutingSnapshot → Type 0
Agrees before t none = Unit
Agrees before t (some built) = built ≡ build_routing_snapshot before all_answered t

abbrev pub IsCurrent : Collation → Store → Type 0
IsCurrent before s = Agrees before s.tables s.snapshot

-- All mutations but the deletion of a provider node.
abbrev pub is_announced : Call → Bool
is_announced (node_delete runs again id) = false
is_announced _ = true

module _ (ops : TextOps) (before : Collation) where
  read-IsCurrent :
      (t : Tables) (held : Option RoutingSnapshot)
      → Agrees before t held
      → IsCurrent before
          (get_routing_snapshot before all_answered (record { tables = t; snapshot = held })).1
  unfolding get_routing_snapshot
  read-IsCurrent t none h = refl
  read-IsCurrent t (some built) h = h

  store_settings-IsCurrent :
      (runs : Bool) (row : Fields) (merged : Option StoredSettings) (s : Store)
      → IsCurrent before s
      → IsCurrent before (store_settings runs row merged s).0
  unfolding store_settings
  store_settings-IsCurrent runs row none s h = h
  store_settings-IsCurrent true row (some merged) s h = tt
  store_settings-IsCurrent false row (some merged) s h = h

  update_settings-IsCurrent :
      (asks runs : Bool) (updates : Fields) (s : Store)
      → IsCurrent before s
      → IsCurrent before (update_settings asks runs updates s).0
  unfolding update_settings
  update_settings-IsCurrent asks runs updates s h = elim (Option-cases (get_settings asks s)) [
    | inl e ↦ rw (update_settings, e) h
    | inr (current, e) ↦ rw (update_settings, e) (store_settings-IsCurrent runs _ _ s h)
  ]

  pub step-IsCurrent :
      (c : Call) (s : Store)
      → is_announced c ≡ true
      → IsCurrent before s
      → IsCurrent before (step ops before c s)
  unfolding step create_combo insert_combo update_combo delete_combo save_model_config
      get_model_config create_model_config update_model_config delete_model_config create_connection
      insert_connection update_connection update_found store_connection delete_connection
      disable_models enable_models set_enabled_models set_thinking_model add_custom_model
      delete_custom_model set_pricing_override delete_pricing_override create_provider_node
      create_proxy_route update_proxy_route delete_proxy_route update_settings store_settings
      config_import get_routing_snapshot build_routing_snapshot
  step-IsCurrent read_snapshot s a h = read-IsCurrent s.tables s.snapshot h
  step-IsCurrent (settings_update asks runs updates) s a h =
      update_settings-IsCurrent asks runs updates s h
  step-IsCurrent (combo_create runs fresh now r) s a h = ground arith
  step-IsCurrent (combo_update runs now id name kind models policy) s a h = ground arith
  step-IsCurrent (combo_delete runs id) s a h = ground arith
  step-IsCurrent (model_create runs now cfg) s a h = ground arith
  step-IsCurrent (model_update runs now id cfg) s a h = ground arith
  step-IsCurrent (model_save asks runs now cfg) s a h = ground arith
  step-IsCurrent (model_delete runs id) s a h = ground arith
  step-IsCurrent (connection_create asks runs fresh now c) s a h = ground arith
  step-IsCurrent (connection_update asks runs now id updates) s a h = ground arith
  step-IsCurrent (connection_delete runs id) s a h = ground arith
  step-IsCurrent (models_disable asks runs provider ids) s a h = ground arith
  step-IsCurrent (models_enable asks runs provider ids) s a h = ground arith
  step-IsCurrent (models_allow runs provider ids) s a h = ground arith
  step-IsCurrent (model_think asks runs provider model on) s a h = ground arith
  step-IsCurrent (custom_add asks runs c) s a h = ground arith
  step-IsCurrent (custom_delete runs alias id model_type) s a h = ground arith
  step-IsCurrent (price_set runs provider model rate) s a h = ground arith
  step-IsCurrent (price_delete runs again provider model) s a h = ground arith
  step-IsCurrent (node_create asks runs now n) s a h = ground arith
  step-IsCurrent (node_delete runs again id) s a h = elim (true≢false (sym a)) [ ]
  step-IsCurrent (proxy_create runs fresh now p) s a h = ground arith
  step-IsCurrent (proxy_update asks runs now id updates) s a h = ground arith
  step-IsCurrent (proxy_delete runs id) s a h = ground arith
  step-IsCurrent (bundle_import i b) s a h = tt

  run-IsCurrent :
      (calls : List Call) (s : Store)
      → All (λ c. is_announced c ≡ true) calls
      → IsCurrent before s
      → IsCurrent before (run ops before calls s)
  unfolding run
  run-IsCurrent [] s a h = h
  run-IsCurrent (c ∷ calls) s a h =
      run-IsCurrent calls (step ops before c s) a.1 (step-IsCurrent c s a.0 h)

  read-current :
      (t : Tables) (held : Option RoutingSnapshot)
      → Agrees before t held
      → (get_routing_snapshot before all_answered (record { tables = t; snapshot = held })).0
        ≡ build_routing_snapshot before all_answered t
  unfolding get_routing_snapshot
  read-current t none h = refl
  read-current t (some built) h = h

  -- A process that starts with the tables `t` and makes any mutations but the deletion of a provider
  -- node, whichever of their statements fail, reads from the snapshot what a read of the tables as
  -- they are then would build, where the queries of each read are answered.
  pub get_routing_snapshot-run :
      (t : Tables) (calls : List Call)
      → All (λ c. is_announced c ≡ true) calls
      → (get_routing_snapshot before all_answered (run ops before calls (invalidate t))).0
        ≡ build_routing_snapshot before all_answered (run ops before calls (invalidate t)).tables
  get_routing_snapshot-run t calls a =
      let s = run ops before calls (invalidate t) in
      read-current s.tables s.snapshot (run-IsCurrent calls (invalidate t) a tt)

delete_rows-All :
    {A : Type 0} (test : A → Bool) (rows : List A)
    → All (λ r. test r ≡ false) (delete_rows test rows)
unfolding delete_rows
delete_rows-All test [] = tt
delete_rows-All test (r ∷ rest) = ground (arith, delete_rows-All test rest)

-- When a request has filled the snapshot, it still offers after the deletion of a provider node what
-- it offered before, although no connection of that provider is left in the table.
pub delete_provider_node-lingers :
    (before : Collation) (id : String) (s : Store)
    → let filled = (get_routing_snapshot before all_answered s).1 in
      let after = (delete_provider_node true true id filled).0 in
      ((get_routing_snapshot before all_answered after).0
        ≡ (get_routing_snapshot before all_answered s).0)
      × All (λ c. str_eq c.provider id ≡ false) after.tables.connections
unfolding delete_provider_node get_routing_snapshot
delete_provider_node-lingers before id s = elim (Option-cases s.snapshot) [
  | inl e ↦ rw e (refl, delete_rows-All (λ c. str_eq c.provider id) s.tables.connections)
  | inr (built, e) ↦ rw e (refl, delete_rows-All (λ c. str_eq c.provider id) s.tables.connections)
]
