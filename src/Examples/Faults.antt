-- ===== src/Examples/Faults.antt =====
-- Runs in which the database or its snapshot goes wrong.
use my_ai_router.Common.{◌≡◌, refl, true, false, none, [], ◌∷◌, get, put}
use my_ai_router.Json.{end, field, string, member, as_object}
use my_ai_router.Config.{active_connections}
use my_ai_router.Database.{Store, invalidate, all_answered, fault, nil_map}
use my_ai_router.Database.Reading.{get_routing_snapshot, build_routing_snapshot, list_connections}
use my_ai_router.Database.Table.{
  find_row, has_row, update_row, delete_rows, order_by, insert_ordered,
}
use my_ai_router.Database.Models.{update_model_config}
use my_ai_router.Database.Nodes.{delete_provider_node}
use my_ai_router.Database.Bundle.{config_import, import_records, import_each}
use my_ai_router.Database.Connections.{
  upsert_connection, update_connection, get_connection, update_found, write_members, data_update,
  custom_members,
}
use my_ai_router.Database.ModelLists.{get_enabled_models, set_enabled_models}
use my_ai_router.Database.Combos.{upsert_combo}
use my_ai_router.Database.Pricing.{
  set_pricing_override, get_pricing_override, pricing_override, keys_to_try, first_rate, last_slash,
  slash_before, split_model, pricing_key,
}
use my_ai_router.Examples.{plain_text}
use my_ai_router.Examples.Admin.{by_length, small_tables, importer, policy_bundle, served_tables}

-- The bundle's model policy is counted as restored, and the table has none.
import_skips_policy :
    ((config_import importer policy_bundle (invalidate served_tables)).1.model_configs ≡ 1)
    × ((config_import importer policy_bundle (invalidate served_tables)).0.tables.models ≡ [])
unfolding config_import import_records import_each update_model_config update_row upsert_combo
    has_row delete_rows upsert_connection
import_skips_policy = (refl, refl)

-- After the deletion of its node, requests are still offered the provider's account.
account_lingers :
    (λ (s : Store).
        active_connections (get_routing_snapshot by_length all_answered s).0.config "team")
      (delete_provider_node true true "team"
        (get_routing_snapshot by_length all_answered (invalidate small_tables)).1).0
    ≡ record { id = "a1"; provider = "team"; priority = 1; is_active = true; settings = end } ∷ []
unfolding get_routing_snapshot build_routing_snapshot list_connections order_by insert_ordered
    delete_provider_node active_connections
account_lingers = refl

-- An update of an account without settings panics.
update_panics :
    (update_connection true true "t1" "a1"
      (field "apiKey" (string "k") end)
      (invalidate small_tables)).1
    ≡ fault nil_map
unfolding update_connection get_connection update_found find_row data_update custom_members
    write_members as_object member
update_panics = refl

-- A price for a model that names its provider is not found again without the provider.
price_not_found :
    (get_pricing_override plain_text by_length all_answered "" "openai/gpt"
      (set_pricing_override plain_text true "" "openai/gpt"
        (record { input = "1"; output = "2"; cached = "0" })
        (invalidate small_tables)).0).0
    ≡ none
unfolding get_pricing_override set_pricing_override pricing_override keys_to_try first_rate
    last_slash slash_before split_model pricing_key get_routing_snapshot build_routing_snapshot get
    put
price_not_found = refl

-- A list of allowed models under a provider's name with capitals is not found again.
allowed_not_found :
    (get_enabled_models
      (record { to_lower = λ s. "openai"; trim_space = λ s. s })
      by_length
      all_answered
      "OpenAI"
      (set_enabled_models true "OpenAI" ("gpt" ∷ []) (invalidate small_tables)).0).0
    ≡ none
unfolding get_enabled_models set_enabled_models get_routing_snapshot build_routing_snapshot get put
allowed_not_found = refl

-- A snapshot whose query of the accounts fails is kept with no accounts.
empty_snapshot_kept :
    (get_routing_snapshot by_length all_answered
      (get_routing_snapshot by_length
        (record all_answered { connections = false })
        (invalidate small_tables)).1).0.config.connections
    ≡ []
unfolding get_routing_snapshot build_routing_snapshot
empty_snapshot_kept = refl
