-- ===== src/Database/Bundle.antt =====
-- pkg/gateway/config_api.go: the export of the whole configuration and its import. The engine answers
-- the queries of an export. `accepts` says for which records of an import it carries out the statement,
-- by their ids.
use my_ai_router.Common.{ℕ, ◌+◌, Bool, Option, none, some, List, [], ◌∷◌, String, map}
use my_ai_router.Database.{
  ComboRow, ModelRow, ProviderConnection, StoredCustomModel, ProviderNode, ProxyRoute, Store, Fault,
  Collation, invalidate, all_answered,
}
use my_ai_router.Database.Reading.{list_models, list_connections, read_policy, get_routing_snapshot}
use my_ai_router.Database.Table.{order_by}
use my_ai_router.Database.Combos.{upsert_combo, combo_name}
use my_ai_router.Database.Models.{update_model_config}
use my_ai_router.Database.Connections.{upsert_connection}
use my_ai_router.Database.Customs.{upsert_custom_model, key_of}
use my_ai_router.Database.Nodes.{node_id, upsert_provider_node, upsert_proxy_route}

pub record ConfigBundle : Type 0 where
  pub providers : List ProviderConnection
  pub nodes : List ProviderNode
  pub combos : List ComboRow
  pub models : List ModelRow
  pub custom : List StoredCustomModel
  pub proxies : List ProxyRoute

abbrev read_row : ComboRow → ComboRow
read_row r = record r { policy = read_policy r.policy }

abbrev by_id : {A : Type 0} → (A → String) → Collation → A → A → Bool
by_id id before a b = before (id a) (id b)

-- The records of `HandleConfigExport`. Custom models come from the snapshot, the others from the
-- tables. The settings that it adds to the file are read by no import.
unfoldable pub config_export : Collation → Store → ConfigBundle × Store
unfolding order_by list_models list_connections get_routing_snapshot read_policy
config_export before s =
    let (built, after) = get_routing_snapshot before all_answered s in
    (
      record {
        providers = list_connections before s.tables;
        nodes = order_by (by_id node_id before) s.tables.nodes;
        combos = map read_row (order_by (by_id combo_name before) s.tables.combos);
        models = list_models before s.tables;
        custom = built.custom_models;
        proxies = order_by (by_id (λ p. p.created_at) before) s.tables.proxies;
      },
      after,
    )

-- How many records of each kind an import has restored.
pub record Restored : Type 0 where
  pub providers : ℕ
  pub nodes : ℕ
  pub combos : ℕ
  pub model_configs : ℕ
  pub custom_models : ℕ
  pub proxy_routes : ℕ

abbrev pub counted : Option Fault → ℕ → ℕ
counted none n = n + 1
counted (some e) n = n

-- One loop of the import. Each record has its position, which picks the id that it is given where it
-- has none.
unfoldable pub import_each :
    {A : Type 0} → (ℕ → A → Store → Store × Option Fault) → ℕ → List A → Store → ℕ → Store × ℕ
import_each upsert at [] s n = (s, n)
import_each upsert at (r ∷ rest) s n =
    let (after, e) = upsert at r s in import_each upsert (at + 1) rest after (counted e n)

-- What an import works with: the engine, a source of ids and the time.
pub record Importer : Type 0 where
  pub accepts : String → Bool
  pub fresh : ℕ → String
  pub now : String

abbrev pub import_connection : Importer → ℕ → ProviderConnection → Store → Store × Option Fault
import_connection i at c s =
    upsert_connection (i.accepts c.id) (i.accepts c.id) (i.fresh at) i.now c s

abbrev pub import_node : Importer → ℕ → ProviderNode → Store → Store × Option Fault
import_node i at n s = upsert_provider_node (i.accepts n.id) i.now n s

abbrev pub import_combo : Importer → ℕ → ComboRow → Store → Store × Option Fault
import_combo i at r s = upsert_combo (i.accepts r.id) (i.fresh at) i.now r s

abbrev pub import_model : Importer → ℕ → ModelRow → Store → Store × Option Fault
import_model i at cfg s = update_model_config (i.accepts cfg.id) i.now cfg.id cfg s

abbrev pub import_custom : Importer → ℕ → StoredCustomModel → Store → Store × Option Fault
import_custom i at c s = upsert_custom_model (i.accepts (key_of c)) c s

abbrev pub import_proxy : Importer → ℕ → ProxyRoute → Store → Store × Option Fault
import_proxy i at p s = upsert_proxy_route (i.accepts p.id) (i.fresh at) i.now p s

-- The loops of `HandleConfigImport`, in their order.
unfoldable pub import_records : Importer → ConfigBundle → Store → Store × Restored
unfolding import_each
import_records i b s =
    let (s1, providers) = import_each (import_connection i) 0 b.providers s 0 in
    let (s2, nodes) = import_each (import_node i) 0 b.nodes s1 0 in
    let (s3, combos) = import_each (import_combo i) 0 b.combos s2 0 in
    let (s4, models) = import_each (import_model i) 0 b.models s3 0 in
    let (s5, customs) = import_each (import_custom i) 0 b.custom s4 0 in
    let (s6, proxies) = import_each (import_proxy i) 0 b.proxies s5 0 in
    (
      s6,
      record {
        providers = providers;
        nodes = nodes;
        combos = combos;
        model_configs = models;
        custom_models = customs;
        proxy_routes = proxies;
      },
    )

unfoldable pub config_import : Importer → ConfigBundle → Store → Store × Restored
unfolding import_records
config_import i b s = let (after, n) = import_records i b s in (invalidate after.tables, n)
