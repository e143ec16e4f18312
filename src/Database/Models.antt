-- ===== src/Database/Models.antt =====
-- pkg/db/models.go: the changes of the table of model policies. The column `id` is unique.
use my_ai_router.Common.{
  Bool, ◌&&◌, not, Option, none, some, [], ◌∷◌, ◌++◌, String, str_eq, if◌then◌else◌,
}
use my_ai_router.Config.{ModelConfig, model_config}
use my_ai_router.Database.Table.{has_row, find_row, update_row, delete_rows}
use my_ai_router.Database.{
  ModelRow, Store, Result, ok, fault, Fault, refused, no_rows, invalidate, Collation, Queries,
}
use my_ai_router.Database.Reading.{scan_model, get_routing_snapshot}

abbrev pub model_id : ModelRow → String
model_id r = r.id

abbrev pub stamped_model : String → ModelRow → ModelRow
stamped_model now cfg = record cfg { created_at = now; updated_at = now }

-- `CreateModelConfig`; the second result is the caller's struct, which the code changes in place.
unfoldable pub create_model_config : Bool → String → ModelRow → Store → Store × Option Fault
create_model_config runs now cfg s =
    if runs && not (has_row model_id cfg.id s.tables.models)
    then (
      invalidate (record s.tables { models = s.tables.models ++ stamped_model now cfg ∷ [] }),
      none,
    )
    else (s, some refused)

-- `GetModelConfig`: a row as it is scanned, or why there is none.
unfoldable pub get_model_config : Bool → String → Store → Result ModelRow
unfolding scan_model find_row
get_model_config runs id s =
    if runs
    then elim (find_row model_id id s.tables.models) [
      | none ↦ fault no_rows
      | some r ↦ ok (scan_model r)
    ]
    else fault refused

-- `UPDATE models SET ... WHERE id = ?`: all columns but the id and the time of creation.
abbrev pub set_model : String → ModelRow → ModelRow → ModelRow
set_model now cfg r = record cfg { id = r.id; created_at = r.created_at; updated_at = now }

unfoldable pub update_model_config :
    Bool → String → String → ModelRow → Store → Store × Option Fault
unfolding update_row
update_model_config runs now id cfg s =
    if runs
    then (
      invalidate
          (record s.tables { models = update_row model_id id (set_model now cfg) s.tables.models }),
      none,
    )
    else (invalidate s.tables, some refused)

-- `SaveModelConfig`, with a flag for its query and one for the statement that changes the table.
unfoldable pub save_model_config : Bool → Bool → String → ModelRow → Store → Store × Option Fault
unfolding get_model_config create_model_config update_model_config
save_model_config asks runs now cfg s = elim (get_model_config asks cfg.id s) [
  | ok existing ↦
      update_model_config runs now cfg.id (record cfg { created_at = existing.created_at }) s
  | fault no_rows ↦ create_model_config runs now cfg s
  | fault e ↦ (s, some e)
]

unfoldable pub delete_model_config : Bool → String → Store → Store × Option Fault
unfolding delete_rows
delete_model_config runs id s =
    if runs
    then (
      invalidate (record s.tables { models = delete_rows (λ r. str_eq r.id id) s.tables.models }),
      none,
    )
    else (invalidate s.tables, some refused)

-- `GetModelConfigOrDefault`
unfoldable pub get_model_config_or_default :
    Collation → Queries → String → Store → ModelConfig × Store
unfolding get_routing_snapshot model_config
get_model_config_or_default before q id s =
    let (built, after) = get_routing_snapshot before q s in (model_config built.config id, after)
