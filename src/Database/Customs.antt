-- ===== src/Database/Customs.antt =====
-- pkg/db/custom_models.go, with the import of upserts.go: the models that an operator has added to
-- a provider. Rows stand under alias, id and type.
use my_ai_router.Common.{
  Bool, true, false, Option, none, some, List, String, str_eq, append, Dict, get, put, delete,
  keep_if, if◌then◌else◌,
}
use my_ai_router.Config.{CustomModel}
use my_ai_router.Database.{
  StoredCustomModel, Store, Result, ok, fault, Fault, refused, invalidate, Collation, Queries,
}
use my_ai_router.Database.Reading.{get_routing_snapshot}

abbrev pub custom_key : String → String → String → String
custom_key alias id model_type = append alias (append "|" (append id (append "|" model_type)))

abbrev pub key_of : StoredCustomModel → String
key_of c = custom_key c.provider_alias c.id c.model_type

abbrev pub has_custom : String → Dict StoredCustomModel → Bool
has_custom key rows = elim (get key rows) [ none ↦ false | some c ↦ true ]

-- `AddCustomModel` with a flag for its query and one for the insertion: whether the model was added.
-- A query that fails counts as no row, and the insertion still refuses a key that is there.
unfoldable pub add_custom_model : Bool → Bool → StoredCustomModel → Store → Store × Result Bool
add_custom_model asks runs c s =
    if has_custom (key_of c) s.tables.custom_models
    then (if asks then (s, ok false) else (s, fault refused))
    else if runs
    then (
      invalidate (record s.tables { custom_models = put (key_of c) c s.tables.custom_models }),
      ok true,
    )
    else (s, fault refused)

unfoldable pub delete_custom_model : Bool → String → String → String → Store → Store × Option Fault
delete_custom_model runs alias id model_type s =
    if runs
    then (
      invalidate (record s.tables {
        custom_models = delete (custom_key alias id model_type) s.tables.custom_models;
      }),
      none,
    )
    else (invalidate s.tables, some refused)

-- `UpsertCustomModel` leaves the snapshot as it is.
unfoldable pub upsert_custom_model : Bool → StoredCustomModel → Store → Store × Option Fault
upsert_custom_model runs c s =
    if runs
    then (
      record s {
        tables = record s.tables { custom_models = put (key_of c) c s.tables.custom_models };
      },
      none,
    )
    else (s, some refused)

-- `GetCustomModelsByProvider`
unfoldable pub get_custom_models_by_provider :
    Collation → Queries → String → Store → List CustomModel × Store
unfolding get_routing_snapshot
get_custom_models_by_provider before q alias s =
    let (built, after) = get_routing_snapshot before q s in
    (keep_if (λ c. str_eq c.provider_alias alias) built.config.custom_models, after)
