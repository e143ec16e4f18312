-- ===== src/Database/ModelLists.antt =====
-- pkg/db/disabled.go: the models that are disabled, allowed or set to think, by provider. The order
-- in which Go runs through a map is that of the first writes here.
use my_ai_router.Common.{
  Bool, Option, none, some, List, [], ◌∷◌, ◌++◌, String, str_eq, any, Dict, get, put, delete,
  TextOps, if◌then◌else◌,
}
use my_ai_router.Database.{Tables, Store, Fault, refused, invalidate, Collation, Queries}
use my_ai_router.Database.Reading.{get_routing_snapshot}

abbrev pub contains_id : String → List String → Bool
contains_id id ids = any (str_eq id) ids

abbrev pub stored_ids : Option (List String) → List String
stored_ids none = []
stored_ids (some ids) = ids

-- `GetDisabledModels`; a query that fails counts as no row.
unfoldable pub get_disabled_models : Bool → String → Store → List String
get_disabled_models asks provider s =
    if asks then stored_ids (get provider s.tables.disabled_models) else []

-- `uniqueMap[id] = true` for each id.
unfoldable pub add_unique : List String → List String → List String
add_unique unique [] = unique
add_unique unique (id ∷ rest) =
    if contains_id id unique then add_unique unique rest else add_unique (unique ++ id ∷ []) rest

abbrev pub with_disabled : Dict (List String) → Tables → Tables
with_disabled rows t = record t { disabled_models = rows }

unfoldable pub disable_models : Bool → Bool → String → List String → Store → Store × Option Fault
unfolding get_disabled_models add_unique
disable_models asks runs provider ids s =
    let merged = add_unique (add_unique [] (get_disabled_models asks provider s)) ids in
    if runs
    then (invalidate (with_disabled (put provider merged s.tables.disabled_models) s.tables), none)
    else (invalidate s.tables, some refused)

unfoldable pub remaining : List String → List String → List String
remaining removed [] = []
remaining removed (id ∷ rest) =
    let later = remaining removed rest in if contains_id id removed then later else id ∷ later

-- `DELETE FROM kv WHERE scope = ? AND key = ?`, after which the snapshot stays as it is.
abbrev pub clear_disabled : Bool → String → Store → Store × Option Fault
clear_disabled runs provider s =
    if runs
    then (
      record s { tables = with_disabled (delete provider s.tables.disabled_models) s.tables },
      none,
    )
    else (s, some refused)

abbrev pub write_remaining : Bool → String → List String → Store → Store × Option Fault
write_remaining runs provider [] s = clear_disabled runs provider s
write_remaining runs provider (id ∷ rest) s =
    if runs
    then (
      invalidate (with_disabled (put provider (id ∷ rest) s.tables.disabled_models) s.tables),
      none,
    )
    else (invalidate s.tables, some refused)

unfoldable pub enable_models : Bool → Bool → String → List String → Store → Store × Option Fault
unfolding get_disabled_models remaining
enable_models asks runs provider [] s = clear_disabled runs provider s
enable_models asks runs provider (id ∷ rest) s =
    write_remaining runs provider (remaining (id ∷ rest) (get_disabled_models asks provider s)) s

-- `GetEnabledModels`: from the snapshot, under the provider's name in lower case and trimmed; no
-- list allows all models.
unfoldable pub get_enabled_models :
    TextOps → Collation → Queries → String → Store → Option (List String) × Store
unfolding get_routing_snapshot
get_enabled_models ops before q provider s =
    let (built, after) = get_routing_snapshot before q s in
    (get (ops.to_lower (ops.trim_space provider)) built.enabled_models, after)

-- `SetEnabledModels`: the row stands under the name as it is given.
unfoldable pub set_enabled_models : Bool → String → List String → Store → Store × Option Fault
set_enabled_models runs provider ids s =
    if runs
    then (
      invalidate (record s.tables { enabled_models = put provider ids s.tables.enabled_models }),
      none,
    )
    else (invalidate s.tables, some refused)

abbrev pub stored_flags : Option (Dict Bool) → Dict Bool
stored_flags none = []
stored_flags (some flags) = flags

unfoldable pub get_thinking_models : Bool → String → Store → Dict Bool
get_thinking_models asks provider s =
    if asks then stored_flags (get provider s.tables.thinking_models) else []

-- `SetThinkingModel`, after which the snapshot stays as it is.
unfoldable pub set_thinking_model :
    Bool → Bool → String → String → Bool → Store → Store × Option Fault
unfolding get_thinking_models
set_thinking_model asks runs provider model enabled s =
    let flags = put model enabled (get_thinking_models asks provider s) in
    if runs
    then (
      record s {
        tables = record s.tables { thinking_models = put provider flags s.tables.thinking_models };
      },
      none,
    )
    else (s, some refused)
