-- ===== src/Database/SettingsRow.antt =====
-- `GetSettings`, `UpdateSettings` and `maxRetainedTraces` of pkg/db/settings.go.
use my_ai_router.Common.{ℕ, Bool, Option, none, some, ◌==◌, if◌then◌else◌}
use my_ai_router.Json.{Fields}
use my_ai_router.Config.Stored.{StoredSettings, encode_settings, decode_settings}
use my_ai_router.Config.Loaded.{load_settings, merge_members}
use my_ai_router.Database.{Store, RoutingSnapshot, Result, ok, fault, refused, invalidate}

unfoldable pub cached_settings : Option RoutingSnapshot → Option StoredSettings
cached_settings none = none
cached_settings (some built) = built.settings

-- `GetSettings`: those of the snapshot, or else the row.
unfoldable pub get_settings : Bool → Store → Option StoredSettings
unfolding cached_settings load_settings
get_settings asks s = elim (cached_settings s.snapshot) [
  | some current ↦ some current
  | none ↦ if asks then load_settings s.tables.settings else none
]

-- `maxRetainedTraces`
unfoldable pub max_retained_traces : Bool → Store → ℕ
unfolding get_settings
max_retained_traces asks s = elim (get_settings asks s) [
  | none ↦ 500
  | some current ↦ if current.max_trace_records == 0 then 500 else current.max_trace_records
]

-- `UPDATE settings SET data = ? WHERE id = 1`
abbrev pub replaced_row : Fields → Option Fields → Option Fields
replaced_row new none = none
replaced_row new (some old) = some new

unfoldable pub store_settings :
    Bool → Fields → Option StoredSettings → Store → Store × Result StoredSettings
store_settings runs row none s = (s, fault refused)
store_settings runs row (some merged) s =
    if runs
    then (invalidate (record s.tables { settings = replaced_row row s.tables.settings }), ok merged)
    else (s, fault refused)

-- `UpdateSettings`: the update's members over those of the current settings, if the result decodes.
unfoldable pub update_settings : Bool → Bool → Fields → Store → Store × Result StoredSettings
unfolding get_settings encode_settings decode_settings merge_members store_settings
update_settings asks runs updates s = elim (get_settings asks s) [
  | none ↦ (s, fault refused)
  | some current ↦
      let row = merge_members updates (encode_settings current) in
      store_settings runs row (decode_settings row) s
]
