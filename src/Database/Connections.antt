-- ===== src/Database/Connections.antt =====
-- pkg/db/connections.go, with `connectionExists` of migrations.go and the import of upserts.go: the
-- changes of the table of connections. The column `id` is unique.
use my_ai_router.Common.{
  Bool, false, ◌&&◌, ◌||◌, not, Option, none, some, List, [], ◌∷◌, ◌++◌, String, str_eq, is_empty,
  any, if◌then◌else◌,
}
use my_ai_router.Json.{
  Fields, end, field, member, as_string, as_number, as_bool, as_object, string_at,
}
use my_ai_router.Config.{active_connections}
use my_ai_router.Config.Loaded.{merge_members}
use my_ai_router.Context.{Connection}
use my_ai_router.Database.Table.{has_row, find_row, update_row, delete_rows, upsert_row}
use my_ai_router.Database.{
  ProviderConnection, Store, Result, ok, fault, Fault, refused, no_rows, duplicate, nil_map,
  failure, invalidate, members, Collation, Queries,
}
use my_ai_router.Database.Reading.{get_routing_snapshot}

abbrev pub connection_id : ProviderConnection → String
connection_id c = c.id

abbrev pub uses_key : String → String → ProviderConnection → Bool
uses_key provider api_key c =
    str_eq c.provider provider && elim (as_string (member "apiKey" (members c.settings))) [
      | none ↦ false
      | some key ↦ str_eq key api_key
    ]

unfoldable pub connection_exists : String → String → List ProviderConnection → Bool
connection_exists provider api_key rows = any (uses_key provider api_key) rows

abbrev pub is_duplicate : ProviderConnection → List ProviderConnection → Bool
unfolding connection_exists
is_duplicate c rows =
    let api_key = string_at "apiKey" (members c.settings) in
    not (is_empty api_key) && connection_exists c.provider api_key rows

abbrev pub stamped : String → String → ProviderConnection → ProviderConnection
stamped fresh now c = record c {
  id = if is_empty c.id then fresh else c.id;
  created_at = now;
  updated_at = now;
}

unfoldable pub insert_connection :
    Bool → ProviderConnection → Store → Store × Result ProviderConnection
insert_connection runs c s =
    if runs && not (has_row connection_id c.id s.tables.connections)
    then (invalidate (record s.tables { connections = s.tables.connections ++ c ∷ [] }), ok c)
    else (s, fault refused)

-- `CreateConnection`, with a flag for the query of the duplicate test and one for the insertion. The
-- query is made only for a connection with a key.
unfoldable pub create_connection :
    Bool → Bool → String → String → ProviderConnection → Store → Store × Result ProviderConnection
unfolding insert_connection
create_connection asks runs fresh now c s =
    if not (asks || is_empty (string_at "apiKey" (members c.settings)))
    then (s, fault refused)
    else if is_duplicate c s.tables.connections
    then (s, fault duplicate)
    else insert_connection runs (stamped fresh now c) s

unfoldable pub get_connection : Bool → String → Store → Result ProviderConnection
unfolding find_row
get_connection runs id s =
    if runs
    then elim (find_row connection_id id s.tables.connections) [
      | none ↦ fault no_rows
      | some c ↦ ok c
    ]
    else fault refused

abbrev pub given : {A : Type 0} → Option A → A → A
given none old = old
given (some new) old = new

abbrev pub top_level : List String
top_level =
    "id" ∷ "provider" ∷ "authType" ∷ "name" ∷ "email" ∷ "priority" ∷ "isActive" ∷ "data"
    ∷ "createdAt" ∷ "updatedAt" ∷ []

unfoldable pub custom_members : Fields → Fields
custom_members end = end
custom_members (field k v rest) =
    let later = custom_members rest in if any (str_eq k) top_level then later else field k v later

-- The members that an update writes into the data: those of its own `data`, or else those that are
-- no columns.
unfoldable pub data_update : Fields → Fields
unfolding custom_members
data_update updates = elim (as_object (member "data" updates)) [
  | some custom ↦ custom
  | none ↦ custom_members updates
]

-- Writing into a nil map panics, unless there is nothing to write.
unfoldable pub write_members : Fields → Option Fields → Result (Option Fields)
unfolding merge_members
write_members end none = ok none
write_members (field k v rest) none = fault nil_map
write_members updates (some m) = ok (some (merge_members updates m))

-- The columns that an update sets, its data aside.
unfoldable pub set_columns : String → Fields → ProviderConnection → ProviderConnection
set_columns now updates c = record c {
  name = given (as_string (member "name" updates)) c.name;
  email = given (as_string (member "email" updates)) c.email;
  priority = given (as_number (member "priority" updates)) c.priority;
  is_active = given (as_bool (member "isActive" updates)) c.is_active;
  updated_at = now;
}

abbrev pub replaced_columns : ProviderConnection → ProviderConnection → ProviderConnection
replaced_columns new r = record r {
  name = new.name;
  email = new.email;
  priority = new.priority;
  is_active = new.is_active;
  settings = new.settings;
  updated_at = new.updated_at;
}

-- The UPDATE statement, and what follows it.
unfoldable pub store_connection :
    Bool → ProviderConnection → Store → Store × Result ProviderConnection
unfolding update_row
store_connection runs new s =
    if runs
    then (
      invalidate (record s.tables {
        connections = update_row connection_id new.id (replaced_columns new) s.tables.connections;
      }),
      ok new,
    )
    else (s, fault refused)

unfoldable pub update_found :
    Bool → String → Fields → Store → Result ProviderConnection → Store × Result ProviderConnection
unfolding set_columns data_update write_members store_connection
update_found runs now updates s (fault e) = (s, fault e)
update_found runs now updates s (ok c) = elim (write_members (data_update updates) c.settings) [
  | fault e ↦ (s, fault e)
  | ok written ↦ store_connection runs (record (set_columns now updates c) { settings = written }) s
]

-- `UpdateConnection`, with a flag for its query and one for its statement.
unfoldable pub update_connection :
    Bool → Bool → String → String → Fields → Store → Store × Result ProviderConnection
unfolding get_connection update_found
update_connection asks runs now id updates s =
    update_found runs now updates s (get_connection asks id s)

-- `DELETE FROM providerConnections WHERE id = ? OR provider = ?`
unfoldable pub delete_connection : Bool → String → Store → Store × Option Fault
unfolding delete_rows
delete_connection runs id s =
    if runs
    then (
      invalidate (record s.tables {
        connections =
            delete_rows (λ c. str_eq c.id id || str_eq c.provider id) s.tables.connections;
      }),
      none,
    )
    else (invalidate s.tables, some refused)

abbrev pub merge_connection : ProviderConnection → ProviderConnection → ProviderConnection
merge_connection old new = record new { id = old.id; created_at = old.created_at }

-- `UpsertConnection` leaves the snapshot as it is, unless the connection has no id.
unfoldable pub upsert_connection :
    Bool → Bool → String → String → ProviderConnection → Store → Store × Option Fault
unfolding create_connection upsert_row
upsert_connection asks runs fresh now c s =
    if is_empty c.id
    then (let (after, made) = create_connection asks runs fresh now c s in (after, failure made))
    else if runs
    then (
      record s {
        tables = record s.tables {
          connections =
              upsert_row connection_id merge_connection (record c { updated_at = now })
                s.tables.connections;
        };
      },
      none,
    )
    else (s, some refused)

-- `GetActiveConnectionsForProvider`
unfoldable pub get_active_connections_for_provider :
    Collation → Queries → String → Store → List Connection × Store
unfolding get_routing_snapshot active_connections
get_active_connections_for_provider before q provider s =
    let (built, after) = get_routing_snapshot before q s in
    (active_connections built.config provider, after)
