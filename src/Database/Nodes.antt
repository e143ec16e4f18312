-- ===== src/Database/Nodes.antt =====
-- pkg/db/nodes.go and the rows of pkg/db/proxy.go, with their imports in upserts.go: the providers
-- that an operator has defined, and the outbound proxies.
use my_ai_router.Common.{
  Bool, ◌&&◌, not, Option, none, some, List, [], ◌∷◌, ◌++◌, String, str_eq, is_empty, ◌==◌, lit,
  num, Message, if◌then◌else◌,
}
use my_ai_router.Json.{Fields, member, as_string, as_number, as_bool, string_at}
use my_ai_router.Database.Table.{has_row, find_row, update_row, delete_rows, upsert_row}
use my_ai_router.Database.{
  ProviderNode, ProxyRoute, ProviderConnection, Store, Result, ok, fault, Fault, refused, no_rows,
  duplicate, failure, members,
}
use my_ai_router.Database.Connections.{given}

abbrev pub node_id : ProviderNode → String
node_id n = n.id

abbrev pub with_nodes : List ProviderNode → Store → Store
with_nodes rows s = record s { tables = record s.tables { nodes = rows } }

-- `CreateProviderNode`, with a flag for its query and one for the insertion.
unfoldable pub create_provider_node :
    Bool → Bool → String → ProviderNode → Store → Store × Result ProviderNode
unfolding has_row
create_provider_node asks runs now n s =
    let made = record n { created_at = now; updated_at = now } in
    if not asks
    then (s, fault refused)
    else if has_row node_id n.id s.tables.nodes
    then (s, fault duplicate)
    else if runs
    then (with_nodes (s.tables.nodes ++ made ∷ []) s, ok made)
    else (s, fault refused)

abbrev pub drop_connections : Bool → String → List ProviderConnection → List ProviderConnection
drop_connections runs id rows = if runs then delete_rows (λ c. str_eq c.provider id) rows else rows

-- `DeleteProviderNode`, with a flag for each of its two statements. The snapshot stays as it is.
unfoldable pub delete_provider_node : Bool → Bool → String → Store → Store × Option Fault
unfolding delete_rows
delete_provider_node runs again id s =
    if runs
    then (
      record s {
        tables = record s.tables {
          nodes = delete_rows (λ n. str_eq n.id id) s.tables.nodes;
          connections = drop_connections again id s.tables.connections;
        };
      },
      none,
    )
    else (s, some refused)

abbrev pub merge_node : ProviderNode → ProviderNode → ProviderNode
merge_node old new = record new { id = old.id; created_at = old.created_at }

unfoldable pub upsert_provider_node : Bool → String → ProviderNode → Store → Store × Option Fault
unfolding upsert_row
upsert_provider_node runs now n s =
    if runs
    then (
      with_nodes (upsert_row node_id merge_node (record n { updated_at = now }) s.tables.nodes) s,
      none,
    )
    else (s, some refused)

-- `ProxyURL`
unfoldable pub proxy_url : Option ProxyRoute → Message
proxy_url none = []
proxy_url (some p) =
    if is_empty p.host
    then []
    else if p.port == 0
    then []
    else if is_empty p.username
    then lit p.scheme ∷ lit "://" ∷ lit p.host ∷ lit ":" ∷ num p.port ∷ []
    else lit p.scheme
      ∷ lit "://"
      ∷ lit p.username
      ∷ lit ":"
      ∷ lit p.password
      ∷ lit "@"
      ∷ lit p.host
      ∷ lit ":"
      ∷ num p.port
      ∷ []

abbrev pub proxy_id : ProxyRoute → String
proxy_id p = p.id

abbrev pub with_proxies : List ProxyRoute → Store → Store
with_proxies rows s = record s { tables = record s.tables { proxies = rows } }

unfoldable pub get_proxy_route : Bool → String → Store → Result ProxyRoute
unfolding find_row
get_proxy_route runs id s =
    if runs
    then elim (find_row proxy_id id s.tables.proxies) [ none ↦ fault no_rows | some p ↦ ok p ]
    else fault refused

abbrev pub made_route : String → String → ProxyRoute → ProxyRoute
made_route fresh now p = record p {
  id = if is_empty p.id then fresh else p.id;
  scheme = if is_empty p.scheme then "http" else p.scheme;
  created_at = now;
  updated_at = now;
}

-- `CreateProxyRoute`, with the id that the clock gives where the route has none.
unfoldable pub create_proxy_route :
    Bool → String → String → ProxyRoute → Store → Store × Result ProxyRoute
unfolding has_row
create_proxy_route runs fresh now p s =
    let made = made_route fresh now p in
    if runs && not (has_row proxy_id made.id s.tables.proxies)
    then (with_proxies (s.tables.proxies ++ made ∷ []) s, ok made)
    else (s, fault refused)

-- An empty text keeps the old one.
abbrev pub given_text : Option String → String → String
given_text none old = old
given_text (some new) old = if is_empty new then old else new

unfoldable pub set_proxy : String → Fields → ProxyRoute → ProxyRoute
set_proxy now updates p = record p {
  name = given (as_string (member "name" updates)) p.name;
  scheme = given_text (as_string (member "scheme" updates)) p.scheme;
  host = given (as_string (member "host" updates)) p.host;
  port = given (as_number (member "port" updates)) p.port;
  username = given (as_string (member "username" updates)) p.username;
  password = given_text (as_string (member "password" updates)) p.password;
  is_enabled = given (as_bool (member "isEnabled" updates)) p.is_enabled;
  updated_at = now;
}

abbrev pub replaced_route : ProxyRoute → ProxyRoute → ProxyRoute
replaced_route new old = record new { id = old.id; created_at = old.created_at }

unfoldable pub update_proxy_route :
    Bool → Bool → String → String → Fields → Store → Store × Result ProxyRoute
unfolding get_proxy_route set_proxy update_row
update_proxy_route asks runs now id updates s = elim (get_proxy_route asks id s) [
  | fault e ↦ (s, fault e)
  | ok current ↦
      let new = set_proxy now updates current in
      if runs
      then (with_proxies (update_row proxy_id id (replaced_route new) s.tables.proxies) s, ok new)
      else (s, fault refused)
]

unfoldable pub delete_proxy_route : Bool → String → Store → Store × Option Fault
unfolding delete_rows
delete_proxy_route runs id s =
    if runs
    then (with_proxies (delete_rows (λ p. str_eq p.id id) s.tables.proxies) s, none)
    else (s, some refused)

unfoldable pub upsert_proxy_route :
    Bool → String → String → ProxyRoute → Store → Store × Option Fault
unfolding create_proxy_route upsert_row
upsert_proxy_route runs fresh now p s =
    if is_empty p.id
    then (let (after, made) = create_proxy_route runs fresh now p s in (after, failure made))
    else if runs
    then (
      with_proxies
          (upsert_row proxy_id (λ old new. replaced_route new old) (record p { updated_at = now })
            s.tables.proxies)
          s,
      none,
    )
    else (s, some refused)

-- `ProxyRouteForConnection`
unfoldable pub proxy_route_for_connection :
    Bool → Option ProviderConnection → Store → Option (Result ProxyRoute)
unfolding get_proxy_route
proxy_route_for_connection runs none s = none
proxy_route_for_connection runs (some c) s =
    let id = string_at "proxyRouteId" (members c.settings) in
    if is_empty id then none else some (get_proxy_route runs id s)
