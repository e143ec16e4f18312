-- ===== src/Database/ApiKeys.antt =====
-- pkg/db/apikeys.go: the changes of the table of API keys. The columns `id` and `key` are unique.
use my_ai_router.Common.{
  ◌≡◌, refl, Bool, true, false, ◌&&◌, ◌||◌, not, Option, none, some, List, [], ◌∷◌, ◌++◌, String,
  str_eq, eq_iff, arith, if◌then◌else◌,
}
use my_ai_router.Access.{ApiKey, ApiKeyScope}
use my_ai_router.Database.{Result, ok, fault, refused, Collation}
use my_ai_router.Database.Table.{find_row, has_row, update_row, delete_rows, order_by, IsKeyed}

pub record KeyRow : Type 0 where
  pub id : String
  pub key : String
  pub name : String
  pub machine_id : String
  pub is_active : Bool
  pub scope : ApiKeyScope
  pub created_at : String

abbrev pub key_id : KeyRow → String
key_id r = r.id

abbrev pub key_value : KeyRow → String
key_value r = r.key

abbrev pub no_scope : ApiKeyScope
no_scope = record { allowed_models = []; daily_token_limit = 0 }

abbrev pub new_key : String → String → String → String → KeyRow
new_key id key name now = record {
  id = id;
  key = key;
  name = name;
  machine_id = "";
  is_active = true;
  scope = no_scope;
  created_at = now;
}

-- `CreateApiKey` with the id and the key that it has drawn; `none` where no key could be drawn.
unfoldable pub create_api_key :
    Bool → String → Option String → String → String → List KeyRow → List KeyRow × Result KeyRow
unfolding has_row
create_api_key runs id none name now rows = (rows, fault refused)
create_api_key runs id (some key) name now rows =
    let r = new_key id key name now in
    if runs && not (has_row key_id id rows || has_row key_value key rows)
    then (rows ++ r ∷ [], ok r)
    else (rows, fault refused)

-- `ListApiKeys`: the newest first.
unfoldable pub list_api_keys : Collation → List KeyRow → List KeyRow
unfolding order_by
list_api_keys before rows = order_by (λ a b. before b.created_at a.created_at) rows

-- What the Auth middleware reads of a row.
abbrev pub read_key : KeyRow → ApiKey
read_key r = record { key = r.key; is_active = r.is_active; scope = r.scope }

unfoldable pub update_api_key_scope : Bool → String → ApiKeyScope → List KeyRow → List KeyRow
unfolding update_row
update_api_key_scope runs id scope rows =
    if runs then update_row key_id id (λ r. record r { scope = scope }) rows else rows

abbrev pub switched : Bool → KeyRow → KeyRow
switched active r = record r { is_active = active }

unfoldable pub toggle_api_key : Bool → String → Bool → List KeyRow → List KeyRow
unfolding update_row
toggle_api_key runs id active rows =
    if runs then update_row key_id id (switched active) rows else rows

abbrev pub has_id : String → KeyRow → Bool
has_id id r = str_eq r.id id

unfoldable pub delete_api_key : Bool → String → List KeyRow → List KeyRow
unfolding delete_rows
delete_api_key runs id rows = if runs then delete_rows (has_id id) rows else rows

abbrev pub is_on : Option KeyRow → Bool
is_on none = false
is_on (some r) = r.is_active

-- `ValidateApiKey`
unfoldable pub validate_api_key : String → List KeyRow → Bool
unfolding find_row
validate_api_key key rows = is_on (find_row key_value key rows)

-- Whether the row with the id has the key.
abbrev pub owns : String → Option KeyRow → Bool
owns key none = false
owns key (some r) = str_eq r.key key

owned_found :
    (id key : String) (rows : List KeyRow)
    → find_row key_value key rows ≡ none
    → owns key (find_row key_id id rows) ≡ false
unfolding find_row
owned_found id key [] h = refl
owned_found id key (r ∷ rest) h = ground (arith, h, owned_found id key rest)

-- Switching a key off refuses exactly its value from then on, and leaves the others as they are, where
-- ids and values are unique.
pub toggle_api_key-off :
    (id key : String) (rows : List KeyRow)
    → IsKeyed key_id rows
    → IsKeyed key_value rows
    → validate_api_key key (toggle_api_key true id false rows)
      ≡ (validate_api_key key rows && not (owns key (find_row key_id id rows)))
unfolding validate_api_key toggle_api_key find_row update_row
toggle_api_key-off id key [] i k = refl
toggle_api_key-off id key (r ∷ rest) i k = ground (
  arith,
  eq_iff r.id id,
  eq_iff r.key key,
  k.0,
  i.0,
  owned_found id key rest,
  toggle_api_key-off id key rest i.1 k.1,
)

-- Deleting a key does the same.
pub delete_api_key-refused :
    (id key : String) (rows : List KeyRow)
    → IsKeyed key_id rows
    → IsKeyed key_value rows
    → validate_api_key key (delete_api_key true id rows)
      ≡ (validate_api_key key rows && not (owns key (find_row key_id id rows)))
unfolding validate_api_key delete_api_key find_row delete_rows
delete_api_key-refused id key [] i k = refl
delete_api_key-refused id key (r ∷ rest) i k = ground (
  arith,
  eq_iff r.id id,
  eq_iff r.key key,
  k.0,
  i.0,
  owned_found id key rest,
  delete_api_key-refused id key rest i.1 k.1,
)
