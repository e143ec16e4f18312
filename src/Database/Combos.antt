-- ===== src/Database/Combos.antt =====
-- pkg/db/combos.go, with the import of pkg/db/upserts.go: the changes of the table of combos. The
-- columns `id` and `name` are unique.
use my_ai_router.Common.{
  Bool, ◌&&◌, ◌||◌, not, Option, none, some, List, [], ◌∷◌, ◌++◌, String, str_eq, is_empty,
  if◌then◌else◌,
}
use my_ai_router.Policy.{AttemptPolicy}
use my_ai_router.Database.Table.{has_row, update_row, delete_rows, upsert_row}
use my_ai_router.Database.{ComboRow, Store, Result, ok, fault, Fault, refused, failure, invalidate}

abbrev pub combo_id : ComboRow → String
combo_id r = r.id

abbrev pub combo_name : ComboRow → String
combo_name r = r.name

-- `if combo.ID == "" { combo.ID = uuid.New().String() }`
abbrev pub id_or : String → String → String
id_or fresh id = if is_empty id then fresh else id

abbrev pub stamped_combo : String → String → ComboRow → ComboRow
stamped_combo fresh now r = record r { id = id_or fresh r.id; created_at = now; updated_at = now }

abbrev pub combo_taken : ComboRow → List ComboRow → Bool
combo_taken r rows = has_row combo_id r.id rows || has_row combo_name r.name rows

unfoldable pub insert_combo : Bool → ComboRow → Store → Store × Result ComboRow
unfolding has_row
insert_combo runs r s =
    if runs && not (combo_taken r s.tables.combos)
    then (invalidate (record s.tables { combos = s.tables.combos ++ r ∷ [] }), ok r)
    else (s, fault refused)

unfoldable pub create_combo : Bool → String → String → ComboRow → Store → Store × Result ComboRow
unfolding insert_combo
create_combo runs fresh now r s = insert_combo runs (stamped_combo fresh now r) s

unfoldable pub delete_combo : Bool → String → Store → Store × Option Fault
delete_combo runs id s =
    if runs
    then (
      invalidate (record s.tables { combos = delete_rows (λ r. str_eq r.id id) s.tables.combos }),
      none,
    )
    else (invalidate s.tables, some refused)

-- Whether a row other than the one with the id has the name.
abbrev pub name_elsewhere : String → String → List ComboRow → Bool
name_elsewhere id name rows = has_row combo_name name (delete_rows (λ r. str_eq r.id id) rows)

abbrev pub set_combo :
    String → String → String → List String → Option AttemptPolicy → ComboRow → ComboRow
set_combo now name kind models policy r = record r {
  name = name;
  kind = kind;
  models = models;
  policy = policy;
  updated_at = now;
}

-- A name that another combo has is refused, where there is a row to change.
unfoldable pub update_combo :
    Bool
    → String
    → String
    → String
    → String
    → List String
    → Option AttemptPolicy
    → Store
    → Store × Option Fault
update_combo runs now id name kind models policy s =
    let rows = s.tables.combos in
    if runs && not (has_row combo_id id rows && name_elsewhere id name rows)
    then (
      invalidate (record s.tables {
        combos = update_row combo_id id (set_combo now name kind models policy) rows;
      }),
      none,
    )
    else (invalidate s.tables, some refused)

-- The row that an import leaves where the id is there already.
abbrev pub merge_combo : ComboRow → ComboRow → ComboRow
merge_combo old new = record new { id = old.id; created_at = old.created_at }

abbrev pub upserted_combos : ComboRow → List ComboRow → List ComboRow
upserted_combos r rows = upsert_row combo_id merge_combo r rows

-- `UpsertCombo` leaves the snapshot as it is, unless the combo has no id.
unfoldable pub upsert_combo : Bool → String → String → ComboRow → Store → Store × Option Fault
upsert_combo runs fresh now r s =
    if is_empty r.id
    then (let (after, made) = create_combo runs fresh now r s in (after, failure made))
    else if runs && not (name_elsewhere r.id r.name s.tables.combos)
    then (
      record s {
        tables = record s.tables {
          combos = upserted_combos (record r { updated_at = now }) s.tables.combos;
        };
      },
      none,
    )
    else (s, some refused)
