-- ===== src/Database/Table.antt =====
-- A table of the SQLite database as the list of its rows, in the order of insertion: what the
-- statements of pkg/db do with the rows of one key.
use my_ai_router.Common.{
  String, ◌≡◌, refl, Bool, true, false, Option, none, some, List, [], ◌∷◌, ◌++◌, arith, str_eq,
  eq_iff, if◌then◌else◌,
}

module _ {ℓ} {A : Type ℓ} where
  -- `SELECT ... WHERE key = ?`
  unfoldable pub find_row : (A → String) → String → List A → Option A
  find_row key id [] = none
  find_row key id (r ∷ rest) =
      let later = find_row key id rest in if str_eq (key r) id then some r else later

  unfoldable pub has_row : (A → String) → String → List A → Bool
  unfolding find_row
  has_row key id rows = elim (find_row key id rows) [ none ↦ false | some r ↦ true ]

  -- `UPDATE ... SET ... WHERE key = ?`
  unfoldable pub update_row : (A → String) → String → (A → A) → List A → List A
  update_row key id change [] = []
  update_row key id change (r ∷ rest) =
      let later = update_row key id change rest in
      if str_eq (key r) id then change r ∷ later else r ∷ later

  -- `DELETE FROM ... WHERE ...`
  unfoldable pub delete_rows : (A → Bool) → List A → List A
  delete_rows test [] = []
  delete_rows test (r ∷ rest) =
      let later = delete_rows test rest in if test r then later else r ∷ later

  -- `INSERT ... ON CONFLICT(key) DO UPDATE SET ...`: `merge old new` is the row that a conflict
  -- leaves.
  unfoldable pub upsert_row : (A → String) → (A → A → A) → A → List A → List A
  unfolding has_row update_row
  upsert_row key merge new rows =
      if has_row key (key new) rows
      then update_row key (key new) (λ old. merge old new) rows
      else rows ++ new ∷ []

  -- `ORDER BY`, stable.
  unfoldable pub insert_ordered : (A → A → Bool) → A → List A → List A
  insert_ordered before new [] = new ∷ []
  insert_ordered before new (r ∷ rest) =
      let later = insert_ordered before new rest in
      if before new r then new ∷ r ∷ rest else r ∷ later

  unfoldable pub order_by : (A → A → Bool) → List A → List A
  unfolding insert_ordered
  order_by before [] = []
  order_by before (r ∷ rest) = insert_ordered before r (order_by before rest)

  -- No two rows have the same key.
  abbrev pub IsKeyed : (A → String) → List A → Type ℓ
  IsKeyed key [] = Unit
  IsKeyed key (r ∷ rest) = (find_row key (key r) rest ≡ none) × IsKeyed key rest

  pub find_row-append :
      (key : A → String) (id : String) (rows : List A) (new : A)
      → find_row key id (rows ++ new ∷ []) ≡ (elim (find_row key id rows) [
        | none ↦ if str_eq (key new) id then some new else none
        | some r ↦ some r
      ])
  unfolding find_row
  find_row-append key id [] new = refl
  find_row-append key id (r ∷ rest) new = ground (arith, find_row-append key id rest new)

  pub find_row-update :
      (key : A → String) (id other : String) (change : A → A) (rows : List A)
      → ((r : A) → key (change r) ≡ key r)
      → find_row key other (update_row key id change rows) ≡ (elim (find_row key other rows) [
        | none ↦ none
        | some r ↦ some (if str_eq id other then change r else r)
      ])
  unfolding find_row update_row
  find_row-update key id other change [] keeps = refl
  find_row-update key id other change (r ∷ rest) keeps = ground (
    arith,
    keeps r,
    eq_iff (key r) id,
    eq_iff (key r) other,
    eq_iff id other,
    find_row-update key id other change rest keeps,
  )

  pub IsKeyed-append :
      (key : A → String) (rows : List A) (new : A)
      → IsKeyed key rows
      → find_row key (key new) rows ≡ none
      → IsKeyed key (rows ++ new ∷ [])
  unfolding find_row
  IsKeyed-append key [] new k fresh = (refl, tt)
  IsKeyed-append key (r ∷ rest) new k fresh = ground (
    arith,
    find_row-append key (key r) rest new,
    eq_iff (key r) (key new),
    eq_iff (key new) (key r),
    IsKeyed-append key rest new k.1,
  )

  pub IsKeyed-update :
      (key : A → String) (id : String) (change : A → A) (rows : List A)
      → ((r : A) → key (change r) ≡ key r)
      → IsKeyed key rows
      → IsKeyed key (update_row key id change rows)
  unfolding update_row
  IsKeyed-update key id change [] keeps k = tt
  IsKeyed-update key id change (r ∷ rest) keeps k = ground (
    arith,
    keeps r,
    find_row-update key id (key r) change rest keeps,
    IsKeyed-update key id change rest keeps k.1,
  )

  pub find_row-delete :
      (key : A → String) (test : A → Bool) (id : String) (rows : List A)
      → find_row key id rows ≡ none
      → find_row key id (delete_rows test rows) ≡ none
  unfolding find_row delete_rows
  find_row-delete key test id [] h = refl
  find_row-delete key test id (r ∷ rest) h = ground (arith, find_row-delete key test id rest)

  pub IsKeyed-delete :
      (key : A → String) (test : A → Bool) (rows : List A)
      → IsKeyed key rows
      → IsKeyed key (delete_rows test rows)
  unfolding delete_rows
  IsKeyed-delete key test [] k = tt
  IsKeyed-delete key test (r ∷ rest) k =
      ground (arith, find_row-delete key test (key r) rest k.0, IsKeyed-delete key test rest k.1)
