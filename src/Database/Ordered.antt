-- ===== src/Database/Ordered.antt =====
-- Finding a row by its key in an ordered list: ordering by the key does not change what is found.
use my_ai_router.Common.{
  String, ◌≡◌, refl, Bool, true, none, some, List, [], ◌∷◌, map, arith, str_eq, eq_iff,
  if◌then◌else◌,
}
use my_ai_router.Database.Table.{find_row, order_by, insert_ordered, IsKeyed}

module _ {ℓ} {A : Type ℓ} (key : A → String) (before : String → String → Bool) where
  abbrev pub by_key : A → A → Bool
  by_key a b = before (key a) (key b)

  find_row-insert_ordered :
      ((s : String) → before s s ≡ true)
      → (id : String) (new : A) (rows : List A)
      → find_row key id (insert_ordered by_key new rows)
        ≡ (if str_eq (key new) id then some new else find_row key id rows)
  unfolding find_row insert_ordered
  find_row-insert_ordered self id new [] = refl
  find_row-insert_ordered self id new (r ∷ rest) = ground (
    arith,
    self (key new),
    eq_iff (key new) id,
    eq_iff (key r) id,
    find_row-insert_ordered self id new rest,
  )

  pub find_row-order_by :
      ((s : String) → before s s ≡ true)
      → (id : String) (rows : List A)
      → find_row key id (order_by by_key rows) ≡ find_row key id rows
  unfolding find_row order_by
  find_row-order_by self id [] = refl
  find_row-order_by self id (r ∷ rest) =
      rw (find_row-insert_ordered self id r (order_by by_key rest), find_row-order_by self id rest)
        refl

  IsKeyed-insert_ordered :
      ((s : String) → before s s ≡ true)
      → (new : A) (rows : List A) → find_row key (key new) rows ≡ none
      → IsKeyed key rows
      → IsKeyed key (insert_ordered by_key new rows)
  unfolding find_row insert_ordered
  IsKeyed-insert_ordered self new [] fresh k = (refl, tt)
  IsKeyed-insert_ordered self new (r ∷ rest) fresh k = ground (
    arith,
    eq_iff (key new) (key r),
    eq_iff (key r) (key new),
    find_row-insert_ordered self (key r) new rest,
    IsKeyed-insert_ordered self new rest,
  )

  pub IsKeyed-order_by :
      ((s : String) → before s s ≡ true)
      → (rows : List A) → IsKeyed key rows
      → IsKeyed key (order_by by_key rows)
  unfolding order_by
  IsKeyed-order_by self [] k = tt
  IsKeyed-order_by self (r ∷ rest) k =
      IsKeyed-insert_ordered self r (order_by by_key rest)
        (rw (find_row-order_by self (key r) rest) k.0) (IsKeyed-order_by self rest k.1)

module _ {ℓ} {A : Type ℓ} (key : A → String) where
  pub find_row-map :
      (change : A → A)
      → ((r : A) → key (change r) ≡ key r)
      → (id : String) (rows : List A)
      → find_row key id (map change rows)
        ≡ (elim (find_row key id rows) [ none ↦ none | some r ↦ some (change r) ])
  unfolding find_row
  find_row-map change keeps id [] = refl
  find_row-map change keeps id (r ∷ rest) =
      ground (arith, keeps r, find_row-map change keeps id rest)

  pub IsKeyed-map :
      (change : A → A)
      → ((r : A) → key (change r) ≡ key r)
      → (rows : List A) → IsKeyed key rows
      → IsKeyed key (map change rows)
  IsKeyed-map change keeps [] k = tt
  IsKeyed-map change keeps (r ∷ rest) k =
      ground
        (arith, keeps r, find_row-map change keeps (key r) rest, IsKeyed-map change keeps rest k.1)
