-- ===== src/Database/Sets.antt =====
-- The set of disabled models of a provider, whatever the order of its list.
use my_ai_router.Common.{
  String, ◌≡◌, refl, Bool, true, false, ◌&&◌, ◌||◌, not, List, [], ◌∷◌, ◌++◌, arith, str_eq, eq_iff,
  put, get-put_self, get-delete, Bool-cases, inl, inr,
}
use my_ai_router.Database.{Store, Tables, invalidate}
use my_ai_router.Database.ModelLists.{
  contains_id, add_unique, remaining, get_disabled_models, disable_models, enable_models,
  write_remaining, with_disabled, clear_disabled,
}

contains_id-append :
    (id : String) (xs ys : List String)
    → contains_id id (xs ++ ys) ≡ (contains_id id xs || contains_id id ys)
contains_id-append id [] ys = refl
contains_id-append id (x ∷ xs) ys = ground (arith, contains_id-append id xs ys)

-- What is contained already changes nothing when it is added.
or_contained :
    (id new : String) (unique : List String)
    → contains_id new unique ≡ true
    → (contains_id id unique || str_eq id new) ≡ contains_id id unique
or_contained id new [] h = ground (arith, h)
or_contained id new (x ∷ xs) h =
    ground (arith, eq_iff id new, eq_iff new x, eq_iff id x, or_contained id new xs)

contains_id-add_unique :
    (id : String) (unique ids : List String)
    → contains_id id (add_unique unique ids) ≡ (contains_id id unique || contains_id id ids)
unfolding add_unique
contains_id-add_unique id unique [] = ground arith
contains_id-add_unique id unique (x ∷ rest) = elim (Bool-cases (contains_id x unique)) [
  | inl e ↦ rw e (ground (arith, contains_id-add_unique id unique rest, or_contained id x unique e))
  | inr e ↦ rw e (
      ground (
        arith,
        contains_id-add_unique id (unique ++ x ∷ []) rest,
        contains_id-append id unique (x ∷ []),
      ))
]

contains_id-remaining :
    (id : String) (removed ids : List String)
    → contains_id id (remaining removed ids) ≡ (contains_id id ids && not (contains_id id removed))
unfolding remaining
contains_id-remaining id removed [] = refl
contains_id-remaining id removed (x ∷ rest) =
    ground (arith, eq_iff id x, contains_id-remaining id removed rest)

disabled_after_put :
    (provider : String) (ids : List String) (t : Tables)
    → get_disabled_models true provider
        (invalidate (with_disabled (put provider ids t.disabled_models) t))
      ≡ ids
unfolding get_disabled_models
disabled_after_put provider ids t = rw (get-put_self provider ids t.disabled_models) refl

-- Whether a list names a model.
abbrev pub is_named : String → List String → Bool
is_named id [] = false
is_named id (x ∷ rest) = str_eq id x || is_named id rest

-- After a provider's models have been disabled, exactly those are disabled that were or are named now,
-- where the list is read and the statement carried out.
pub disable_models-union :
    (provider id : String) (ids : List String) (s : Store)
    → is_named id (get_disabled_models true provider (disable_models true true provider ids s).0)
      ≡ (is_named id (get_disabled_models true provider s) || is_named id ids)
unfolding disable_models
disable_models-union provider id ids s =
    let current = get_disabled_models true provider s in
    let unique = add_unique [] current in
    rw
      (
        disabled_after_put provider (add_unique unique ids) s.tables,
        contains_id-add_unique id unique ids,
        contains_id-add_unique id [] current,
      )
      refl

disabled_after_clear :
    (provider : String) (s : Store)
    → get_disabled_models true provider (clear_disabled true provider s).0 ≡ []
unfolding get_disabled_models
disabled_after_clear provider s =
    ground (arith, get-delete provider provider s.tables.disabled_models, eq_iff provider provider)

disabled_after_write :
    (provider : String) (ids : List String) (s : Store)
    → get_disabled_models true provider (write_remaining true provider ids s).0 ≡ ids
disabled_after_write provider [] s = disabled_after_clear provider s
disabled_after_write provider (id ∷ rest) s = disabled_after_put provider (id ∷ rest) s.tables

-- Whether enabling these models leaves this one out.
abbrev pub left_out : String → List String → Bool
left_out id [] = false
left_out id (x ∷ rest) = not (is_named id (x ∷ rest))

-- Enabling a provider's models leaves exactly those disabled that were and are not named, and enabling
-- none enables them all, where the list is read and the statement carried out.
pub enable_models-difference :
    (provider id : String) (ids : List String) (s : Store)
    → is_named id (get_disabled_models true provider (enable_models true true provider ids s).0)
      ≡ (is_named id (get_disabled_models true provider s) && left_out id ids)
unfolding enable_models
enable_models-difference provider id [] s = rw (disabled_after_clear provider s) (ground arith)
enable_models-difference provider id (x ∷ rest) s =
    let current = get_disabled_models true provider s in
    rw
      (
        disabled_after_write provider (remaining (x ∷ rest) current) s,
        contains_id-remaining id (x ∷ rest) current,
      )
      refl
