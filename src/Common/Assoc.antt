-- ===== src/Common/Assoc.antt =====
-- Go's `map[string]V` as an association list: reading, writing and deleting a key.
use Prim.Native.Nat.{◌≤◌, ◌+◌}
use Prim.Native.String.{String}
use mathlib.Core.Path.{◌≡◌, refl}
use mathlib.Core.Option.{Option, none, some}
use mathlib.Core.List.{List, [], ◌∷◌}
use native.Mathlib.Omega.{arith}
use text.Mathlib.Text.{◌==◌ as str_eq}
use text.Mathlib.TextEquality.{eq_iff}
use my_ai_router.Common.Tests.{if◌then◌else◌}
use my_ai_router.Common.Lists.{length}

abbrev pub Dict {ℓ} : Type ℓ → Type ℓ
Dict V = List (String × V)

module _ {ℓ} {V : Type ℓ} where
  unfoldable pub get : String → Dict V → Option V
  get key [] = none
  get key ((k, v) ∷ rest) = let later = get key rest in if str_eq k key then some v else later

  unfoldable pub put : String → V → Dict V → Dict V
  put key new [] = (key, new) ∷ []
  put key new ((k, v) ∷ rest) =
      let later = put key new rest in if str_eq k key then (k, new) ∷ rest else (k, v) ∷ later

  unfoldable pub delete : String → Dict V → Dict V
  delete key [] = []
  delete key ((k, v) ∷ rest) =
      let later = delete key rest in if str_eq k key then later else (k, v) ∷ later

  pub get-put :
      (key other : String) (new : V) (entries : Dict V)
      → get other (put key new entries) ≡ (if str_eq key other then some new else get other entries)
  unfolding get put
  get-put key other new [] = refl
  get-put key other new ((k, v) ∷ rest) =
      ground (arith, eq_iff k key, eq_iff k other, eq_iff key other, get-put key other new rest)

  pub get-put_self :
      (key : String) (new : V) (entries : Dict V) → get key (put key new entries) ≡ some new
  get-put_self key new entries = ground (arith, get-put key key new entries, eq_iff key key)

  pub get-delete :
      (key other : String) (entries : Dict V)
      → get other (delete key entries) ≡ (if str_eq key other then none else get other entries)
  unfolding get delete
  get-delete key other [] = ground arith
  get-delete key other ((k, v) ∷ rest) =
      ground (arith, eq_iff k key, eq_iff k other, eq_iff key other, get-delete key other rest)

  pub length-delete-le :
      (key : String) (entries : Dict V) → length (delete key entries) ≤ length entries
  unfolding delete
  length-delete-le key [] = omega arith
  length-delete-le key ((k, v) ∷ rest) = ground (arith, length-delete-le key rest)

  pub length-put-le :
      (key : String) (new : V) (entries : Dict V)
      → length (put key new entries) ≤ length entries + 1
  unfolding put
  length-put-le key new [] = omega arith
  length-put-le key new ((k, v) ∷ rest) = ground (arith, length-put-le key new rest)
