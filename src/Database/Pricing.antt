-- ===== src/Database/Pricing.antt =====
-- pkg/db/pricing.go and `pricingOverride` of snapshot.go: the prices that an operator sets over those
-- of the catalogue. `last_slash` is `strings.LastIndex(s, "/")` with the text before and behind it.
use my_ai_router.Common.{
  ℕ, zero, suc, ◌+◌, Bool, ◌&&◌, Option, none, some, List, [], ◌∷◌, ◌++◌, String, str_eq, append,
  len, slice, is_empty, Dict, get, put, delete, TextOps, if◌then◌else◌,
}
use my_ai_router.Database.{
  ModelRate, PricingOverrideRecord, Store, Fault, refused, invalidate, Collation, Queries,
  RoutingSnapshot,
}
use my_ai_router.Database.Reading.{get_routing_snapshot}

abbrev cut_at : String → ℕ → String × String
cut_at s i = (slice s 0 i, slice s (i + 1) (len s))

-- The last slash before a position, searched from behind.
unfoldable pub slash_before : String → ℕ → Option (String × String)
slash_before s zero = none
slash_before s (suc i) =
    let earlier = slash_before s i in
    if str_eq (slice s i (i + 1)) "/" then some (cut_at s i) else earlier

unfoldable pub last_slash : String → Option (String × String)
unfolding slash_before
last_slash s = slash_before s (len s)

abbrev pub behind_slash : String → Option (String × String) → String
behind_slash m none = m
behind_slash m (some (front, base)) = base

abbrev pub base_model : String → String
base_model m = behind_slash m (last_slash m)

abbrev pub folded : TextOps → String → String
folded ops s = ops.to_lower (ops.trim_space s)

abbrev pub priced : String → String → String
priced provider model = append provider (append ":" model)

unfoldable pub pricing_key : TextOps → String → String → String
pricing_key ops provider model =
    let p = folded ops provider in
    let m = base_model (folded ops model) in if is_empty p then m else priced p m

abbrev pub provider_keys : String → String → String → List String
provider_keys p base m = if is_empty p then [] else priced p base ∷ priced p m ∷ []

-- `keysToTry` of `pricingOverride`
unfoldable pub keys_to_try : TextOps → String → String → List String
keys_to_try ops provider model =
    let m = folded ops model in
    provider_keys (folded ops provider) (base_model m) m ++ base_model m ∷ m ∷ []

unfoldable pub first_rate : List String → Dict ModelRate → Option ModelRate
unfolding get
first_rate [] rates = none
first_rate (k ∷ rest) rates = elim (get k rates) [
  | some rate ↦ some rate
  | none ↦ first_rate rest rates
]

unfoldable pub pricing_override : TextOps → String → String → RoutingSnapshot → Option ModelRate
unfolding keys_to_try first_rate
pricing_override ops provider model built =
    first_rate (keys_to_try ops provider model) built.pricing_overrides

-- `GetPricingOverride`
unfoldable pub get_pricing_override :
    TextOps → Collation → Queries → String → String → Store → Option ModelRate × Store
unfolding get_routing_snapshot pricing_override
get_pricing_override ops before q provider model s =
    let (built, after) = get_routing_snapshot before q s in
    (pricing_override ops provider model built, after)

-- The provider and the model that `SetPricingOverride` and `DeletePricingOverride` work with: a
-- model that names its provider gives it where there is none.
abbrev pub named_provider : String → String → String
named_provider p front = if is_empty p then front else p

abbrev pub split_parts : String → String → Option (String × String) → String × String
split_parts p m none = (p, m)
split_parts p m (some (front, base)) = (named_provider p front, base)

unfoldable pub split_model : TextOps → String → String → String × String
split_model ops provider model =
    let m = ops.trim_space model in split_parts (folded ops provider) m (last_slash m)

unfoldable pub set_pricing_override :
    TextOps → Bool → String → String → ModelRate → Store → Store × Option Fault
unfolding split_model pricing_key
set_pricing_override ops runs provider model rate s =
    let (p, m) = split_model ops provider model in
    let row : PricingOverrideRecord = record { provider = p; model = m; rate = rate } in
    if runs
    then (
      invalidate (record s.tables {
        pricing_overrides = put (pricing_key ops p m) row s.tables.pricing_overrides;
      }),
      none,
    )
    else (invalidate s.tables, some refused)

abbrev pub delete_global :
    Bool → String → String → Dict PricingOverrideRecord → Dict PricingOverrideRecord
delete_global runs p m rows = if runs && is_empty p then delete m rows else rows

-- With a flag for each of its two statements.
unfoldable pub delete_pricing_override :
    TextOps → Bool → Bool → String → String → Store → Store × Option Fault
unfolding split_model pricing_key
delete_pricing_override ops runs again provider model s =
    let (p, m) = split_model ops provider model in
    let rows = delete (pricing_key ops p m) s.tables.pricing_overrides in
    if runs
    then (invalidate (record s.tables { pricing_overrides = delete_global again p m rows }), none)
    else (s, some refused)
