-- ===== src/Database/Kept.antt =====
-- The settings row and the prices, read back after a change.
use my_ai_router.Common.{
  ◌≡◌, refl, true, false, Option, none, some, [], ◌∷◌, String, TextOps, arith, Dict, get, put,
  get-put_self, is_empty, Option-cases, inl, inr, ap, ◌∙◌,
}
use my_ai_router.Json.{Fields, end, member}
use my_ai_router.Config.Stored.{StoredSettings, encode_settings, decode_settings}
use my_ai_router.Config.Loaded.{
  load_settings, with_defaults, merge_members, decode_settings-encode, with_defaults-twice,
  member-merge_members, newest,
}
use my_ai_router.Database.{
  Store, Tables, Collation, invalidate, ok, ModelRate, PricingOverrideRecord, all_answered,
  RoutingSnapshot,
}
use my_ai_router.Database.Reading.{rates, get_routing_snapshot, build_routing_snapshot}
use my_ai_router.Database.SettingsRow.{update_settings, get_settings, store_settings}
use my_ai_router.Database.Pricing.{
  set_pricing_override, get_pricing_override, pricing_override, last_slash, folded, pricing_key,
  split_model, keys_to_try, first_rate, priced,
}

pub get_settings-update :
    (updates : Fields) (s : Store) (old : Fields) (current merged : StoredSettings) (key : String)
    → s.tables.settings ≡ some old
    → get_settings true s ≡ some current
    → decode_settings (merge_members updates (encode_settings current)) ≡ some merged
    → (get_settings true (update_settings true true updates s).0 ≡ some (with_defaults merged))
      × ((update_settings true true updates s).1 ≡ ok merged)
      × (member key (merge_members updates (encode_settings current))
          ≡ newest key updates (member key (encode_settings current)))
unfolding update_settings get_settings store_settings load_settings
get_settings-update updates s old current merged key row read decodes = (
  rw (update_settings, read, decodes, row, load_settings, decodes) refl,
  rw (update_settings, read, decodes) refl,
  member-merge_members key updates (encode_settings current),
)

loaded-with_defaults :
    (row : Option Fields) (current : StoredSettings)
    → load_settings row ≡ some current
    → with_defaults current ≡ current
unfolding load_settings
loaded-with_defaults none current e = ground (arith, e)
loaded-with_defaults (some m) current e = elim (Option-cases (decode_settings m)) [
  | inl miss ↦ ground (arith, miss, e)
  | inr (s, hit) ↦ ground (arith, hit, e, with_defaults-twice s)
]

-- An update without members leaves the settings that are read as they are.
pub get_settings-update_end :
    (t : Tables) (old : Fields) (current : StoredSettings)
    → t.settings ≡ some old
    → load_settings t.settings ≡ some current
    → get_settings true (update_settings true true end (invalidate t)).0 ≡ some current
unfolding merge_members get_settings
get_settings-update_end t old current row read =
    (get_settings-update end (invalidate t) old current current "" row read
      (decode_settings-encode current)).0
    ∙ ap some (loaded-with_defaults t.settings current read)

get-rates :
    (key : String) (rows : Dict PricingOverrideRecord)
    → get key (rates rows) ≡ (elim (get key rows) [ none ↦ none | some r ↦ some r.rate ])
unfolding get
get-rates key [] = refl
get-rates key ((k, r) ∷ rest) = ground (arith, get-rates key rest)

Plain : TextOps → String → String → Type 0
Plain ops provider model =
    (is_empty provider ≡ false)
    × (folded ops provider ≡ provider)
    × (folded ops model ≡ model)
    × (ops.trim_space model ≡ model)
    × (last_slash model ≡ none)

split-Plain :
    (ops : TextOps) (provider model : String)
    → Plain ops provider model
    → split_model ops provider model ≡ (provider, model)
unfolding split_model Plain
split-Plain ops provider model (given, p, m, trimmed, plain) = rw (trimmed, plain, p) refl

key-Plain :
    (ops : TextOps) (provider model : String)
    → Plain ops provider model
    → pricing_key ops provider model ≡ priced provider model
unfolding pricing_key Plain
key-Plain ops provider model (given, p, m, trimmed, plain) = rw (p, m, plain, given) refl

read-Plain :
    (ops : TextOps) (provider model : String) (rate : ModelRate) (built : RoutingSnapshot)
    → Plain ops provider model
    → get (priced provider model) built.pricing_overrides ≡ some rate
    → pricing_override ops provider model built ≡ some rate
unfolding pricing_override keys_to_try first_rate Plain
read-Plain ops provider model rate built (given, p, m, trimmed, plain) hit =
    rw (p, m, plain, given, first_rate, hit) refl

stored-Plain :
    (ops : TextOps) (provider model : String) (rate : ModelRate) (s : Store)
    → Plain ops provider model
    → (set_pricing_override ops true provider model rate s).0
      ≡ invalidate (record s.tables {
        pricing_overrides =
            put
              (priced provider model)
              (record { provider = provider; model = model; rate = rate })
              s.tables.pricing_overrides;
      })
unfolding set_pricing_override
stored-Plain ops provider model rate s h =
    rw (split-Plain ops provider model h, key-Plain ops provider model h) refl

-- A price that an operator sets for a provider's model is the one that the gateway reads for it, where
-- the names are in lower case and trimmed already, the model names no provider, and the statement of
-- the update and all queries of the snapshot's build are answered.
pub get_pricing_override-set :
    (ops : TextOps) (before : Collation) (provider model : String) (rate : ModelRate) (s : Store)
    → is_empty provider ≡ false
    → folded ops provider ≡ provider
    → folded ops model ≡ model
    → ops.trim_space model ≡ model
    → last_slash model ≡ none
    → (get_pricing_override ops before all_answered provider model
        (set_pricing_override ops true provider model rate s).0).0
      ≡ some rate
unfolding get_pricing_override get_routing_snapshot build_routing_snapshot Plain
get_pricing_override-set ops before provider model rate s given p m trimmed plain =
    let h : Plain ops provider model = (given, p, m, trimmed, plain) in
    let row : PricingOverrideRecord = record { provider = provider; model = model; rate = rate } in
    let rows = put (priced provider model) row s.tables.pricing_overrides in
    let t : Tables = record s.tables { pricing_overrides = rows } in
    rw (stored-Plain ops provider model rate s h) (
      read-Plain ops provider model rate (build_routing_snapshot before all_answered t) h (
        rw
          (
            get-rates (priced provider model) rows,
            get-put_self (priced provider model) row s.tables.pricing_overrides,
          )
          refl))
