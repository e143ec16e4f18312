-- ===== src/Routing/Targets.antt =====
-- internal/gateway/middleware/routing.go: the upstreams that can serve the requested models.
use my_ai_router.Common.{
  Bool, ◌&&◌, ◌||◌, Option, none, some, List, [], ◌∷◌, ◌++◌, String, append, str_eq, is_empty,
  cut_slash, has_suffix, trim_suffix, any, if◌then◌else◌,
}
use my_ai_router.Json.{string_at}
use my_ai_router.Context.{Connection, Target}
use my_ai_router.Config.{Snapshot, CustomModel, RoutingConfig, active_connections, model_config}

-- `Data["modelPrefix"]`, without a "/" at its end.
abbrev pub model_prefix : Connection → String
model_prefix c = trim_suffix (string_at "modelPrefix" c.settings) "/"

unfoldable pub connections_by_prefix : Snapshot → String → List Connection → List Connection
connections_by_prefix s prefix [] = []
connections_by_prefix s prefix (c ∷ rest) =
    let later = connections_by_prefix s prefix rest in
    if c.is_active && str_eq (model_prefix c) prefix then active_connections s c.provider else later

abbrev pub or_prefix : Snapshot → String → List Connection → List Connection
or_prefix s prefix [] = connections_by_prefix s prefix s.connections
or_prefix s prefix (c ∷ rest) = c ∷ rest

-- `getActiveConnectionsForPrefix`: the provider's own accounts, or those of the provider that uses
-- the prefix.
unfoldable pub connections_for : Snapshot → String → List Connection
unfolding connections_by_prefix
connections_for s prefix = or_prefix s prefix (active_connections s prefix)

abbrev pub is_custom : String → String → CustomModel → Bool
is_custom provider base m =
    str_eq m.provider_alias provider
    && (str_eq m.id base
        || (has_suffix m.id (append "/" base) || has_suffix m.id (append "|" base)))

-- `resolveTargetModelName`, over the custom models.
unfoldable pub target_model_name : String → String → List CustomModel → String
target_model_name provider base [] = base
target_model_name provider base (m ∷ rest) =
    let later = target_model_name provider base rest in
    if is_custom provider base m then m.id else later

-- The targets so far, and the keys under which the code remembers them.
pub record Collected : Type 0 where
  pub targets : List Target
  pub seen : List String

abbrev pub key_of : Connection → String → String → String
key_of c provider name = append c.id (append "|" (append provider (append "/" name)))

abbrev pub target_key : Target → String
target_key t = key_of t.connection t.provider t.model_name

unfoldable pub collect : Target → Collected → Collected
collect t s =
    if any (λ k. str_eq k (target_key t)) s.seen
    then s
    else record { targets = s.targets ++ t ∷ []; seen = target_key t ∷ s.seen }

unfoldable pub collect_all : String → String → List Connection → Collected → Collected
unfolding collect
collect_all provider name [] s = s
collect_all provider name (c ∷ rest) s =
    collect_all provider name rest
      (collect (record { connection = c; model_name = name; provider = provider }) s)

-- The fallback model of a policy, split into provider and name.
unfoldable pub fallback_of : Option String → Option (String × String)
fallback_of none = none
fallback_of (some id) =
    if is_empty id || str_eq id "None"
    then none
    else elim (cut_slash id) [ none ↦ some ("openai", id) | some split ↦ some split ]

unfoldable pub collect_fallback : Snapshot → Option (String × String) → Collected → Collected
collect_fallback s none acc = acc
collect_fallback s (some (provider, name)) acc =
    collect_all provider (target_model_name provider name s.custom_models)
      (connections_for s provider) acc

abbrev pub base_model_name : String → String
base_model_name model = elim (cut_slash model) [ none ↦ model | some split ↦ split.1 ]

-- One model of the route. A model without a usable account is passed over, its fallback with it.
unfoldable pub collect_primary :
    Snapshot → String → RoutingConfig → List Connection → Collected → Collected
unfolding collect_fallback fallback_of
collect_primary s model routing [] acc = acc
collect_primary s model routing (c ∷ rest) acc =
    collect_fallback s (fallback_of routing.fallback_model) (
      collect_all routing.primary_provider
        (target_model_name routing.primary_provider (base_model_name model) s.custom_models)
        (c ∷ rest) acc)

unfoldable pub collect_model : Snapshot → String → Collected → Collected
unfolding collect_primary
collect_model s model acc =
    let routing = (model_config s model).routing in
    collect_primary s model routing (connections_for s routing.primary_provider) acc

unfoldable pub collect_models : Snapshot → List String → Collected → Collected
unfolding collect_model
collect_models s [] acc = acc
collect_models s (m ∷ rest) acc = collect_models s rest (collect_model s m acc)

abbrev pub nothing_collected : Collected
nothing_collected = record { targets = []; seen = [] }

-- The loop of `resolveConnectionTargets`, in front of the ordering by health.
unfoldable pub candidate_targets : Snapshot → List String → List Target
unfolding collect_models
candidate_targets s models = (collect_models s models nothing_collected).targets
