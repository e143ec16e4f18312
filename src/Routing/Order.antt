-- ===== src/Routing/Order.antt =====
-- internal/gateway/middleware/routing.go: `orderTargetsByHealth`.
use my_ai_router.Common.{
  ℕ, zero, suc, Bool, ◌&&◌, not, List, [], ◌∷◌, ◌++◌, str_eq, keep_if, ltb, ◌==◌, if◌then◌else◌,
  length,
}
use my_ai_router.Health.{Tracker, in_cooldown, latency_ms, faster}
use my_ai_router.Context.{Target}

abbrev pub is_rested : Tracker → ℕ → Target → Bool
is_rested health now t = not (in_cooldown health t.connection.id now)

-- Connections in cooldown are dropped where another one is left.
abbrev pub rested_or_all : List Target → List Target → List Target
rested_or_all all [] = all
rested_or_all all (t ∷ rested) = t ∷ rested

-- The comparison that the accounts of a group are sorted by.
unfoldable pub less : Tracker → Target → Target → Bool
less health a b =
    if a.connection.priority == b.connection.priority
    then faster (latency_ms health a.connection.id) (latency_ms health b.connection.id)
    else ltb a.connection.priority b.connection.priority

-- `sort.SliceStable`: an element goes behind those that it is not less than.
unfoldable pub insert : Tracker → Target → List Target → List Target
insert health t [] = t ∷ []
insert health t (u ∷ rest) =
    let later = u ∷ insert health t rest in if less health u t then later else t ∷ u ∷ rest

unfoldable pub sort_stable : Tracker → List Target → List Target
unfolding insert
sort_stable health [] = []
sort_stable health (t ∷ rest) = insert health t (sort_stable health rest)

abbrev pub same_group : Target → Target → Bool
same_group t u = str_eq u.provider t.provider && str_eq u.model_name t.model_name

-- The run of targets of one provider and model at the front of a list, and what follows it.
unfoldable pub span_group : Target → List Target → List Target × List Target
span_group t [] = ([], [])
span_group t (u ∷ rest) =
    let (group, others) = span_group t rest in
    if same_group t u then (u ∷ group, others) else ([], u ∷ rest)

-- The loop over the groups, on fuel: the number of targets is enough.
unfoldable pub order_groups : Tracker → ℕ → List Target → List Target
order_groups health zero ts = ts
order_groups health (suc fuel) [] = []
order_groups health (suc fuel) (t ∷ rest) =
    let (group, others) = span_group t rest in
    sort_stable health (t ∷ group) ++ order_groups health fuel others

unfoldable pub order_by_health : Tracker → ℕ → List Target → List Target
order_by_health health now targets =
    let kept = rested_or_all targets (keep_if (is_rested health now) targets) in
    order_groups health (length kept) kept
