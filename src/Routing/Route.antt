-- ===== src/Routing/Route.antt =====
-- internal/gateway/middleware/routing.go: the middleware that orders the models and finds targets.
use my_ai_router.Common.{
  ℕ, List, [], ◌∷◌, String, length, str_eq, ltb, note, lit, num, Message, TextOps, if◌then◌else◌,
}
use my_ai_router.Live.Sessions.{set_targets}
use my_ai_router.Context.{Context, Target, add_step, write_error}
use my_ai_router.Pipeline.{World, Outcome, Handler, Middleware, return}
use my_ai_router.Routing.Targets.{candidate_targets}
use my_ai_router.Routing.Order.{order_by_health}
use my_ai_router.Routing.Models.{next_counter, balance, classify_and_rank}

-- The models in the order in which they are tried, the request with its step, and the counter.
pub record Ordered : Type 0 where
  pub models : List String
  pub ctx : Context
  pub counter : ℕ

abbrev comma_separated : List String → Message
comma_separated [] = []
comma_separated (m ∷ []) = lit m ∷ []
comma_separated (m ∷ n ∷ rest) = lit m ∷ lit ", " ∷ comma_separated (n ∷ rest)

abbrev primary : List String → String
primary [] = ""
primary (m ∷ rest) = m

abbrev smart_order : TextOps → Context → ℕ → List String → Ordered
smart_order ops c counter models =
    let ranked = classify_and_rank ops c.request_body models in
    record {
      models = ranked;
      ctx =
          add_step c "Routing (Smart)" "success"
            (lit "Smart classifier prioritized order: " ∷ comma_separated ranked);
      counter = counter;
    }

abbrev balanced_order : Context → ℕ → List String → Ordered
balanced_order c counter models =
    let turned = balance (next_counter counter) models in
    record {
      models = turned;
      ctx =
          add_step c "Routing (Load Balance)" "success"
            (lit "Round-robin selected primary model: " ∷ lit (primary turned) ∷ []);
      counter = next_counter counter;
    }

unfoldable pub order_models : TextOps → Context → ℕ → Ordered
order_models ops c counter =
    let models = c.metadata.models_to_try in
    let unchanged : Ordered = record { models = models; ctx = c; counter = counter } in
    if ltb 1 (length models)
    then if str_eq c.metadata.combo_kind "smart"
      then smart_order ops c counter models
      else if str_eq c.metadata.combo_kind "load_balance"
      then balanced_order c counter models
      else unchanged
    else unchanged

-- `resolveConnectionTargets`
unfoldable pub resolve_targets : World → List String → List Target
resolve_targets w models = order_by_health w.health w.now (candidate_targets w.config models)

unfoldable pub hand_on : Handler → Context → World → List Target → Outcome
hand_on next c w [] =
    return
      (add_step
        (write_error c 503 (note "No active upstream connections found for requested models"))
        "Routing" "failed" (note "No connections available"))
      w
hand_on next c w (t ∷ rest) =
    next
      (add_step (record c { metadata = record c.metadata { routing_targets = t ∷ rest } }) "Routing"
        "success" (lit "Routed to " ∷ num (length (t ∷ rest)) ∷ lit " target connection(s)" ∷ []))
      (record w { live = set_targets w.live c.live_id (length (t ∷ rest)) })

unfoldable pub routing : TextOps → Middleware
unfolding hand_on
routing ops next c w =
    let ordered = order_models ops c w.balance_counter in
    hand_on next ordered.ctx (record w { balance_counter = ordered.counter })
      (resolve_targets w ordered.models)
