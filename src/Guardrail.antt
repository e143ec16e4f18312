-- ===== src/Guardrail.antt =====
-- internal/gateway/middleware/guardrail.go: requests that carry the blocked phrase are turned away.
pub mod Blocking
use my_ai_router.Common.{
  Bool, true, false, Option, none, some, String, contains, note, TextOps, if◌then◌else◌,
}
use my_ai_router.Json.{Json, Fields, Items, nil, cons, object, member, as_string, as_array}
use my_ai_router.Context.{add_step, write_error}
use my_ai_router.Pipeline.{Middleware, return}

abbrev pub blocked_phrase : String
blocked_phrase = "malicious injection payload"

unfoldable pub is_blocked_content : TextOps → Option String → Bool
is_blocked_content ops none = false
is_blocked_content ops (some content) = contains (ops.to_lower content) blocked_phrase

unfoldable pub is_blocked_message : TextOps → Json → Bool
unfolding is_blocked_content
is_blocked_message ops (object m) = is_blocked_content ops (as_string (member "content" m))
is_blocked_message ops _ = false

unfoldable pub any_blocked : TextOps → Items → Bool
unfolding is_blocked_message
any_blocked ops nil = false
any_blocked ops (cons item rest) =
    let later = any_blocked ops rest in if is_blocked_message ops item then true else later

unfoldable pub blocked_items : TextOps → Option Items → Bool
unfolding any_blocked
blocked_items ops none = false
blocked_items ops (some items) = any_blocked ops items

-- Whether the loop over `messages` meets a message that it blocks.
unfoldable pub is_blocked : TextOps → Fields → Bool
unfolding blocked_items
is_blocked ops body = blocked_items ops (as_array (member "messages" body))

unfoldable pub guardrail : TextOps → Middleware
unfolding is_blocked
guardrail ops next c w =
    let started =
      add_step c "Guardrail" "started" (note "Validating request against safety guardrails") in
    if is_blocked ops started.request_body
    then return
        (add_step
          (write_error started 400
            (note "Request blocked by guardrails: detected potential prompt injection pattern."))
          "Guardrail" "failed" (note "Safety violation: potential prompt injection detected"))
        w
    else next (add_step started "Guardrail" "success" (note "Safety checks passed")) w
