-- ===== src/Guardrail/Blocking.antt =====
-- Which requests the guardrail turns away.
use my_ai_router.Common.{
  ◌≡◌, ◌⊎◌, Bool, true, false, none, some, String, contains, TextOps, ℕ, Message,
}
use my_ai_router.Json.{Json, Fields, Items, cons, object, member, as_string, as_array}
use my_ai_router.Context.{Context, send, api_error}
use my_ai_router.Pipeline.{World, Outcome}
use my_ai_router.Guardrail.{blocked_phrase}

-- A message whose content is a text that holds the blocked phrase, letter case aside.
abbrev pub Blocked : TextOps → Json → Type 0
Blocked ops (object m) =
    (content : String) × (as_string (member "content" m) ≡ some content)
    × (contains (ops.to_lower content) blocked_phrase ≡ true)
Blocked ops _ = ⊥

-- Some message of the list is blocked.
pub data Holds (ops : TextOps) : Items → Type 0 where
  here : {m : Json} {rest : Items} → Blocked ops m → Holds ops (cons m rest)
  later : {m : Json} {rest : Items} → Holds ops rest → Holds ops (cons m rest)

-- An error body and its status have gone out on the socket, and the state is as it was.
abbrev pub AnsweredWith : ℕ → Context → World → Outcome → Type 0
AnsweredWith code c w o =
    (message : Message) × (o.ctx.socket ≡ send code (api_error message) c.socket)
    × (o.ctx.response_code ≡ code)
    × (o.ctx.response_written ≡ true)
    × (o.error ≡ none)
    × (o.world ≡ w)

-- The request's messages are a list that holds a blocked one.
abbrev pub Carries : TextOps → Fields → Type 0
Carries ops body =
    (items : Items) × (as_array (member "messages" body) ≡ some items) × Holds ops items

abbrev Checked : TextOps → Fields → Bool → Type 0
Checked ops body answer =
    (Carries ops body × (answer ≡ true)) ⊎ ((¬ Carries ops body) × (answer ≡ false))
