-- ===== src/Passthrough/Gate.antt =====
-- `authenticatePassthrough` of internal/gateway/gateway.go: Auth in front of the endpoints.
use my_ai_router.Common.{Bool, Option, none, some, String, is_empty, if◌then◌else◌}
use my_ai_router.Json.{Fields, end, member, set_member, string, string_at}
use my_ai_router.Context.{new_socket}
use my_ai_router.Pipeline.{World}
use my_ai_router.Access.{Credentials, Verdict, verdict, admit, refuse}
use my_ai_router.Passthrough.{PassRequest, Relayed, Wire, answer_error}
use my_ai_router.Passthrough.Relays.{fields_or, Endpoint, handle}

abbrev pub with_model : String → Fields → Fields
with_model model body = elim (member "model" body) [
  | some v ↦ body
  | none ↦ if is_empty model then body else set_member "model" (string model) body
]

abbrev pub json_body : Bool → Option Fields → Fields
json_body readable decoded = if readable then fields_or decoded else end

-- The body that `authenticatePassthrough` hands to Auth. For a request that is neither JSON nor a
-- multipart form it writes to a nil form and panics.
unfoldable pub auth_body : PassRequest → Option Fields
unfolding set_member
auth_body r =
    if r.is_json
    then some (with_model r.form_model (json_body r.readable r.decoded))
    else elim r.form [ none ↦ none | some form ↦ some (with_model r.form_model end) ]

-- What Auth's verdict lets happen.
abbrev pub behind_verdict : Endpoint → Wire → PassRequest → World → Verdict → Relayed
behind_verdict e wire r w (admit user details) = handle e wire r new_socket w
behind_verdict e wire r w (refuse code message details) = answer_error code message new_socket w

-- Auth in front of an endpoint's handler, with the body that Auth reads.
unfoldable pub guarded : Endpoint → Wire → Credentials → PassRequest → Fields → World → Relayed
unfolding verdict
guarded e wire cr r body w =
    behind_verdict e wire r w (verdict w.config.settings cr w.now (string_at "model" body))

-- `authenticatePassthrough`; `none` is the panic, before anything is written.
unfoldable pub passthrough : Endpoint → Wire → Credentials → PassRequest → World → Option Relayed
unfolding auth_body guarded
passthrough e wire cr r w = elim (auth_body r) [
  | none ↦ none
  | some body ↦ some (guarded e wire cr r body w)
]
