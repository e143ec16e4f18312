-- ===== src/Resolver.antt =====
-- internal/gateway/middleware/resolver.go: the models that the request's model name stands for.
pub mod Resolved
use my_ai_router.Common.{
  ℕ, Bool, true, false, Option, none, some, List, [], ◌∷◌, String, length, is_empty, note, lit, num,
  Message, TextOps, if◌then◌else◌,
}
use my_ai_router.Json.{string_at}
use my_ai_router.Policy.{normalized}
use my_ai_router.Config.{Combo, resolve_combo}
use my_ai_router.Live.Sessions.{combo_resolved}
use my_ai_router.Context.{Context, add_step, write_error}
use my_ai_router.Pipeline.{World, Outcome, Handler, Middleware, return}

-- The route of a combo that has models, as the metadata records it.
abbrev pub with_combo : Combo → Context → Context
with_combo combo c =
    add_step
      (record c {
        metadata = record c.metadata {
          models_to_try = combo.models;
          combo_kind = combo.kind;
          combo_name = combo.name;
          is_combo = true;
          attempt_policy = normalized combo.policy;
        };
      })
      "Model Resolver" "success"
      (lit "Resolved combo route '"
        ∷ lit combo.name
        ∷ lit "' (kind: "
        ∷ lit combo.kind
        ∷ lit ") with "
        ∷ num (length combo.models)
        ∷ lit " models"
        ∷ [])

abbrev pub with_model : String → Context → Context
with_model model c =
    add_step
      (record c {
        metadata = record c.metadata {
          models_to_try = model ∷ [];
          combo_kind = "direct";
          is_combo = false;
        };
      })
      "Model Resolver" "success" (lit "Direct single model call: " ∷ lit model ∷ [])

unfoldable pub go_direct : Handler → String → Context → World → Outcome
go_direct next model c w =
    next (with_model model c)
      (record w { live = combo_resolved w.live c.live_id model "" "direct" 1 w.now })

-- A combo without models is passed over, as an unknown name is.
unfoldable pub go_combo : Handler → String → Context → World → Option Combo → Outcome
unfolding go_direct
go_combo next model c w none = go_direct next model c w
go_combo next model c w (some combo) = elim combo.models [
  | [] ↦ go_direct next model c w
  | m ∷ rest ↦ next (with_combo combo c) (record w {
    live = combo_resolved w.live c.live_id model combo.name combo.kind (length combo.models) w.now;
  })
]

unfoldable pub resolver : TextOps → Middleware
unfolding go_combo
resolver ops next c w =
    let model = string_at "model" c.request_body in
    if is_empty model
    then return
        (add_step (write_error c 400 (note "Missing model parameter in request body"))
          "Model Resolver" "failed" (note "Missing model parameter"))
        w
    else go_combo next model (record c { original_model = model }) w
        (resolve_combo ops w.config model)
