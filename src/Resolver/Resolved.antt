-- ===== src/Resolver/Resolved.antt =====
-- What the resolver hands on.
use my_ai_router.Common.{
  ◌≡◌, ◌⊎◌, refl, eq_iff, inl, inr, Bool-cases, Option, none, some, List, [], ◌∷◌, String, is_empty,
  TextOps,
}
use my_ai_router.Json.{string_at}
use my_ai_router.Config.{Combo, resolve_combo}
use my_ai_router.Context.{Context, add_step}
use my_ai_router.Pipeline.{World, Handler, Outcome}
use my_ai_router.Resolver.{resolver, go_combo, go_direct}

-- The handler's answer is that of `next` for a request that has at least one model to try.
abbrev pub GoesOn : Handler → Outcome → Type 0
GoesOn next o =
    (c : Context) × (w : World) × (o ≡ next c w)
    × (m : String) × (rest : List String) × (c.metadata.models_to_try ≡ m ∷ rest)

go_combo_full :
    (next : Handler) (model : String) (c : Context) (w : World) (combo : Combo)
    (models : List String)
    → combo.models ≡ models
    → GoesOn next (go_combo next model c w (some combo))
unfolding go_combo go_direct add_step
go_combo_full next model c w combo [] e = rw e (_, _, refl, model, [], refl)
go_combo_full next model c w combo (m ∷ rest) e = simp e (_, _, refl, m, rest, refl)

go_combo-GoesOn :
    (next : Handler) (model : String) (c : Context) (w : World) (combo : Option Combo)
    → GoesOn next (go_combo next model c w combo)
unfolding go_combo go_direct add_step
go_combo-GoesOn next model c w none = (_, _, refl, model, [], refl)
go_combo-GoesOn next model c w (some combo) = go_combo_full next model c w combo combo.models refl

-- A request without a model name is answered at once, whatever stands behind the resolver, and
-- any other goes on with at least one model to try, also where its combo is empty.
pub resolver-GoesOn :
    (ops : TextOps) (next : Handler) (c : Context) (w : World)
    → ((string_at "model" c.request_body ≡ "")
        × ((other : Handler) → resolver ops next c w ≡ resolver ops other c w))
      ⊎ GoesOn next (resolver ops next c w)
unfolding resolver
resolver-GoesOn ops next c w = elim (Bool-cases (is_empty (string_at "model" c.request_body))) [
  | inl missing ↦
      inl ((eq_iff (string_at "model" c.request_body) "").0 missing, λ other. rw missing refl)
  | inr named ↦ rw named (
      inr (
        go_combo-GoesOn next (string_at "model" c.request_body)
          (record c { original_model = string_at "model" c.request_body }) w
          (resolve_combo ops w.config (string_at "model" c.request_body))))
]
