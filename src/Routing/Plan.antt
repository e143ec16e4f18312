-- ===== src/Routing/Plan.antt =====
-- What the routing middleware hands on.
use mathlib.Core.List.{Perm, perm_middle}
use mathlib.Core.List.Perm
use my_ai_router.Common.{
  ℕ, sym, subst, Bool, Bool-cases, inl, inr, List, ◌∷◌, ◌++◌, String, length, str_eq, ltb, TextOps,
}
use my_ai_router.Context.{Context}
use my_ai_router.Routing.Models.{next_counter}
use my_ai_router.Routing.Turns.{Ranked, balance-perm, classify_and_rank-Ranked}
use my_ai_router.Routing.Route.{order_models}

Ranked-perm :
    (good : String → Bool) (models result : List String)
    → Ranked good models result
    → Perm result models
Ranked-perm good models result (inl (_, e)) = subst (Perm result) e (Perm.refl result)
Ranked-perm good models result (inr (before, m, after, fit, e)) =
    subst (Perm result) (sym fit.0)
      (subst (λ l. Perm l (before ++ m ∷ after)) (sym e) (Perm.symm (perm_middle before after)))

-- Whatever the kind of the route, its models are tried in some order: none is lost, none is added.
pub order_models-perm :
    (ops : TextOps) (c : Context) (counter : ℕ)
    → Perm (order_models ops c counter).models c.metadata.models_to_try
unfolding order_models
order_models-perm ops c counter = elim (Bool-cases (ltb 1 (length c.metadata.models_to_try))) [
  | inr few ↦ rw few (Perm.refl _)
  | inl many ↦ elim (Bool-cases (str_eq c.metadata.combo_kind "smart")) [
    | inl smart ↦
        rw (many, smart)
          (Ranked-perm _ _ _ (classify_and_rank-Ranked ops c.request_body c.metadata.models_to_try))
    | inr plain ↦ elim (Bool-cases (str_eq c.metadata.combo_kind "load_balance")) [
      | inl turns ↦
          rw (many, plain, turns) (balance-perm (next_counter counter) c.metadata.models_to_try)
      | inr neither ↦ rw (many, plain, neither) (Perm.refl _)
    ]
  ]
]
