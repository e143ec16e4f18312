-- ===== src/Optimizer/Plans.antt =====
-- What the planner chooses.
use mathlib.Core.List.{Perm}
use mathlib.Core.List.Perm
use my_ai_router.Common.{
  ℕ, zero, suc, ◌≡◌, refl, inl, inr, true, Bool-cases, Option, none, some, List, [], ◌∷◌, All,
  String, get, length,
}
use my_ai_router.Config.{PipelineStep}
use my_ai_router.Optimizer.{OptimizationContext, Pass, Registry}
use my_ai_router.Optimizer.Planner.{
  should_swap, carry, sweep, sweeps, sort_passes, add_pass, resolve_passes, plan, route_engine,
  apply_goal, filter_enabled, candidate_passes,
}

carry-perm : (p : Pass) (rest : List Pass) → Perm (carry p rest) (p ∷ rest)
unfolding carry
carry-perm p [] = Perm.refl _
carry-perm p (q ∷ rest) = elim (Bool-cases (should_swap p q)) [
  | inl swap ↦ rw swap (Perm.trans (Perm.cons q (carry-perm p rest)) (Perm.swap p q rest))
  | inr keep ↦ rw keep (Perm.cons p (carry-perm q rest))
]

sweep-perm : (passes : List Pass) → Perm (sweep passes) passes
unfolding sweep
sweep-perm [] = Perm.refl _
sweep-perm (p ∷ rest) = carry-perm p rest

sweeps-perm : (n : ℕ) (passes : List Pass) → Perm (sweeps n passes) passes
unfolding sweeps
sweeps-perm zero passes = Perm.refl _
sweeps-perm (suc n) passes = Perm.trans (sweeps-perm n (sweep passes)) (sweep-perm passes)

-- A pass of the registry, under some name, whose own check accepts the context.
abbrev pub Usable : Registry → OptimizationContext → Pass → Type 0
Usable r c p = (p.can_run c ≡ true) × ((name : String) × (get name r.passes ≡ some p))

add_pass-Usable :
    (r : Registry) (c : OptimizationContext) (name : String) (o : Option Pass)
    (found : List Pass × List String)
    → get name r.passes ≡ o
    → All (Usable r c) found.0
    → All (Usable r c) (add_pass c name o found).0
unfolding add_pass
add_pass-Usable r c name none found here h = h
add_pass-Usable r c name (some pass) found here h = elim (Bool-cases (pass.can_run c)) [
  | inl able ↦ simp able ((refl, (name, here)), h)
  | inr unable ↦ simp unable h
]

resolve_passes-Usable :
    (r : Registry) (c : OptimizationContext) (names : List String)
    → All (Usable r c) (resolve_passes r c names).0
unfolding resolve_passes
resolve_passes-Usable r c [] = tt
resolve_passes-Usable r c (name ∷ rest) =
    add_pass-Usable r c name (get name r.passes) (resolve_passes r c rest) refl
      (resolve_passes-Usable r c rest)

abbrev chosen : Registry → OptimizationContext → String → List PipelineStep → List String
chosen r c engine steps =
    (apply_goal c.goal (filter_enabled steps (candidate_passes r (route_engine c engine).0))).0

-- The passes of a plan are, in some order, registered passes that can run in the context.
pub plan-Usable :
    (r : Registry) (c : OptimizationContext) (engine : String) (steps : List PipelineStep)
    → (usable : List Pass) × All (Usable r c) usable
      × Perm (plan r c engine steps).active_passes usable
unfolding plan sort_passes
plan-Usable r c engine steps =
    let usable = (resolve_passes r c (chosen r c engine steps)).0 in
    (
      usable,
      resolve_passes-Usable r c (chosen r c engine steps),
      sweeps-perm (length usable) usable,
    )
