-- ===== src/Optimizer/Planner.antt =====
-- pkg/optimizer/planner/planner.go: which passes run, and in which order.
use my_ai_router.Common.{
  ℕ, zero, suc, Bool, ◌||◌, ◌&&◌, Option, none, some, String, str_eq, List, [], ◌∷◌, ◌++◌, length,
  get, any, keep_if, if◌then◌else◌, append,
}
use my_ai_router.Config.{PipelineStep}
use my_ai_router.Optimizer.{OptimizationContext, Pass, Registry}

pub record ExecutionPlan : Type 0 where
  pub routed_engine : String
  pub active_passes : List Pass
  pub logs : List String

unfoldable pub is_auto : String → Bool
is_auto engine = str_eq engine "auto" || str_eq engine "smart"

-- The engine that the content asks for, with the line that the plan logs.
unfoldable pub detect_engine : OptimizationContext → String × String
detect_engine c =
    if str_eq c.content_type "json" || (str_eq c.content_type "code" || (c.has_json || c.has_code))
    then ("structure", "Detected high density JSON or source code. Routed to: structure engine.")
    else if str_eq c.content_type "log" || c.has_logs
    then ("tool", "Detected tool commands/terminal output. Routed to: tool engine.")
    else ("fusion", "Detected general unstructured text. Routed to: fusion engine.")

unfoldable pub legacy_engine : String → String
legacy_engine engine =
    if str_eq engine "headroom"
    then "structure"
    else if str_eq engine "rtk"
    then "tool"
    else if str_eq engine "hybrid"
    then "fusion"
    else engine

unfoldable pub route_engine : OptimizationContext → String → String × List String
unfolding is_auto detect_engine legacy_engine
route_engine c engine =
    if is_auto engine
    then ((detect_engine c).0, "Smart routing mode initialized." ∷ (detect_engine c).1 ∷ [])
    else (legacy_engine engine, append "Explicit engine selected: " (legacy_engine engine) ∷ [])

abbrev pub default_passes : List String
default_passes = "tool" ∷ "structure" ∷ "dedup" ∷ "markdown" ∷ []

unfoldable pub candidate_passes : Registry → String → List String
candidate_passes r engine = elim (get engine r.engines) [
  | none ↦ default_passes
  | some names ↦ names
]

-- The names that "rtk" and "headroom" stand for.
unfoldable pub pass_alias : String → String
pass_alias name =
    if str_eq name "rtk" then "tool" else if str_eq name "headroom" then "structure" else name

abbrev pub enables : String → PipelineStep → Bool
enables name step = step.enabled && str_eq (pass_alias step.name) name

unfoldable pub filter_enabled : List PipelineStep → List String → List String
unfolding pass_alias
filter_enabled [] names = names
filter_enabled (s ∷ rest) names = keep_if (λ n. any (enables n) (s ∷ rest)) names

abbrev pub is_precise : String → Bool
is_precise name = str_eq name "tool" || str_eq name "structure"

unfoldable pub apply_goal : String → List String → List String × List String
apply_goal goal names =
    if str_eq goal "speed"
    then (
      keep_if (λ n. str_eq n "tool") names,
      "Goal 'speed' constraint applied: filtering out expensive structural passes." ∷ [],
    )
    else if str_eq goal "accuracy"
    then (
      keep_if is_precise names,
      "Goal 'accuracy' constraint applied: skipping lossy text deduplication." ∷ [],
    )
    else (names, [])

abbrev pub skipped : String → String
skipped name = append "Pass " (append name " skipped: Context check CanRun returned false.")

-- An unknown name is dropped without a word, a pass that cannot run with a line in the log.
unfoldable pub add_pass :
    OptimizationContext → String → Option Pass → List Pass × List String → List Pass × List String
add_pass c name none found = found
add_pass c name (some pass) found =
    if pass.can_run c then (pass ∷ found.0, found.1) else (found.0, skipped name ∷ found.1)

unfoldable pub resolve_passes :
    Registry → OptimizationContext → List String → List Pass × List String
unfolding add_pass
resolve_passes r c [] = ([], [])
resolve_passes r c (name ∷ rest) = add_pass c name (get name r.passes) (resolve_passes r c rest)

unfoldable pub should_swap : Pass → Pass → Bool
unfolding pass_alias
should_swap p1 p2 =
    any (λ n. str_eq (pass_alias n) p2.name) p1.after
    || any (λ n. str_eq (pass_alias n) p1.name) p2.before

-- One round of the inner loop, which carries the pass at `j` along, and all rounds.
unfoldable pub carry : Pass → List Pass → List Pass
unfolding should_swap
carry p [] = p ∷ []
carry p (q ∷ rest) =
    let swapped = carry p rest in
    let kept = carry q rest in if should_swap p q then q ∷ swapped else p ∷ kept

unfoldable pub sweep : List Pass → List Pass
unfolding carry
sweep [] = []
sweep (p ∷ rest) = carry p rest

unfoldable pub sweeps : ℕ → List Pass → List Pass
unfolding sweep
sweeps zero passes = passes
sweeps (suc n) passes = sweeps n (sweep passes)

-- `sortPasses`
unfoldable pub sort_passes : List Pass → List Pass
unfolding sweeps
sort_passes passes = sweeps (length passes) passes

-- `Planner.Plan`
unfoldable pub plan : Registry → OptimizationContext → String → List PipelineStep → ExecutionPlan
unfolding route_engine candidate_passes filter_enabled apply_goal resolve_passes sort_passes
plan r c engine steps =
    let (routed, logs) = route_engine c engine in
    let (names, goal_logs) = apply_goal c.goal (filter_enabled steps (candidate_passes r routed)) in
    let (passes, skips) = resolve_passes r c names in
    record {
      routed_engine = routed;
      active_passes = sort_passes passes;
      logs = logs ++ (goal_logs ++ skips);
    }
