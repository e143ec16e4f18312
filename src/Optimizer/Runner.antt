-- ===== src/Optimizer/Runner.antt =====
-- pkg/optimizer/runner/runner.go: the passes run one after another, each from the last good state.
use my_ai_router.Common.{
  ℕ, Bool, true, false, ◌||◌, not, Option, none, some, String, str_eq, List, [], ◌∷◌, ◌++◌, ltb,
  if◌then◌else◌, Message, lit, num, map,
}
use my_ai_router.Json.{Json}
use my_ai_router.Optimizer.{
  OptimizationContext, PassResult, PassAnswer, failed, answered, Pass, Validator, estimate,
}

pub data Action : Type 0 where
  failed_pass_rollback : String → Action
  rolled_back : String → Action
  applied : String → Action
  global_rollback : String → Action

-- The chain of contexts, of which only the first and the last are read.
pub record Progress : Type 0 where
  pub original : OptimizationContext
  pub current : OptimizationContext
  pub passes : List String
  pub warnings : List Message
  pub log : List Action

-- `GetValidator`
unfoldable pub find_validator : String → List Validator → Option Validator
find_validator name [] = none
find_validator name (v ∷ rest) =
    let later = find_validator name rest in if str_eq v.name name then some v else later

unfoldable pub mark_inflated : PassResult → Option Message → PassResult
mark_inflated res none = res
mark_inflated res (some error) = record res {
  rollback = true;
  warnings = res.warnings ++ error ∷ [];
}

-- What the inflation check adds to a pass's own answer.
unfoldable pub check_inflation :
    Option Validator → OptimizationContext → OptimizationContext → PassResult → PassResult
unfolding mark_inflated
check_inflation none original current res = res
check_inflation (some v) original current res =
    mark_inflated res (v.verify original current.messages res.messages)

abbrev pub keep : String → PassResult → Progress → Progress
keep name res p = record {
  original = p.original;
  current = record p.current { messages = res.messages; estimated_tokens = estimate res.messages };
  passes = p.passes ++ name ∷ [];
  warnings = p.warnings;
  log = p.log ++ applied name ∷ [];
}

abbrev reason : String → Message → Message
reason name w = lit "Pass " ∷ lit name ∷ lit " rollback reason: " ∷ w

abbrev pub roll_back : String → PassResult → Progress → Progress
roll_back name res p = record p {
  log = p.log ++ rolled_back name ∷ [];
  warnings = p.warnings ++ map (reason name) res.warnings;
}

unfoldable pub judge : String → PassResult → Progress → Progress
judge name res p = if res.rollback || not res.success then roll_back name res p else keep name res p

unfoldable pub take_answer : List Validator → Pass → Progress → PassAnswer → Progress
unfolding judge check_inflation find_validator
take_answer validators pass p (failed error) = record p {
  log = p.log ++ failed_pass_rollback pass.name ∷ [];
  warnings = p.warnings ++ (lit "Pass " ∷ lit pass.name ∷ lit " execution error: " ∷ error) ∷ [];
}
take_answer validators pass p (answered res) =
    judge pass.name
      (check_inflation (find_validator "inflation" validators) p.original p.current res) p

-- What a run has written into the messages of the two contexts. Their counts stay.
unfoldable pub written_by : Pass → Progress → Progress
written_by pass p =
    let left = pass.left p.original.messages p.current in
    record p {
      original = record (p.original) { messages = left.original };
      current = record (p.current) { messages = left.current };
    }

unfoldable pub run_pass : List Validator → Pass → Progress → Progress
unfolding take_answer written_by
run_pass validators pass p = take_answer validators pass (written_by pass p) (pass.run p.current)

unfoldable pub run_passes : List Validator → List Pass → Progress → Progress
unfolding run_pass
run_passes validators [] p = p
run_passes validators (pass ∷ rest) p = run_passes validators rest (run_pass validators pass p)

pub record OptimizationReport : Type 0 where
  pub messages : List Json
  pub original_tokens : ℕ
  pub optimized_tokens : ℕ
  pub passes : List String
  pub warnings : List Message
  pub validation_success : Bool
  pub log : List Action

abbrev pub report_of : OptimizationContext → Progress → Bool → OptimizationReport
report_of final p success = record {
  messages = final.messages;
  original_tokens = p.original.estimated_tokens;
  optimized_tokens = final.estimated_tokens;
  passes = p.passes;
  warnings = p.warnings;
  validation_success = success;
  log = p.log;
}

-- The loop over the registered validators: the first error brings the original messages back.
unfoldable pub validate : List Validator → Progress → OptimizationReport
validate [] p = report_of p.current p true
validate (v ∷ rest) p =
    let later = validate rest p in
    elim (v.verify p.current p.original.messages p.current.messages) [
      | none ↦ later
      | some error ↦
          report_of p.original
            (record p {
              log = p.log ++ global_rollback v.name ∷ [];
              warnings =
                  p.warnings
                  ++ (lit "Validation failed on validator '"
                      ∷ lit v.name
                      ∷ lit "': "
                      ∷ (error ++ lit ". Prompt reverted." ∷ []))
                    ∷ [];
            })
            false
    ]

abbrev pub begin : OptimizationContext → Progress
begin original = record {
  original = original;
  current = original;
  passes = [];
  warnings = [];
  log = [];
}

-- `Runner.Run`
unfoldable pub optimize : List Validator → OptimizationContext → List Pass → OptimizationReport
unfolding run_passes validate
optimize validators original passes =
    validate validators (run_passes validators passes (begin original))

-- `InflationValidator`
unfoldable pub inflation_error : List Json → List Json → Option Message
inflation_error before after =
    if ltb (estimate before) (estimate after)
    then some (
        lit "token size inflated from "
        ∷ num (estimate before)
        ∷ lit " to "
        ∷ num (estimate after)
        ∷ [])
    else none

abbrev pub inflation : Validator
inflation = record { name = "inflation"; verify = λ c before after. inflation_error before after }
