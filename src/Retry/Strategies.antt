-- ===== src/Retry/Strategies.antt =====
-- internal/gateway/middleware/retry.go: the strategies that run several child attempts at once.
-- Which child comes back when is the environment's choice: a schedule lists the children in the order
-- in which they report. A child runs at the moment at which it reports. Those that report behind the
-- answer change only what requests share.
use my_ai_router.Common.{
  ℕ, Bool, ◌&&◌, not, List, [], ◌∷◌, ◌++◌, String, Message, lit, num, note, ltb, leb, length, len,
  is_empty, str_eq, if◌then◌else◌,
}
use my_ai_router.Context.{Context, Target, add_step, write_error}
use my_ai_router.Pipeline.{World, Outcome, Handler, Middleware, return}
use my_ai_router.Retry.Child.{Report, Child, run_child, apply_winner, apply_failure}

-- The two channels, with what the children have written to the parent request and to the World.
pub record Board : Type 0 where
  pub ctx : Context
  pub world : World
  pub results : List Report
  pub failures : List Report

abbrev pub open_board : Context → World → Board
open_board c w = record { ctx = c; world = w; results = []; failures = [] }

abbrev pub post : Board → Child → Board
post b child =
    let noted = record b.ctx { target_attempts = b.ctx.target_attempts ++ child.report.attempts } in
    if child.ok
    then record {
      ctx = noted;
      world = child.world;
      results = b.results ++ child.report ∷ [];
      failures = b.failures;
    }
    else record {
      ctx = noted;
      world = child.world;
      results = b.results;
      failures = b.failures ++ child.report ∷ [];
    }

-- The first success cancels the context of all children: a deadline at the zero time.
abbrev pub cancelled : Context → List ℕ
cancelled c = 0 ∷ c.deadlines

abbrev pub child_deadlines : Context → List Report → List ℕ
child_deadlines c [] = c.deadlines
child_deadlines c (r ∷ rs) = cancelled c

unfoldable pub arrive : Handler → Context → List ℕ → Board → Target → Board
unfolding run_child
arrive next c deadlines b t = post b (run_child next c deadlines c.request_body t b.world)

unfoldable pub arrive_all : Handler → Context → Board → List Target → Board
unfolding arrive
arrive_all next c b [] = b
arrive_all next c b (t ∷ rest) =
    arrive_all next c (arrive next c (child_deadlines c b.results) b t) rest

-- The children that are left when the strategy returns, which cancels their context.
unfoldable pub abandon : Handler → Context → Board → List Target → World
unfolding arrive
abandon next c b [] = b.world
abandon next c b (t ∷ rest) = abandon next c (arrive next c (cancelled c) b t) rest

abbrev pub last_of : Report → List Report → Report
last_of r [] = r
last_of r (q ∷ rest) = last_of q rest

-- The drain of the channel of failures.
unfoldable pub close_failed : Context → List Report → String → ℕ → String → Context
unfolding apply_failure
close_failed c [] step code text = write_error c code (note text)
close_failed c (r ∷ rest) step code text = apply_failure c (last_of r rest) step

unfoldable pub close_reports :
    Context → (Report → Message) → String → ℕ → String → List Report → List Report → Context
unfolding close_failed apply_winner
close_reports c won step code text [] failures = close_failed c failures step code text
close_reports c won step code text (r ∷ rest) failures = apply_winner c r (won r) step

unfoldable pub close : Board → World → (Report → Message) → String → ℕ → String → Outcome
unfolding close_reports
close b w won step code text =
    return (close_reports b.ctx won step code text b.results b.failures) w

-- The children that report in time, and those that report behind the answer. `early` says that the
-- primary of a race reports before the hedge is launched, `late` that the answer comes at the deadline.
pub record Schedule : Type 0 where
  pub early : Bool
  pub late : Bool
  pub before : List Target
  pub behind : List Target

abbrev race_step : String
race_step = "Race (Hedged)"

abbrev hedged : Schedule → Report → Message
hedged s r =
    lit "Hedged model "
    ∷ lit r.target.model_name
    ∷ lit (if s.late then " won race (late)" else " won race")
    ∷ []

abbrev primary_won : Report → Message
primary_won r = lit "Primary model " ∷ lit r.target.model_name ∷ lit " won race" ∷ []

unfoldable pub hedge : Schedule → Handler → Context → Board → Outcome
unfolding arrive_all abandon close
hedge s next c b =
    let told = record b {
      ctx = add_step b.ctx race_step "info" (note "Primary slow (>400ms), hedging 2nd model");
    } in
    let raced = arrive_all next c told s.before in
    close raced (abandon next c raced s.behind) (hedged s) race_step 504
      "Race hedged requests timed out"

-- `executeRaceStrategy`, for the primary and the targets behind it. A primary that fails early still
-- waits for the timer of 400 ms.
unfoldable pub race : Schedule → Target → List Target → Middleware
unfolding hedge arrive close
race s primary rest next c w =
    let told = add_step c race_step "info" (
      lit "Launching hedged race across "
      ∷ num (length (primary ∷ rest))
      ∷ lit " models with 400ms delay"
      ∷ []) in
    let b = open_board told w in
    let first = arrive next c c.deadlines b primary in
    if s.early
    then elim first.results [
      | [] ↦ hedge s next c first
      | r ∷ others ↦ close first first.world primary_won race_step 504 ""
    ]
    else hedge s next c b

abbrev pub parallel_step : String
parallel_step = "Parallel Execution"

abbrev pub fastest : Schedule → Report → Message
fastest s r =
    lit "Fastest model "
    ∷ lit r.target.model_name
    ∷ lit (if s.late then " returned response (late)" else " returned response")
    ∷ []

abbrev pub dispatched : List Target → Context → World → Board
dispatched targets c w =
    open_board
      (add_step c parallel_step "info"
        (lit "Dispatching parallel requests to " ∷ num (length targets) ∷ lit " models" ∷ []))
      w

-- `executeParallelStrategy`: it ends with the first success, with the last failure of all targets, or
-- at the policy's final timeout.
unfoldable pub parallel : Schedule → List Target → Middleware
unfolding arrive_all abandon close
parallel s targets next c w =
    let ran = arrive_all next c (dispatched targets c w) s.before in
    let settled = abandon next c ran s.behind in
    if leb (length targets) (length ran.failures)
    then close ran settled (fastest s) parallel_step 503 "All concurrent target models failed"
    else close ran settled (fastest s) parallel_step 504 "Parallel request execution timed out"

-- The children of an ensemble share the parent's context: none is cancelled, and a success counts only
-- with a body.
unfoldable pub gather : Handler → Context → Board → List Target → Board
unfolding run_child
gather next c b [] = b
gather next c b (t ∷ rest) =
    let child = run_child next c c.deadlines c.request_body t b.world in
    gather next c
      (post b (record child { ok = child.ok && not (is_empty child.report.response_body) })) rest

-- The longest body; among equals the one that came first.
unfoldable pub longest : Report → List Report → Report
longest best [] = best
longest best (r ∷ rest) =
    longest (if ltb (len best.response_body) (len r.response_body) then r else best) rest

abbrev ensemble_step : String
ensemble_step = "Ensemble Synthesis"

unfoldable pub select_best : Board → Context
unfolding longest apply_winner
select_best b = elim b.results [
  | [] ↦ write_error b.ctx 503 (note "All ensemble target models failed")
  | r ∷ rest ↦
      let best = longest r rest in
      apply_winner b.ctx best
        (lit "Selected top ensemble response from "
          ∷ lit best.target.model_name
          ∷ lit " ("
          ∷ num (length (r ∷ rest))
          ∷ lit " models consensus)"
          ∷ [])
        ensemble_step
]

-- `executeEnsembleStrategy`: every child reports before the answer is chosen.
unfoldable pub ensemble : Schedule → List Target → Middleware
unfolding gather select_best
ensemble s targets next c w =
    let told =
      add_step c ensemble_step "info"
        (lit "Querying " ∷ num (length targets) ∷ lit " models for consensus ensemble" ∷ []) in
    let ran = gather next c (open_board told w) s.before in return (select_best ran) ran.world

-- The dispatch of `Retry` on the kind, for a route with two targets or more.
unfoldable pub concurrent : Schedule → String → Target → List Target → Middleware
unfolding race parallel ensemble
concurrent s kind primary rest next c w =
    if str_eq kind "race"
    then race s primary rest next c w
    else if str_eq kind "parallel"
    then parallel s (primary ∷ rest) next c w
    else ensemble s (primary ∷ rest) next c w
