-- ===== src/Examples/Concurrent.antt =====
-- Runs of the strategies that try several targets at once.
use my_ai_router.Common.{
  ℕ, ◌≡◌, refl, true, false, some, String, List, [], ◌∷◌, ◌==◌, if◌then◌else◌, arith,
}
use my_ai_router.Health.{in_cooldown}
use my_ai_router.Context.{Context, raw, new_socket, empty_metadata, send, clone_for_target}
use my_ai_router.Pipeline.{Handler, Outcome, World, return}
use my_ai_router.Retry.Child.{Report, replay}
use my_ai_router.Retry.Strategies.{
  Board, Schedule, arrive, child_deadlines, dispatched, open_board, parallel, select_best,
}
use my_ai_router.Retry.Parallel.{Answers, parallel-Answers}
use my_ai_router.Retry.Ensemble.{Best, select_best-Best}
use my_ai_router.Retry.Replay.{header, piece, write_all, replay-write_all}
use my_ai_router.Retry.Unrecorded.{FailsCancelled, loser_cools_down}
use my_ai_router.Examples.{quiet_world, request_for, target, two_targets}

-- An upstream that answers, but fails under a context that is cancelled.
abbrev unless_cancelled : List ℕ → Context → World → Outcome
unless_cancelled [] c w = return (record c { response_code = 200; response_body = "hi" }) w
unless_cancelled (d ∷ rest) c w =
    if d == 0
    then record { error = some "context canceled"; ctx = c; world = w }
    else return (record c { response_code = 200; response_body = "hi" }) w

abbrev patient : Handler
patient c w = unless_cancelled c.deadlines c w

abbrev in_order : Schedule
in_order = record { early = false; late = false; before = two_targets; behind = [] }

abbrev request : Context
request = request_for "fast"

parallel-Answers_example :
    (code : ℕ) × Answers patient request
      (dispatched two_targets request quiet_world)
      in_order.before
      code
      (parallel in_order two_targets patient request quiet_world)
parallel-Answers_example = parallel-Answers in_order two_targets patient request quiet_world

abbrev report : String → String → Report
report id body = record {
  target = target id "openai" "gpt-4o";
  response_code = 200;
  response_body = body;
  recorded = send 200 (raw body) new_socket;
  metadata = empty_metadata;
  attempts = [];
  prompt_tokens = 1;
  completion_tokens = 1;
  cached_tokens = 0;
  ttfb_ms = 5;
  steps = [];
}

abbrev three_reports : Board
three_reports = record (open_board request quiet_world) {
  results = report "a1" "hi" ∷ report "b1" "hello" ∷ report "c1" "howdy" ∷ [];
}

select_best-Best_example :
    (best : Report) × Best (report "a1" "hi") (report "b1" "hello" ∷ report "c1" "howdy" ∷ []) best
    × ((select_best three_reports).socket ≡ replay best.recorded request.socket)
    × ((select_best three_reports).connection ≡ some best.target.connection)
    × ((select_best three_reports).response_code ≡ best.response_code)
select_best-Best_example =
    select_best-Best three_reports (report "a1" "hi")
      (report "b1" "hello" ∷ report "c1" "howdy" ∷ []) refl

replay-write_all_example :
    replay
      (write_all (header 429 ∷ piece (raw "slow") ∷ piece (raw " down") ∷ []) new_socket)
      request.socket
    ≡ write_all (header 429 ∷ piece (raw "slow") ∷ piece (raw " down") ∷ []) request.socket
replay-write_all_example =
    replay-write_all (header 429) (piece (raw "slow") ∷ piece (raw " down") ∷ []) request.socket

patient-FailsCancelled : FailsCancelled patient
patient-FailsCancelled c deadlines w e = rw e refl

abbrev won_board : Board
won_board = record (open_board request quiet_world) { results = report "a1" "hi" ∷ [] }

loser_cools_down_example :
    let loser = target "b1" "anthropic" "claude" in
    in_cooldown
      (arrive patient request
        (child_deadlines request won_board.results)
        won_board
        loser).world.health
      "b1"
      1_000_000_000_001
    ≡ true
unfolding arrive clone_for_target
loser_cools_down_example =
    loser_cools_down patient request won_board (report "a1" "hi") []
      (target "b1" "anthropic" "claude") 1_000_000_000_001 patient-FailsCancelled refl (omega arith)
