-- ===== src/Optimizer/Dedup.antt =====
-- pkg/optimizer/passes/dedup.go: the pass that collapses repeated lines of logs. `key` stands for the
-- line without its surrounding space and with an X for each digit.
use my_ai_router.Common.{
  ℕ, zero, suc, ◌-◌, ◌||◌, none, some, String, append, str_eq, len, is_empty, List, [], ◌∷◌, ◌++◌,
  length, take, drop, ltb, split_lines, if◌then◌else◌,
}
use my_ai_router.Json.{Json, Fields, object, string, member, set_member, as_string}

-- How many lines at the start of a list are the same but for digits and surrounding space. An empty
-- line ends them.
unfoldable pub run_length : (String → String) → String → List String → ℕ
run_length key first [] = 0
run_length key first (line ∷ rest) =
    let more = suc (run_length key first rest) in
    if is_empty (key line) then 0 else if str_eq (key line) first then more else 0

-- The lines that stand for a run of `count` lines, the first of which is given.
unfoldable pub collapsed : (ℕ → String) → ℕ → String → List String → List String
collapsed repeated count line rest = line ∷ (take 1 rest ++ repeated (count - 2) ∷ [])

-- What the line at hand and its run become, in front of what the lines behind it become: `next`
-- behind the line alone, `later` behind the run.
unfoldable pub put_run :
    (String → String)
    → (ℕ → String)
    → ℕ
    → String
    → List String
    → List String
    → List String
    → List String
unfolding collapsed
put_run key repeated threshold line others next later =
    if is_empty (key line)
    then line ∷ next
    else if ltb threshold (suc (length others))
    then collapsed repeated (suc (length others)) line others ++ later
    else line ∷ (others ++ later)

-- The loop over the lines, with fuel. `repeated` prints the number of lines left out.
unfoldable pub dedup_within : (String → String) → (ℕ → String) → ℕ → ℕ → List String → List String
unfolding run_length put_run
dedup_within key repeated threshold fuel [] = []
dedup_within key repeated threshold zero (line ∷ rest) = line ∷ rest
dedup_within key repeated threshold (suc fuel) (line ∷ rest) =
    let others = run_length key (key line) rest in
    put_run key repeated threshold line (take others rest)
      (dedup_within key repeated threshold fuel rest)
      (dedup_within key repeated threshold fuel (drop others rest))

-- Each round takes a line, so the number of lines bounds the number of rounds.
unfoldable pub dedup_lines : (String → String) → (ℕ → String) → ℕ → List String → List String
unfolding dedup_within
dedup_lines key repeated threshold lines = dedup_within key repeated threshold (length lines) lines

unfoldable pub join_lines : List String → String
join_lines [] = ""
join_lines (x ∷ []) = x
join_lines (x ∷ y ∷ rest) = append x (append "\n" (join_lines (y ∷ rest)))

-- `dedupLogWithThreshold`
unfoldable pub dedup_log : (String → String) → (ℕ → String) → ℕ → String → String
unfolding dedup_lines join_lines
dedup_log key repeated threshold input =
    let lines = split_lines input in
    if ltb (length lines) 10 then input else join_lines (dedup_lines key repeated threshold lines)

-- The threshold of the pass, by the goal and the profile of the request.
unfoldable pub dedup_threshold : String → String → ℕ
dedup_threshold goal profile =
    if str_eq goal "accuracy"
    then 100
    else if str_eq profile "lite"
    then 10
    else if str_eq profile "extreme" || str_eq goal "cost"
    then 1
    else 3

unfoldable pub dedup_content : (String → String) → (ℕ → String) → ℕ → Fields → Fields
unfolding dedup_log
dedup_content key repeated threshold m = elim (as_string (member "content" m)) [
  | none ↦ m
  | some content ↦
      let deduped = dedup_log key repeated threshold content in
      if ltb (len content) 200
      then m
      else if ltb (len deduped) (len content)
      then set_member "content" (string deduped) m
      else m
]

-- The messages behind `DedupPass.Run`.
unfoldable pub dedup_messages : (String → String) → (ℕ → String) → ℕ → List Json → List Json
unfolding dedup_content
dedup_messages key repeated threshold [] = []
dedup_messages key repeated threshold (object m ∷ rest) =
    object (dedup_content key repeated threshold m) ∷ dedup_messages key repeated threshold rest
dedup_messages key repeated threshold (x ∷ rest) = x ∷ dedup_messages key repeated threshold rest
