-- ===== src/Rtk.antt =====
-- pkg/rtk/filters.go: the filters that shorten the outputs of tools. The filters of `ls` and of
-- `git log`, which match regular expressions, are left out. `show` prints a number.
pub mod Diff
pub mod Bounds
use my_ai_router.Common.{
  ℕ, zero, suc, ◌+◌, ◌-◌, Bool, true, false, ◌&&◌, not, Option, none, some, String, append,
  contains, is_empty, List, [], ◌∷◌, ◌++◌, length, take, drop, ltb, leb, split_lines, TextOps,
  if◌then◌else◌,
}
use my_ai_router.Optimizer.Dedup.{dedup_log, join_lines}

abbrev pub is_blank : TextOps → String → Bool
is_blank ops line = is_empty (ops.trim_space line)

abbrev is_summary : String → Bool
is_summary line = contains line "director" && contains line "file"

-- The lines without the summaries and without the empty lines in front. `seen` says whether a line
-- has been kept.
unfoldable pub tree_lines : TextOps → Bool → List String → List String
tree_lines ops seen [] = []
tree_lines ops seen (line ∷ rest) =
    let dropped = tree_lines ops seen rest in
    let kept = line ∷ tree_lines ops true rest in
    if is_summary line then dropped else if is_blank ops line && not seen then dropped else kept

-- The lines without the empty lines at the end.
unfoldable pub drop_trailing : TextOps → List String → List String
drop_trailing ops [] = []
drop_trailing ops (line ∷ rest) = elim (drop_trailing ops rest) [
  | [] ↦ if is_blank ops line then [] else line ∷ []
  | x ∷ more ↦ line ∷ x ∷ more
]

-- `FilterTree`
unfoldable pub filter_tree : TextOps → (ℕ → String) → String → String
unfolding tree_lines drop_trailing
filter_tree ops show input =
    let kept = drop_trailing ops (tree_lines ops false (split_lines input)) in
    if ltb 250 (length kept)
    then append (join_lines (take 250 kept))
        (append "\n... +" (append (show (length kept - 250)) " more lines"))
    else join_lines kept

-- The loop over the hits. `count` is the number of hits so far.
unfoldable pub grep_lines : TextOps → (ℕ → String) → ℕ → ℕ → List String → List String
grep_lines ops show total count [] = []
grep_lines ops show total count (line ∷ rest) =
    let skipped = grep_lines ops show total count rest in
    let later = grep_lines ops show total (suc count) rest in
    if is_blank ops line
    then skipped
    else line
      ∷ (if leb 150 (suc count)
          then append "... +" (append (show (total - suc count)) " more grep hits truncated") ∷ []
          else later)

-- `FilterGrep`
unfoldable pub filter_grep : TextOps → (ℕ → String) → String → String
unfolding grep_lines
filter_grep ops show input =
    let lines = split_lines input in join_lines (grep_lines ops show (length lines) 0 lines)

-- `FilterSmartTruncate`
unfoldable pub filter_smart_truncate : (ℕ → String) → String → String
filter_smart_truncate show input =
    let lines = split_lines input in
    let middle =
      append "\n... [" (append (show (length lines - 80)) " lines truncated for tokens] ...\n") in
    if leb (length lines) 100
    then input
    else append (join_lines (take 40 lines))
        (append middle (join_lines (drop (length lines - 40) lines)))

-- `FilterDedupLog`, which is the loop of the optimizer's pass at the threshold 3.
unfoldable pub filter_dedup_log : (String → String) → (ℕ → String) → String → String
filter_dedup_log key repeated input = dedup_log key repeated 3 input
