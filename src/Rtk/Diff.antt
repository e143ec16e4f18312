-- ===== src/Rtk/Diff.antt =====
-- pkg/rtk/filters.go: `FilterGitDiff`.
use my_ai_router.Common.{
  ℕ, suc, ◌+◌, Bool, true, false, ◌&&◌, ◌||◌, not, none, some, String, append, len, slice, find?,
  is_empty, has_prefix, List, [], ◌∷◌, ◌++◌, length, ltb, leb, split_lines, if◌then◌else◌,
}
use my_ai_router.Optimizer.Dedup.{join_lines}

abbrev pub max_hunk_lines : ℕ
max_hunk_lines = 10

abbrev pub max_total_lines : ℕ
max_total_lines = 300

-- The variables of the loop.
pub record DiffState : Type 0 where
  pub result : List String
  pub current_file : String
  pub added : ℕ
  pub removed : ℕ
  pub in_hunk : Bool
  pub hunk_shown : ℕ
  pub hunk_skipped : ℕ
  pub was_truncated : Bool

abbrev pub no_diff : DiffState
no_diff = record {
  result = [];
  current_file = "";
  added = 0;
  removed = 0;
  in_hunk = false;
  hunk_shown = 0;
  hunk_skipped = 0;
  was_truncated = false;
}

unfoldable pub put_line : String → DiffState → DiffState
put_line line s = record s { result = s.result ++ line ∷ [] }

-- The note on the lines that the last hunk has left out.
unfoldable pub note_skipped : (ℕ → String) → DiffState → DiffState
unfolding put_line
note_skipped show s =
    if ltb 0 s.hunk_skipped
    then record (put_line (append "  ... (" (append (show s.hunk_skipped) " lines truncated)")) s) {
      was_truncated = true;
      hunk_skipped = 0;
    }
    else s

-- The counts of the last file.
unfoldable pub note_counts : (ℕ → String) → DiffState → DiffState
unfolding put_line
note_counts show s =
    if not (is_empty s.current_file) && (ltb 0 s.added || ltb 0 s.removed)
    then put_line (append "  +" (append (show s.added) (append " -" (show s.removed)))) s
    else s

-- The name behind the first " b/".
abbrev pub file_name : String → String
file_name line = elim (find? line " b/") [
  | none ↦ "unknown"
  | some i ↦ slice line (i + 3) (len line)
]

unfoldable pub open_file : (ℕ → String) → String → DiffState → DiffState
unfolding note_skipped note_counts put_line
open_file show line s =
    let named = record (note_counts show (note_skipped show s)) { current_file = file_name line } in
    record (put_line (append "\n" named.current_file) named) {
      added = 0;
      removed = 0;
      in_hunk = false;
      hunk_shown = 0;
    }

unfoldable pub open_hunk : (ℕ → String) → String → DiffState → DiffState
unfolding note_skipped put_line
open_hunk show line s =
    put_line (append "  " line) (record (note_skipped show s) { in_hunk = true; hunk_shown = 0 })

-- A changed line is shown while the hunk has room.
unfoldable pub show_change : String → DiffState → DiffState
unfolding put_line
show_change line s =
    if ltb s.hunk_shown max_hunk_lines
    then record (put_line (append "  " line) s) { hunk_shown = suc s.hunk_shown }
    else record s { hunk_skipped = suc s.hunk_skipped }

-- A line of context is shown only behind a change.
unfoldable pub show_context : String → DiffState → DiffState
unfolding put_line
show_context line s =
    if ltb s.hunk_shown max_hunk_lines && (not (has_prefix line "\\") && ltb 0 s.hunk_shown)
    then record (put_line (append "  " line) s) { hunk_shown = suc s.hunk_shown }
    else s

unfoldable pub hunk_line : String → DiffState → DiffState
unfolding show_change show_context
hunk_line line s =
    if has_prefix line "+" && not (has_prefix line "+++")
    then show_change line (record s { added = suc s.added })
    else if has_prefix line "-" && not (has_prefix line "---")
    then show_change line (record s { removed = suc s.removed })
    else show_context line s

unfoldable pub diff_line : (ℕ → String) → String → DiffState → DiffState
unfolding open_file open_hunk hunk_line
diff_line show line s =
    if has_prefix line "diff --git"
    then open_file show line s
    else if has_prefix line "@@"
    then open_hunk show line s
    else if s.in_hunk
    then hunk_line line s
    else s

-- The loop, which ends early where the result is long.
unfoldable pub diff_lines : (ℕ → String) → List String → DiffState → DiffState
unfolding diff_line put_line
diff_lines show [] s = s
diff_lines show (line ∷ rest) s =
    let next = diff_line show line s in
    let later = diff_lines show rest next in
    if leb max_total_lines (length next.result)
    then record (put_line "\n... (more changes truncated)" next) { was_truncated = true }
    else later

unfoldable pub close_diff : (ℕ → String) → DiffState → List String
unfolding note_skipped note_counts
close_diff show s =
    let closed = note_counts show (note_skipped show s) in
    if closed.was_truncated
    then closed.result ++ "[full diff: rtk git diff --no-compact]" ∷ []
    else closed.result

-- The lines of the answer.
unfoldable pub diff_result : (ℕ → String) → List String → List String
unfolding diff_lines close_diff
diff_result show lines = close_diff show (diff_lines show lines no_diff)

-- `FilterGitDiff`
unfoldable pub filter_git_diff : (ℕ → String) → String → String
unfolding diff_result
filter_git_diff show diff = join_lines (diff_result show (split_lines diff))
