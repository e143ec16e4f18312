-- ===== src/Rtk/Bounds.antt =====
-- How long the answers of the filters are.
use my_ai_router.Common.{
  ℕ, suc, ◌+◌, ◌≤◌, ◌<◌, ◌≡◌, inl, inr, Bool, true, false, Bool-cases, ◌&&◌, ◌||◌, not, String,
  append, is_empty, has_prefix, List, [], ◌∷◌, length, length-append, ltb, leb, if◌then◌else◌,
  arith,
}
use my_ai_router.Rtk.Diff.{
  DiffState, no_diff, put_line, note_skipped, note_counts, open_file, open_hunk, show_change,
  show_context, hunk_line, diff_line, diff_lines, close_diff, diff_result, max_hunk_lines,
  max_total_lines, file_name,
}

-- The state has at most so many lines more than before.
abbrev Grows : ℕ → DiffState → DiffState → Type 0
Grows n s t = length t.result ≤ n + length s.result

put_line-Grows : (line : String) (s : DiffState) → Grows 1 s (put_line line s)
unfolding put_line
put_line-Grows line s = omega (arith, length-append s.result (line ∷ []))

note_skipped-Grows : (show : ℕ → String) (s : DiffState) → Grows 1 s (note_skipped show s)
unfolding note_skipped
note_skipped-Grows show s = elim (Bool-cases (ltb 0 s.hunk_skipped)) [
  | inl e ↦
      rw e (put_line-Grows (append "  ... (" (append (show s.hunk_skipped) " lines truncated)")) s)
  | inr e ↦ rw e (omega arith)
]

note_counts-Grows : (show : ℕ → String) (s : DiffState) → Grows 1 s (note_counts show s)
unfolding note_counts
note_counts-Grows show s =
    elim (Bool-cases (not (is_empty s.current_file) && (ltb 0 s.added || ltb 0 s.removed))) [
      | inl e ↦
          rw e
            (put_line-Grows (append "  +" (append (show s.added) (append " -" (show s.removed)))) s)
      | inr e ↦ rw e (omega arith)
    ]

open_file-Grows :
    (show : ℕ → String) (line : String) (s : DiffState) → Grows 3 s (open_file show line s)
unfolding open_file
open_file-Grows show line s =
    let noted = note_counts show (note_skipped show s) in
    omega (
      arith,
      put_line-Grows (append "\n" (file_name line))
          (record noted { current_file = file_name line }),
      note_counts-Grows show (note_skipped show s),
      note_skipped-Grows show s,
    )

open_hunk-Grows :
    (show : ℕ → String) (line : String) (s : DiffState) → Grows 3 s (open_hunk show line s)
unfolding open_hunk
open_hunk-Grows show line s = omega (
  arith,
  put_line-Grows (append "  " line)
      (record (note_skipped show s) { in_hunk = true; hunk_shown = 0 }),
  note_skipped-Grows show s,
)

show_change-Grows : (line : String) (s : DiffState) → Grows 1 s (show_change line s)
unfolding show_change
show_change-Grows line s = elim (Bool-cases (ltb s.hunk_shown max_hunk_lines)) [
  | inl e ↦ rw e (put_line-Grows (append "  " line) s)
  | inr e ↦ rw e (omega arith)
]

show_context-Grows : (line : String) (s : DiffState) → Grows 1 s (show_context line s)
unfolding show_context
show_context-Grows line s =
    elim (Bool-cases
      (ltb s.hunk_shown max_hunk_lines && (not (has_prefix line "\\") && ltb 0 s.hunk_shown))) [
        | inl e ↦ rw e (put_line-Grows (append "  " line) s)
        | inr e ↦ rw e (omega arith)
      ]

hunk_line-Grows : (line : String) (s : DiffState) → Grows 1 s (hunk_line line s)
unfolding hunk_line
hunk_line-Grows line s = elim (Bool-cases (has_prefix line "+" && not (has_prefix line "+++"))) [
  | inl e ↦ rw e (show_change-Grows line (record s { added = suc s.added }))
  | inr e ↦ elim (Bool-cases (has_prefix line "-" && not (has_prefix line "---"))) [
    | inl f ↦ rw (e, f) (show_change-Grows line (record s { removed = suc s.removed }))
    | inr f ↦ rw (e, f) (show_context-Grows line s)
  ]
]

either-Grows : (b : Bool) (s t : DiffState) → Grows 1 s t → Grows 3 s (if b then t else s)
either-Grows true s t h = omega (arith, h)
either-Grows false s t h = omega arith

diff_line-Grows :
    (show : ℕ → String) (line : String) (s : DiffState) → Grows 3 s (diff_line show line s)
unfolding diff_line
diff_line-Grows show line s = elim (Bool-cases (has_prefix line "diff --git")) [
  | inl e ↦ rw e (open_file-Grows show line s)
  | inr e ↦ elim (Bool-cases (has_prefix line "@@")) [
    | inl f ↦ rw (e, f) (open_hunk-Grows show line s)
    | inr f ↦ rw (e, f) (either-Grows s.in_hunk s (hunk_line line s) (hunk_line-Grows line s))
  ]
]

gt : (m n : ℕ) → leb m n ≡ false → n < m
gt m n e = ground arith

diff_lines-le :
    (show : ℕ → String) (lines : List String) (s : DiffState)
    → length s.result < max_total_lines
    → length (diff_lines show lines s).result ≤ 303
unfolding diff_lines
diff_lines-le show [] s room = omega (arith, room)
diff_lines-le show (line ∷ rest) s room =
    let next = diff_line show line s in
    elim (Bool-cases (leb max_total_lines (length next.result))) [
      | inl e ↦ rw e (
          omega (
            arith,
            room,
            diff_line-Grows show line s,
            put_line-Grows "\n... (more changes truncated)" next,
          ))
      | inr e ↦ rw e (diff_lines-le show rest next (gt max_total_lines (length next.result) e))
    ]

-- However long a diff is, its answer has 306 lines at most: the loop ends behind 300 lines, of which
-- the last round may add three, and four notes can follow.
pub diff_result-le :
    (show : ℕ → String) (lines : List String) → length (diff_result show lines) ≤ 306
unfolding diff_result close_diff
diff_result-le show lines =
    let s = diff_lines show lines no_diff in
    let closed = note_counts show (note_skipped show s) in
    elim (Bool-cases closed.was_truncated) [
      | inl e ↦ rw e (
          omega (
            arith,
            diff_lines-le show lines no_diff (omega arith),
            note_skipped-Grows show s,
            note_counts-Grows show (note_skipped show s),
            length-append closed.result ("[full diff: rtk git diff --no-compact]" ∷ []),
          ))
      | inr e ↦ rw e (
          omega (
            arith,
            diff_lines-le show lines no_diff (omega arith),
            note_skipped-Grows show s,
            note_counts-Grows show (note_skipped show s),
          ))
    ]
