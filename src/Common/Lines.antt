-- ===== src/Common/Lines.antt =====
-- `strings.Split(s, "\n")`.
use Prim.Native.Nat.{ℕ, zero, suc, ◌+◌, ◌≤◌, ◌<◌}
use Prim.Native.String.{String, len, slice, ◌++◌ as append}
use mathlib.Core.Path.{◌≡◌, refl, sym, ap, ◌∙◌}
use mathlib.Core.Logic.{inl, inr}
use mathlib.Core.Option.{none, some}
use mathlib.Core.List.{List, [], ◌∷◌}
use native.Mathlib.Omega.{arith}
use text.Mathlib.Text.{find?}
use text.Mathlib.TextFind.{find_cases}
use text.Mathlib.TextLemmas.{append_assoc}
use text.Mathlib.TextPositions.{len-append, slice-append_right}
use my_ai_router.Common.Tests.{Option-cases}

abbrev newline : String
newline = "\n"

-- The part behind the line break at a position.
abbrev behind : String → ℕ → String
behind s i = slice s (i + 1) (len s)

-- Each line break takes a byte, so the length of the text bounds the number of rounds.
unfoldable pub split_within : ℕ → String → List String
split_within zero s = s ∷ []
split_within (suc k) s = elim (find? s newline) [
  | none ↦ s ∷ []
  | some i ↦ slice s 0 i ∷ split_within k (behind s i)
]

unfoldable pub split_lines : String → List String
unfolding split_within
split_lines s = split_within (len s) s

find_hit :
    (s : String) (i : ℕ)
    → find? s newline ≡ some i
    → (u : String) × (v : String) × (s ≡ append u (append newline v)) × (i ≡ len u)
find_hit s i e = elim (find_cases s newline) [
  | inl (u, v, parts, at) ↦ (u, v, parts, ground (arith, at))
  | inr miss ↦ ground (arith, miss)
]

behind_parts : (u v : String) → behind (append u (append newline v)) (len u) ≡ v
behind_parts u v =
    let w = append u newline in
    ap (λ x. slice x (len u + 1) (len x)) (sym (append_assoc u newline v))
    ∙ ap (λ k. slice (append w v) k (len (append w v))) (sym (len-append u newline))
    ∙ ap (λ k. slice (append w v) (len w) k) (len-append w v)
    ∙ slice-append_right w v

behind_shorter : (s : String) (i : ℕ) → find? s newline ≡ some i → len (behind s i) < len s
behind_shorter s i e =
    let (u, v, parts, at) = find_hit s i e in
    let rest : behind s i ≡ v =
      ap (λ x. behind x i) parts
      ∙ ap (behind (append u (append newline v))) at
      ∙ behind_parts u v in
    omega (arith, ap len rest, ap len parts, len-append u (append newline v), len-append newline v)

-- A text without bytes has no line break.
no_break : (s : String) (i : ℕ) → find? s newline ≡ some i → len s ≤ 0 → ⊥
no_break s i e empty = omega (arith, behind_shorter s i e)

-- Fuel for the length of the text is enough: more of it makes no difference.
pub split_within-fuel :
    (k m : ℕ) (s : String) → len s ≤ k → len s ≤ m → split_within k s ≡ split_within m s
unfolding split_within
split_within-fuel zero zero s a b = refl
split_within-fuel zero (suc m) s a b = elim (Option-cases (find? s newline)) [
  | inl e ↦ rw (split_within, e) refl
  | inr (i, e) ↦ elim (no_break s i e a) [ ]
]
split_within-fuel (suc k) zero s a b = elim (Option-cases (find? s newline)) [
  | inl e ↦ rw (split_within, e) refl
  | inr (i, e) ↦ elim (no_break s i e b) [ ]
]
split_within-fuel (suc k) (suc m) s a b = elim (Option-cases (find? s newline)) [
  | inl e ↦ rw (split_within, e) refl
  | inr (i, e) ↦
      rw (split_within, e)
        (ap (λ l. slice s 0 i ∷ l)
          (split_within-fuel k m (behind s i) (omega (arith, behind_shorter s i e))
            (omega (arith, behind_shorter s i e))))
]
