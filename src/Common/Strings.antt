-- ===== src/Common/Strings.antt =====
-- What the code uses of Go's package strings. A Go string is a text here, and positions count bytes.
use Prim.Native.Nat.{ℕ, ◌+◌, ◌-◌}
use Prim.Native.String.{String, len, slice}
use mathlib.Core.Bool.{Bool, true, false, ◌&&◌}
use mathlib.Core.Option.{Option, none, some}
use mathlib.Core.List.{List, [], ◌∷◌}
use text.Mathlib.Text.{◌==◌ as str_eq, starts_with, find?}
use my_ai_router.Common.Tests.{leb}

-- The case folding and the trimming of Go's Unicode tables enter as arguments.
pub record TextOps : Type 0 where
  pub to_lower : String → String
  pub trim_space : String → String

-- `strings.Contains(s, t)`
abbrev pub contains : String → String → Bool
contains s t = elim (find? s t) [ none ↦ false | some i ↦ true ]

-- `strings.HasPrefix` and `strings.HasSuffix`
abbrev pub has_prefix : String → String → Bool
has_prefix s t = starts_with s t

abbrev pub has_suffix : String → String → Bool
has_suffix s t = leb (len t) (len s) && str_eq (slice s (len s - len t) (len s)) t

-- `strings.TrimPrefix` and `strings.TrimSuffix`
abbrev pub trim_prefix : String → String → String
trim_prefix s t = elim (has_prefix s t) [ true ↦ slice s (len t) (len s) | false ↦ s ]

abbrev pub trim_suffix : String → String → String
trim_suffix s t = elim (has_suffix s t) [ true ↦ slice s 0 (len s - len t) | false ↦ s ]

abbrev pub is_empty : String → Bool
is_empty s = str_eq s ""

-- `s[:i]` and `s[i+1:]` at the first "/" of `s`, where it has one.
abbrev pub cut_slash : String → Option (String × String)
cut_slash s = elim (find? s "/") [
  | none ↦ none
  | some i ↦ some (slice s 0 i, slice s (i + 1) (len s))
]

-- `slices.Contains`, which the code writes as a loop with an early return.
abbrev pub contains_any : String → List String → Bool
contains_any s [] = false
contains_any s (k ∷ ks) = elim (contains s k) [ true ↦ true | false ↦ contains_any s ks ]

-- A message that the code formats with `fmt.Sprintf`, before `%d` and `%q` are printed.
pub data Part : Type 0 where
  lit : String → Part
  num : ℕ → Part
  quoted : String → Part

abbrev pub Message : Type 0
Message = List Part

abbrev pub note : String → Message
note s = lit s ∷ []
