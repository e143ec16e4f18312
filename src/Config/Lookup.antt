-- ===== src/Config/Lookup.antt =====
-- Reading the routing snapshot.
use my_ai_router.Common.{
  ◌≡◌, refl, true, false, ◌&&◌, Option, none, some, List, [], ◌∷◌, ◌++◌, String, str_eq, TextOps,
  All, keep_if-All, Bool-cases, ap, inl, inr,
}
use my_ai_router.Config.{
  Snapshot, Combo, names_combo, find_combo, resolve_combo, active_connections,
}

-- A connection that is offered for a provider is active and belongs to it.
pub active_connections-All :
    (s : Snapshot) (provider : String)
    → All (λ c. (c.is_active && str_eq c.provider provider) ≡ true) (active_connections s provider)
unfolding active_connections
active_connections-All s provider = keep_if-All _ s.connections

-- The first combo whose name or id is the wanted one, or none where there is no such combo.
abbrev pub FoundFirst : TextOps → String → List Combo → Option Combo → Type 0
FoundFirst ops wanted combos none = All (λ c. names_combo ops wanted c ≡ false) combos
FoundFirst ops wanted combos (some c) =
    (before : List Combo) × (after : List Combo) × (combos ≡ before ++ c ∷ after)
    × (names_combo ops wanted c ≡ true)
    × All (λ d. names_combo ops wanted d ≡ false) before

FoundFirst-cons :
    (ops : TextOps) (wanted : String) (c : Combo) (rest : List Combo) (o : Option Combo)
    → names_combo ops wanted c ≡ false
    → FoundFirst ops wanted rest o
    → FoundFirst ops wanted (c ∷ rest) o
FoundFirst-cons ops wanted c rest none miss h = (miss, h)
FoundFirst-cons ops wanted c rest (some d) miss (before, after, e, hit, none_before) =
    (c ∷ before, after, ap (λ l. c ∷ l) e, hit, (miss, none_before))

find_combo-FoundFirst :
    (ops : TextOps) (wanted : String) (combos : List Combo)
    → FoundFirst ops wanted combos (find_combo ops wanted combos)
unfolding find_combo
find_combo-FoundFirst ops wanted [] = tt
find_combo-FoundFirst ops wanted (c ∷ rest) = elim (Bool-cases (names_combo ops wanted c)) [
  | inl hit ↦ rw hit ([], rest, refl, hit, tt)
  | inr miss ↦ rw miss (
      FoundFirst-cons ops wanted c rest (find_combo ops wanted rest) miss
        (find_combo-FoundFirst ops wanted rest))
]

-- A route name finds the first combo with that name or id, letter case and outer spaces aside, and
-- finds none only where no combo has it.
pub resolve_combo-FoundFirst :
    (ops : TextOps) (s : Snapshot) (name : String)
    → FoundFirst ops (ops.to_lower (ops.trim_space name)) s.combos (resolve_combo ops s name)
unfolding resolve_combo
resolve_combo-FoundFirst ops s name =
    find_combo-FoundFirst ops (ops.to_lower (ops.trim_space name)) s.combos
