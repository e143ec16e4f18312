-- ===== src/Routing/Turns.antt =====
-- The two ways in which a route reorders its models.
use mathlib.Core.List.{Perm, perm_append_comm}
use my_ai_router.Common.{
  ℕ, suc, ◌%◌, ◌≡◌, ◌⊎◌, refl, ap, subst, Bool, true, false, Option, none, some, List, [], ◌∷◌,
  ◌++◌, String, length, take, drop, take-append-drop, ◌==◌, if◌then◌else◌, arith, Bool-cases, inl,
  inr, TextOps, All,
}
use my_ai_router.Json.{Fields}
use my_ai_router.Routing.Models.{
  balance, best_index, promote, rank_models, classify_and_rank, classify_prompt, suits, prompt_text,
}

-- Round robin tries every model of the route once, whatever the counter is.
pub balance-perm : (counter : ℕ) (models : List String) → Perm (balance counter models) models
unfolding balance
balance-perm counter models =
    let idx = counter % length models in
    subst (λ l. Perm (drop idx models ++ take idx models) l) (take-append-drop idx models)
      (perm_append_comm (drop idx models) (take idx models))

drop_front : (before rest : List String) → drop (length before) (before ++ rest) ≡ rest
drop_front [] rest = refl
drop_front (m ∷ before) rest = drop_front before rest

take_front : (before rest : List String) → take (length before) (before ++ rest) ≡ before
take_front [] rest = refl
take_front (m ∷ before) rest = ap (λ l. m ∷ l) (take_front before rest)

drop_past :
    (before : List String) (m : String) (after : List String)
    → drop (suc (length before)) (before ++ m ∷ after) ≡ after
drop_past [] m after = refl
drop_past (x ∷ before) m after = drop_past before m after

promote-split :
    (before : List String) (m : String) (after : List String)
    → promote (length before) (before ++ m ∷ after) ≡ m ∷ before ++ after
unfolding promote
promote-split before m after =
    rw (drop_front before (m ∷ after), take_front before (m ∷ after), drop_past before m after)

-- The first model that suits, with what stands in front of it and behind it.
abbrev pub FirstFit : (String → Bool) → List String → List String → String → List String → Type 0
FirstFit good models before m after =
    (models ≡ before ++ m ∷ after) × (good m ≡ true) × All (λ x. good x ≡ false) before

abbrev Found : (String → Bool) → List String → Option ℕ → Type 0
Found good models none = All (λ x. good x ≡ false) models
Found good models (some i) =
    (before : List String) × (m : String) × (after : List String) × FirstFit good models before m
      after
    × (i ≡ length before)

Found-cons :
    (good : String → Bool) (m : String) (rest : List String) (o : Option ℕ)
    → good m ≡ false
    → Found good rest o
    → Found good (m ∷ rest) (elim o [ none ↦ none | some i ↦ some (suc i) ])
Found-cons good m rest none miss h = (miss, h)
Found-cons good m rest (some i) miss (before, x, after, (e, hit, none_before), n) =
    (m ∷ before, x, after, (ap (λ l. m ∷ l) e, hit, (miss, none_before)), ap suc n)

best_index-Found :
    (good : String → Bool) (models : List String) → Found good models (best_index good models)
unfolding best_index
best_index-Found good [] = tt
best_index-Found good (m ∷ rest) = elim (Bool-cases (good m)) [
  | inl hit ↦ rw hit ([], m, rest, (refl, hit, tt), refl)
  | inr miss ↦
      rw miss (Found-cons good m rest (best_index good rest) miss (best_index-Found good rest))
]

-- The models as they are, where none suits; else the first that suits, moved to the front.
abbrev pub Ranked : (String → Bool) → List String → List String → Type 0
Ranked good models result =
    (All (λ x. good x ≡ false) models × (result ≡ models))
    ⊎ ((before : List String) × (m : String) × (after : List String) × FirstFit good models before m
          after
        × (result ≡ m ∷ before ++ after))

suc_not_zero : (n : ℕ) → (suc n == 0) ≡ false
suc_not_zero n = ground arith

front :
    (before : List String) (m : String) (after models : List String) (i : ℕ)
    → models ≡ before ++ m ∷ after
    → i ≡ length before
    → (if i == 0 then models else promote i models) ≡ m ∷ before ++ after
front [] m after models i e n = rw (n, e) refl
front (x ∷ before) m after models i e n =
    rw (n, e, suc_not_zero (length before)) (promote-split (x ∷ before) m after)

rank_models-Ranked :
    (good : String → Bool) (models : List String) → Ranked good models (rank_models good models)
unfolding rank_models
rank_models-Ranked good models = ranked (best_index good models) (best_index-Found good models)
  where
    ranked :
        (o : Option ℕ)
        → Found good models o
        → Ranked good models
            (elim o [ none ↦ models | some i ↦ if i == 0 then models else promote i models ])
    ranked none h = inl (h, refl)
    ranked (some i) (before, m, after, fit, n) =
        inr (before, m, after, fit, front before m after models i fit.0 n)

-- The smart route moves the first model that suits the prompt's category to the front, keeps the
-- order of the others, and changes nothing where no model suits.
pub classify_and_rank-Ranked :
    (ops : TextOps) (body : Fields) (models : List String)
    → Ranked
        (λ m. suits (classify_prompt (ops.to_lower (prompt_text body))) (ops.to_lower m))
        models
        (classify_and_rank ops body models)
unfolding classify_and_rank
classify_and_rank-Ranked ops body models = rank_models-Ranked _ models
