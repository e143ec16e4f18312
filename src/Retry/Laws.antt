-- ===== src/Retry/Laws.antt =====
-- The sequential loop as a whole: how a fact about the request is carried through its rounds.
use my_ai_router.Common.{ℕ, suc, ◌≡◌, refl, Option, none, List, [], ◌∷◌, Message}
use my_ai_router.Context.{Context, Target}
use my_ai_router.Pipeline.{World, Outcome, return}
use my_ai_router.Retry.Attempt.{attempt}
use my_ai_router.Retry.Sequential.{
  Route, Round, stop, advance, settle, exhausted, sequential, timeout_for,
}

-- What holds of the request when a round ends: `Done` where the loop returns, `Going` where it goes on.
abbrev pub After : (Outcome → Type 0) → (Context → Type 0) → Round → Type 0
After Done Going (stop c w) = Done (return c w)
After Done Going (advance e s c w) = Going c

module _ (Done : Outcome → Type 0) (Going : List Target → ℕ → Context → Type 0) (r : Route) where
  finish_round :
      (number : ℕ) (rest : List Target) (x : Round)
      → After Done (Going rest (suc number)) x
      → ((e : Option Message) (s : ℕ) (c : Context) (w : World)
          → Going rest (suc number) c
          → Done (sequential r (suc number) rest e s c w))
      → Done (elim x as (λ x. Outcome) [
        | stop c w ↦ return c w
        | advance e s c w ↦ sequential r (suc number) rest e s c w
      ])
  finish_round number rest (stop c w) h later = h
  finish_round number rest (advance e s c w) h later = later e s c w h

  -- The rule for the loop: an invariant that every round keeps, and what it gives at the two ends.
  pub sequential_rule :
      ((number : ℕ) (t : Target) (rest : List Target) (e : Option Message) (s : ℕ) (c : Context)
          (w : World)
        → Going (t ∷ rest) number c
        → After Done
            (Going rest (suc number))
            (settle r number t rest (attempt r.next t r.body number (timeout_for r rest) c w) e s))
      → ((number : ℕ) (e : Option Message) (s : ℕ) (c : Context) (w : World)
          → Going [] number c
          → Done (exhausted e s c w))
      → (targets : List Target) (number : ℕ) (e : Option Message) (s : ℕ) (c : Context) (w : World)
      → Going targets number c
      → Done (sequential r number targets e s c w)
  unfolding sequential
  sequential_rule round last [] number e s c w h = last number e s c w h
  sequential_rule round last (t ∷ rest) number e s c w h =
      finish_round number rest _ (round number t rest e s c w h)
        (λ e s c w. sequential_rule round last rest (suc number) e s c w)

-- The loop answers the client itself: it never hands an error to the pipeline.
sequential-error :
    (r : Route) (targets : List Target) (number : ℕ) (e : Option Message) (s : ℕ) (c : Context)
    (w : World)
    → (sequential r number targets e s c w).error ≡ none
sequential-error r targets number e s c w =
    sequential_rule (λ o. o.error ≡ none) (λ targets number c. Unit {0}) r
      (λ number t rest e s c w h. answered (settle r number t rest _ e s))
      (λ number e s c w h. unfold exhausted in refl) targets number e s c w tt
  where
    answered : (x : Round) → After (λ o. o.error ≡ none) (λ c. Unit {0}) x
    answered (stop c w) = refl
    answered (advance e s c w) = tt
