-- ===== src/Retry/Ensemble.antt =====
-- Which answer an ensemble chooses.
use my_ai_router.Common.{
  ◌≤◌, ◌<◌, ◌≡◌, ◌⊎◌, refl, sym, ap, inl, inr, Bool, subst, Bool-cases, some, List, [], ◌∷◌, ◌++◌,
  len, ltb, ltb→lt, ltb→ge, All, if◌then◌else◌, arith,
}
use my_ai_router.Context.{add_step}
use my_ai_router.Retry.Child.{Report, replay, promote, apply_winner}
use my_ai_router.Retry.Strategies.{Board, longest, select_best}

abbrev Shorter : Report → Report → Type 0
Shorter best r = len r.response_body < len best.response_body

abbrev NotLonger : Report → Report → Type 0
NotLonger best r = len r.response_body ≤ len best.response_body

-- The report that wins has the longest body, and those in front of it have shorter ones.
abbrev pub Best : Report → List Report → Report → Type 0
Best r rest best =
    (before : List Report) × (after : List Report) × (r ∷ rest ≡ before ++ best ∷ after)
    × All (Shorter best) before
    × All (NotLonger best) after

-- Either the report so far stays, or a later one beats it.
abbrev Picked : Report → List Report → Report → Type 0
Picked r rest best =
    ((best ≡ r) × All (NotLonger best) rest)
    ⊎ ((before : List Report) × (after : List Report) × (rest ≡ before ++ best ∷ after)
        × Shorter best r
        × All (Shorter best) before
        × All (NotLonger best) after)

Picked-taken :
    (r q : Report) (rest : List Report) (best : Report)
    → len r.response_body < len q.response_body
    → Picked q rest best
    → Picked r (q ∷ rest) best
Picked-taken r q rest best h (inl (e, least)) =
    inr ([], rest, ap (λ x. x ∷ rest) (sym e), rw e h, tt, least)
Picked-taken r q rest best h (inr (before, after, e, less, front, least)) =
    inr (q ∷ before, after, ap (λ l. q ∷ l) e, omega arith, (less, front), least)

Picked-kept :
    (r q : Report) (rest : List Report) (best : Report)
    → len q.response_body ≤ len r.response_body
    → Picked r rest best
    → Picked r (q ∷ rest) best
Picked-kept r q rest best h (inl (e, least)) = inl (e, (rw e h, least))
Picked-kept r q rest best h (inr (before, after, e, less, front, least)) =
    inr (q ∷ before, after, ap (λ l. q ∷ l) e, less, (omega arith, front), least)

longest_step :
    {b : Bool} (r q : Report) (rest : List Report)
    → ltb (len r.response_body) (len q.response_body) ≡ b
    → longest r (q ∷ rest) ≡ longest (if b then q else r) rest
unfolding longest
longest_step r q rest e = ap (λ b. longest (if b then q else r) rest) e

longest-Picked : (r : Report) (rest : List Report) → Picked r rest (longest r rest)
unfolding longest
longest-Picked r [] = inl (refl, tt)
longest-Picked r (q ∷ rest) = elim (Bool-cases (ltb (len r.response_body) (len q.response_body))) [
  | inl e ↦
      subst (Picked r (q ∷ rest)) (sym (longest_step r q rest e))
        (Picked-taken r q rest _ (ltb→lt _ _ e) (longest-Picked q rest))
  | inr e ↦
      subst (Picked r (q ∷ rest)) (sym (longest_step r q rest e))
        (Picked-kept r q rest _ (ltb→ge _ _ e) (longest-Picked r rest))
]

Picked-Best :
    (r : Report) (rest : List Report) (best : Report) → Picked r rest best → Best r rest best
Picked-Best r rest best (inl (e, least)) = ([], rest, ap (λ x. x ∷ rest) (sym e), tt, least)
Picked-Best r rest best (inr (before, after, e, less, front, least)) =
    (r ∷ before, after, ap (λ l. r ∷ l) e, (less, front), least)

-- Where children of an ensemble have succeeded, the client gets the recorded answer of the one with
-- the longest body, and among equals of the one that reported first, under its connection and status.
pub select_best-Best :
    (b : Board) (r : Report) (rest : List Report)
    → b.results ≡ r ∷ rest
    → (best : Report) × Best r rest best
      × ((select_best b).socket ≡ replay best.recorded b.ctx.socket)
      × ((select_best b).connection ≡ some best.target.connection)
      × ((select_best b).response_code ≡ best.response_code)
unfolding select_best apply_winner promote add_step
select_best-Best b r rest e =
    (longest r rest, Picked-Best r rest _ (longest-Picked r rest), rw e refl, rw e refl, rw e refl)
