-- ===== src/Retry/Answer.antt =====
-- Which child's answer the client gets from a concurrent strategy.
use my_ai_router.Common.{
  ℕ, ◌≡◌, ◌⊎◌, refl, sym, ap, ◌∙◌, inl, inr, true, false, Bool-cases, List, [], ◌∷◌, ◌++◌,
}
use my_ai_router.Context.{Context, Target}
use my_ai_router.Pipeline.{Handler}
use my_ai_router.Retry.Child.{Report, Child, run_child}
use my_ai_router.Retry.Strategies.{Board, arrive, arrive_all, child_deadlines, last_of}

-- The child of a target that runs when others have run, on the parent's own deadlines.
abbrev pub child_behind : Handler → Context → Board → List Target → Target → Child
child_behind next c b before t =
    run_child next c c.deadlines c.request_body t (arrive_all next c b before).world

-- `t` is the first target to succeed, and `r` its report.
abbrev pub FirstSuccess : Handler → Context → Board → List Target → Report → Type 0
FirstSuccess next c b ts r =
    (before : List Target) × (t : Target) × (after : List Target) × (ts ≡ before ++ t ∷ after)
    × ((arrive_all next c b before).results ≡ [])
    × ((child_behind next c b before t).ok ≡ true)
    × ((child_behind next c b before t).report ≡ r)

-- No target succeeds, and `r` is the report of the one that comes last.
abbrev pub LastFailure : Handler → Context → Board → List Target → Report → Type 0
LastFailure next c b ts r =
    (before : List Target) × (t : Target) × (ts ≡ before ++ t ∷ [])
    × ((arrive_all next c b before).results ≡ [])
    × ((child_behind next c b before t).ok ≡ false)
    × ((child_behind next c b before t).report ≡ r)

arrive_ok :
    (next : Handler) (c : Context) (d : List ℕ) (b : Board) (t : Target)
    → (run_child next c d c.request_body t b.world).ok ≡ true
    → ((arrive next c d b t).results
        ≡ b.results ++ (run_child next c d c.request_body t b.world).report ∷ [])
      × ((arrive next c d b t).failures ≡ b.failures)
unfolding arrive
arrive_ok next c d b t e = simp e (refl, refl)

arrive_bad :
    (next : Handler) (c : Context) (d : List ℕ) (b : Board) (t : Target)
    → (run_child next c d c.request_body t b.world).ok ≡ false
    → ((arrive next c d b t).results ≡ b.results)
      × ((arrive next c d b t).failures
          ≡ b.failures ++ (run_child next c d c.request_body t b.world).report ∷ [])
unfolding arrive
arrive_bad next c d b t e = simp e (refl, refl)

-- A first result stays the first.
results_head :
    (next : Handler) (c : Context) (b : Board) (ts : List Target) (r : Report) (rs : List Report)
    → b.results ≡ r ∷ rs
    → (qs : List Report) × ((arrive_all next c b ts).results ≡ r ∷ qs)
unfolding arrive_all
results_head next c b [] r rs e = (rs, e)
results_head next c b (t ∷ ts) r rs e =
    let d = child_deadlines c b.results in
    elim (Bool-cases (run_child next c d c.request_body t b.world).ok) [
      | inl ok ↦
          results_head next c (arrive next c d b t) ts r
            (rs ++ (run_child next c d c.request_body t b.world).report ∷ [])
            ((arrive_ok next c d b t ok).0
              ∙ ap (λ l. l ++ (run_child next c d c.request_body t b.world).report ∷ []) e)
      | inr bad ↦
          results_head next c (arrive next c d b t) ts r rs ((arrive_bad next c d b t bad).0 ∙ e)
    ]

abbrev pub Decided : Handler → Context → Board → List Target → Type 0
Decided next c b ts =
    ((r : Report) × (rs : List Report) × FirstSuccess next c b ts r
      × ((arrive_all next c b ts).results ≡ r ∷ rs))
    ⊎ ((arrive_all next c b ts).results ≡ [])

-- What the children behind the first one decide, where that one fails.
Decided-cons :
    (next : Handler) (c : Context) (b : Board) (t : Target) (ts : List Target)
    → Decided next c (arrive next c (child_deadlines c b.results) b t) ts
    → Decided next c b (t ∷ ts)
unfolding arrive_all
Decided-cons next c b t ts (inr none_won) = inr none_won
Decided-cons next c b t ts (inl (r, rs, (before, u, after, e, quiet, ok, same), results)) =
    inl (r, rs, (t ∷ before, u, after, ap (λ l. t ∷ l) e, quiet, ok, same), results)

pub arrive_all-Decided :
    (next : Handler) (c : Context) (b : Board) (ts : List Target)
    → b.results ≡ []
    → Decided next c b ts
unfolding arrive_all
arrive_all-Decided next c b [] e = inr e
arrive_all-Decided next c b (t ∷ ts) e =
    let d = child_deadlines c b.results in
    let own : d ≡ c.deadlines = ap (child_deadlines c) e in
    elim (Bool-cases (run_child next c d c.request_body t b.world).ok) [
      | inl ok ↦
          let child = run_child next c d c.request_body t b.world in
          let (rs, won) =
            results_head next c (arrive next c d b t) ts child.report []
              ((arrive_ok next c d b t ok).0 ∙ ap (λ l. l ++ child.report ∷ []) e) in
          inl (
            child.report,
            rs,
            (
              [],
              t,
              ts,
              refl,
              e,
              ap (λ x. (run_child next c x c.request_body t b.world).ok) (sym own) ∙ ok,
              ap (λ x. (run_child next c x c.request_body t b.world).report) (sym own),
            ),
            won,
          )
      | inr bad ↦
          Decided-cons next c b t ts (
            arrive_all-Decided next c (arrive next c d b t) ts
              ((arrive_bad next c d b t bad).0 ∙ e))
    ]

pub last_of-snoc : (q : Report) (rs : List Report) (r : Report) → last_of q (rs ++ r ∷ []) ≡ r
last_of-snoc q [] r = refl
last_of-snoc q (x ∷ rs) r = last_of-snoc x rs r

-- The failures end with the report of the last target, where no target succeeds.
abbrev pub Failed : Handler → Context → Board → Target → List Target → Type 0
Failed next c b t ts =
    (r : Report) × (fs : List Report) × LastFailure next c b (t ∷ ts) r
    × ((arrive_all next c b (t ∷ ts)).failures ≡ fs ++ r ∷ [])

no_results :
    (next : Handler) (c : Context) (b : Board) (ts : List Target)
    → (arrive_all next c b ts).results ≡ []
    → b.results ≡ []
no_results next c b ts e = elim_results b.results refl
  where
    elim_results : (rs : List Report) → b.results ≡ rs → b.results ≡ []
    elim_results [] f = f
    elim_results (r ∷ rs) f = let (qs, g) = results_head next c b ts r rs f in absurd (cc)

Failed-cons :
    (next : Handler) (c : Context) (b : Board) (t u : Target) (ts : List Target)
    → Failed next c (arrive next c (child_deadlines c b.results) b t) u ts
    → Failed next c b t (u ∷ ts)
unfolding arrive_all
Failed-cons next c b t u ts (r, fs, (before, v, e, quiet, bad, same), failures) =
    (r, fs, (t ∷ before, v, ap (λ l. t ∷ l) e, quiet, bad, same), failures)

-- A child that succeeds leaves a result.
winner_shows :
    (next : Handler) (c : Context) (b : Board) (t : Target) (ts : List Target)
    → (arrive_all next c b (t ∷ ts)).results ≡ []
    → (run_child next c (child_deadlines c b.results) c.request_body t b.world).ok ≡ false
unfolding arrive_all
winner_shows next c b t ts none_won =
    let d = child_deadlines c b.results in
    let child = run_child next c d c.request_body t b.world in
    let empty = no_results next c b (t ∷ ts) none_won in
    elim (Bool-cases child.ok) [
      | inl ok ↦
          let (qs, g) =
            results_head next c (arrive next c d b t) ts child.report []
              ((arrive_ok next c d b t ok).0 ∙ ap (λ l. l ++ child.report ∷ []) empty) in
          absurd (cc)
      | inr bad ↦ bad
    ]

pub arrive_all-Failed :
    (next : Handler) (c : Context) (b : Board) (t : Target) (ts : List Target)
    → (arrive_all next c b (t ∷ ts)).results ≡ []
    → Failed next c b t ts
unfolding arrive_all
arrive_all-Failed next c b t [] none_won =
    let d = child_deadlines c b.results in
    let empty = no_results next c b (t ∷ []) none_won in
    let own : d ≡ c.deadlines = ap (child_deadlines c) empty in
    let child = run_child next c d c.request_body t b.world in
    let bad = winner_shows next c b t [] none_won in
    (
      child.report,
      b.failures,
      (
        [],
        t,
        refl,
        empty,
        ap (λ x. (run_child next c x c.request_body t b.world).ok) (sym own) ∙ bad,
        ap (λ x. (run_child next c x c.request_body t b.world).report) (sym own),
      ),
      (arrive_bad next c d b t bad).1,
    )
arrive_all-Failed next c b t (u ∷ ts) none_won =
    Failed-cons next c b t u ts
      (arrive_all-Failed next c (arrive next c (child_deadlines c b.results) b t) u ts none_won)
