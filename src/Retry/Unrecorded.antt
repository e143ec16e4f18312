-- ===== src/Retry/Unrecorded.antt =====
-- What the concurrent strategies leave in the records of the attempts and of the accounts.
use my_ai_router.Common.{
  ℕ, ◌+◌, ◌<◌, ◌≡◌, refl, sym, ◌∙◌, inl, inr, true, false, Bool-cases, List, [], ◌∷◌, append-nil,
  String, Message, leb, length, subst, arith,
}
use my_ai_router.Json.{Fields}
use my_ai_router.Health.{base_cooldown, in_cooldown}
use my_ai_router.Health.Cooldown.{in_cooldown_after_failure}
use my_ai_router.Context.{
  Context, Target, add_step, write_error, write_upstream_error, clone_for_target,
}
use my_ai_router.Pipeline.{World, Handler}
use my_ai_router.Retry.Attempt.{is_success}
use my_ai_router.Retry.Attempts.{IsAttempt}
use my_ai_router.Retry.Child.{
  Report, Child, run_child, child_request, note_child, promote, apply_winner, apply_failure,
}
use my_ai_router.Retry.Strategies.{
  Board, post, arrive, arrive_all, child_deadlines, cancelled, last_of, close_failed, close_reports,
  close, Schedule, dispatched, parallel,
}

-- A handler that fails where its context is cancelled, which is a deadline at the zero time.
abbrev pub FailsCancelled : Handler → Type 0
FailsCancelled next =
    (c : Context) (deadlines : List ℕ) (w : World)
    → c.deadlines ≡ 0 ∷ deadlines
    → is_success (next c w).error (next c w).ctx.response_code ≡ false

child_fails :
    (next : Handler) (c : Context) (deadlines : List ℕ) (body : Fields) (t : Target) (w : World)
    → FailsCancelled next
    → (run_child next c (0 ∷ deadlines) body t w).ok ≡ false
unfolding run_child child_request clone_for_target
child_fails next c deadlines body t w fails = fails _ deadlines _ refl

failed_child_cools_down :
    (next : Handler) (c : Context) (deadlines : List ℕ) (body : Fields) (t : Target) (w : World)
    (later : ℕ)
    → let child = run_child next c deadlines body t w in
      child.ok ≡ false
      → later < child.world.now + base_cooldown
      → in_cooldown child.world.health t.connection.id later ≡ true
unfolding run_child note_child
failed_child_cools_down next c deadlines body t w later bad soon =
    rw bad (in_cooldown_after_failure _ t.connection.id _ later soon)

-- The World behind a report is the child's, whichever way it went.
post-world : (b : Board) (child : Child) → (post b child).world ≡ child.world
post-world b child = elim (Bool-cases child.ok) [ inl e ↦ rw e refl | inr e ↦ rw e refl ]

cancelled_child_cools_down :
    (next : Handler) (c : Context) (b : Board) (t : Target) (later : ℕ)
    → FailsCancelled next
    → let after = (arrive next c (cancelled c) b t).world in
      later < after.now + base_cooldown → in_cooldown after.health t.connection.id later ≡ true
unfolding arrive
cancelled_child_cools_down next c b t later fails =
    let child = run_child next c (cancelled c) c.request_body t b.world in
    subst (λ w. later < w.now + base_cooldown → in_cooldown w.health t.connection.id later ≡ true)
      (sym (post-world b child))
      (failed_child_cools_down next c (cancelled c) c.request_body t b.world later
        (child_fails next c c.deadlines c.request_body t b.world fails))

-- A child that reports behind the first success of a race or a parallel route finds its context
-- cancelled. Where the handler fails for that reason, the child's account goes into cooldown for 30 s
-- or more, although its upstream has done nothing wrong.
pub loser_cools_down :
    (next : Handler) (c : Context) (b : Board) (first : Report) (rest : List Report) (t : Target)
    (later : ℕ)
    → FailsCancelled next
    → b.results ≡ first ∷ rest
    → let after = arrive next c (child_deadlines c b.results) b t in
      later < after.world.now + base_cooldown
      → in_cooldown after.world.health t.connection.id later ≡ true
unfolding arrive
loser_cools_down next c b first rest t later fails won soon =
    subst
      (λ rs.
        let after = (arrive next c (child_deadlines c rs) b t).world in
        later < after.now + base_cooldown → in_cooldown after.health t.connection.id later ≡ true)
      (sym won) (cancelled_child_cools_down next c b t later fails) soon

-- A child under a handler that records no attempts has none to report.
child_attempts :
    (next : Handler) (c : Context) (deadlines : List ℕ) (body : Fields) (t : Target) (w : World)
    → IsAttempt next
    → (run_child next c deadlines body t w).report.attempts ≡ []
unfolding run_child child_request clone_for_target
child_attempts next c deadlines body t w k = k.keeps_attempts _ _

post_attempts :
    (b : Board) (child : Child)
    → child.report.attempts ≡ []
    → (post b child).ctx.target_attempts ≡ b.ctx.target_attempts
post_attempts b child e = elim (Bool-cases child.ok) [
  | inl h ↦ rw (h, e) (append-nil b.ctx.target_attempts)
  | inr h ↦ rw (h, e) (append-nil b.ctx.target_attempts)
]

arrive_all_attempts :
    (next : Handler) (c : Context) (b : Board) (ts : List Target)
    → IsAttempt next
    → (arrive_all next c b ts).ctx.target_attempts ≡ b.ctx.target_attempts
unfolding arrive_all arrive
arrive_all_attempts next c b [] k = refl
arrive_all_attempts next c b (t ∷ ts) k =
    let d = child_deadlines c b.results in
    arrive_all_attempts next c (arrive next c d b t) ts k
    ∙ post_attempts b _ (child_attempts next c d c.request_body t b.world k)

apply_failure_attempts :
    (c : Context) (r : Report) (step : String)
    → (apply_failure c r step).target_attempts ≡ c.target_attempts
unfolding apply_failure promote add_step write_upstream_error write_error
apply_failure_attempts c r step = ground arith

close_reports_attempts :
    (c : Context) (won : Report → Message) (step : String) (code : ℕ) (text : String)
    (rs fs : List Report)
    → (close_reports c won step code text rs fs).target_attempts ≡ c.target_attempts
unfolding close_reports close_failed apply_winner promote add_step write_error
close_reports_attempts c won step code text [] [] = ground arith
close_reports_attempts c won step code text [] (f ∷ fs) =
    apply_failure_attempts c (last_of f fs) step
close_reports_attempts c won step code text (r ∷ rs) fs = refl

-- A parallel route over a handler that records no attempts of its own leaves the request's record of
-- attempts as it was: what its children tried, and how they failed, is not recorded anywhere there.
pub parallel_unrecorded :
    (s : Schedule) (targets : List Target) (next : Handler) (c : Context) (w : World)
    → IsAttempt next
    → (parallel s targets next c w).ctx.target_attempts ≡ c.target_attempts
unfolding parallel close add_step
parallel_unrecorded s targets next c w k =
    let ran = arrive_all next c (dispatched targets c w) s.before in
    let kept = arrive_all_attempts next c (dispatched targets c w) s.before k in
    elim (Bool-cases (leb (length targets) (length ran.failures))) [
      | inl all ↦ rw all (close_reports_attempts ran.ctx _ _ _ _ ran.results ran.failures ∙ kept)
      | inr some_left ↦
          rw some_left (close_reports_attempts ran.ctx _ _ _ _ ran.results ran.failures ∙ kept)
    ]
