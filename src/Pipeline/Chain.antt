-- ===== src/Pipeline/Chain.antt =====
-- How a chain of middlewares composes.
use my_ai_router.Common.{◌≡◌, refl, List, [], ◌∷◌, ◌++◌, ap, ◌∙◌}
use my_ai_router.Pipeline.{Handler, Middleware, return, run}

-- The chain from a given last handler on.
pub run_into : List Middleware → Handler → Handler
run_into [] last = last
run_into (m ∷ ms) last = m (run_into ms last)

run-nil : run [] ≡ return
unfolding run
run-nil = refl

run-cons : (m : Middleware) (ms : List Middleware) → run (m ∷ ms) ≡ m (run ms)
unfolding run
run-cons m ms = refl

-- A chain that is extended by `Use` runs the old middlewares, in their order, in front of the new
-- ones: each new one is reached only through the `next` of the old.
pub run-append : (ms ns : List Middleware) → run (ms ++ ns) ≡ run_into ms (run ns)
unfolding run_into
run-append [] ns = refl
run-append (m ∷ ms) ns = run-cons m (ms ++ ns) ∙ ap m (run-append ms ns)
