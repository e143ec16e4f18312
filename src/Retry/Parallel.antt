-- ===== src/Retry/Parallel.antt =====
-- What a parallel route sends its client.
use my_ai_router.Common.{
  ℕ, ◌≤◌, ◌≡◌, ◌⊎◌, refl, sym, ap, ◌∙◌, subst, inl, inr, Bool-cases, some, List, [], ◌∷◌, ◌++◌,
  String, Message, note, leb, length, arith,
}
use my_ai_router.Context.{Context, Target, Socket, add_step, write_error, write_upstream_error}
use my_ai_router.Context.Writes.{write_upstream_error_same}
use my_ai_router.Pipeline.{World, Outcome, Handler}
use my_ai_router.Retry.Child.{Report, run_child, replay, promote, apply_winner, apply_failure}
use my_ai_router.Retry.Strategies.{
  Board, arrive, arrive_all, abandon, child_deadlines, close_failed, close_reports, close, Schedule,
  dispatched, parallel_step, fastest, parallel,
}
use my_ai_router.Retry.Answer.{
  FirstSuccess, LastFailure, arrive_all-Decided, arrive_all-Failed, last_of-snoc,
}

-- The parts of the parent request that the children leave alone until the answer is chosen.
abbrev pub SameAnswer : Context → Context → Type 0
SameAnswer x y = (x.socket ≡ y.socket) × (x.response_written ≡ y.response_written)

arrive-SameAnswer :
    (next : Handler) (c : Context) (d : List ℕ) (b : Board) (t : Target)
    → SameAnswer (arrive next c d b t).ctx b.ctx
unfolding arrive
arrive-SameAnswer next c d b t =
    elim (Bool-cases (run_child next c d c.request_body t b.world).ok) [
      | inl ok ↦ simp ok (refl, refl)
      | inr bad ↦ simp bad (refl, refl)
    ]

pub arrive_all-SameAnswer :
    (next : Handler) (c : Context) (b : Board) (ts : List Target)
    → SameAnswer (arrive_all next c b ts).ctx b.ctx
unfolding arrive_all
arrive_all-SameAnswer next c b [] = (refl, refl)
arrive_all-SameAnswer next c b (t ∷ ts) =
    let d = child_deadlines c b.results in
    let one = arrive-SameAnswer next c d b t in
    let rest = arrive_all-SameAnswer next c (arrive next c d b t) ts in
    (rest.0 ∙ one.0, rest.1 ∙ one.1)

-- The error that reaches the client where the upstream's answer is passed on.
abbrev pub relayed_error : Context → Report → Socket
relayed_error c r =
    (write_upstream_error (record c { response_body = r.response_body }) r.response_code).socket

apply_failure_lem :
    (c d : Context) (r : Report) (step : String)
    → SameAnswer d c
    → ((apply_failure d r step).socket ≡ relayed_error c r)
      × (400 ≤ (apply_failure d r step).response_code)
unfolding apply_failure promote add_step
apply_failure_lem c d r step (socket, written) =
    write_upstream_error_same _ (record c { response_body = r.response_body }) r.response_code
      socket written refl

close_failed_lem :
    (d : Context) (fs : List Report) (r : Report) (step : String) (code : ℕ) (text : String)
    → close_failed d (fs ++ r ∷ []) step code text ≡ apply_failure d r step
unfolding close_failed
close_failed_lem d [] r step code text = refl
close_failed_lem d (q ∷ fs) r step code text =
    ap (λ x. apply_failure d x step) (last_of-snoc q fs r)

-- The three ends of a strategy: the first success, the last failure, or no report at all.
abbrev pub Answers : Handler → Context → Board → List Target → ℕ → Outcome → Type 0
Answers next c b before code o =
    ((r : Report) × FirstSuccess next c b before r
      × (o.ctx.socket ≡ replay r.recorded c.socket)
      × (o.ctx.response_code ≡ r.response_code)
      × (o.ctx.connection ≡ some r.target.connection))
    ⊎ ((r : Report) × LastFailure next c b before r
        × (o.ctx.socket ≡ relayed_error c r)
        × (400 ≤ o.ctx.response_code))
    ⊎ ((before ≡ []) × ((m : Message) × (o.ctx.socket ≡ (write_error c code m).socket)))

write_error_same :
    (x y : Context) (code : ℕ) (m : Message)
    → SameAnswer x y
    → (write_error x code m).socket ≡ (write_error y code m).socket
unfolding write_error
write_error_same x y code m h = ground arith

module _ (b : Board) (w : World) (won : Report → Message) (step : String) (code : ℕ)
    (text : String) where
  close_won :
      (r : Report) (rs : List Report)
      → b.results ≡ r ∷ rs
      → (close b w won step code text).ctx ≡ apply_winner b.ctx r (won r) step
  unfolding close close_reports
  close_won r rs e = ap (λ l. close_reports b.ctx won step code text l b.failures) e

  close_lost :
      (fs : List Report)
      → b.results ≡ []
      → b.failures ≡ fs
      → (close b w won step code text).ctx ≡ close_failed b.ctx fs step code text
  unfolding close close_reports
  close_lost fs e f =
      ap (λ l. close_reports b.ctx won step code text l b.failures) e
      ∙ ap (λ l. close_failed b.ctx l step code text) f

apply_winner_lem :
    (c d : Context) (r : Report) (m : Message) (step : String)
    → SameAnswer d c
    → ((apply_winner d r m step).socket ≡ replay r.recorded c.socket)
      × ((apply_winner d r m step).response_code ≡ r.response_code)
      × ((apply_winner d r m step).connection ≡ some r.target.connection)
unfolding apply_winner add_step promote
apply_winner_lem c d r m step same = (ap (λ s. replay r.recorded s) same.0, refl, refl)

module _ (next : Handler) (c : Context) (b : Board) (w : World) (won : Report → Message)
    (step text : String) (code : ℕ) (same : SameAnswer b.ctx c) where
  abbrev pub closed : List Target → Outcome
  closed ts = close (arrive_all next c b ts) w won step code text

  kept : (ts : List Target) → SameAnswer (arrive_all next c b ts).ctx c
  kept ts = let k = arrive_all-SameAnswer next c b ts in (k.0 ∙ same.0, k.1 ∙ same.1)

  answer_won :
      (ts : List Target) (r : Report) (rs : List Report)
      → FirstSuccess next c b ts r
      → (arrive_all next c b ts).results ≡ r ∷ rs
      → Answers next c b ts code (closed ts)
  answer_won ts r rs first e =
      let sent = close_won (arrive_all next c b ts) w won step code text r rs e in
      let (socket, status, connection) =
        apply_winner_lem c (arrive_all next c b ts).ctx r (won r) step (kept ts) in
      inl (
        r,
        first,
        ap (λ x. x.socket) sent ∙ socket,
        ap (λ x. x.response_code) sent ∙ status,
        ap (λ x. x.connection) sent ∙ connection,
      )

  answer_none : b.results ≡ [] → b.failures ≡ [] → Answers next c b [] code (closed [])
  unfolding arrive_all close_failed
  answer_none e f = inr (
      inr (
        refl,
        (
          note text,
          ap (λ x. x.socket) (close_lost b w won step code text [] e f)
              ∙ write_error_same b.ctx c code (note text) same,
        ),
      ))

  answer_lost :
      (t : Target) (ts : List Target)
      → (arrive_all next c b (t ∷ ts)).results ≡ []
      → Answers next c b (t ∷ ts) code (closed (t ∷ ts))
  answer_lost t ts e =
      let (r, fs, last, failures) = arrive_all-Failed next c b t ts e in
      let ran = arrive_all next c b (t ∷ ts) in
      let sent =
        close_lost ran w won step code text (fs ++ r ∷ []) e failures
        ∙ close_failed_lem ran.ctx fs r step code text in
      let (socket, status) = apply_failure_lem c ran.ctx r step (kept (t ∷ ts)) in
      inr (
        inl (
          r,
          last,
          ap (λ x. x.socket) sent ∙ socket,
          subst (λ x. 400 ≤ x.response_code) (sym sent) status,
        ))

  lost :
      (ts : List Target)
      → b.results ≡ []
      → b.failures ≡ []
      → (arrive_all next c b ts).results ≡ []
      → Answers next c b ts code (closed ts)
  lost [] n f e = answer_none n f
  lost (t ∷ ts) n f e = answer_lost t ts e

  pub close-Answers :
      (ts : List Target) → b.results ≡ [] → b.failures ≡ [] → Answers next c b ts code (closed ts)
  close-Answers ts none_yet empty = elim (arrive_all-Decided next c b ts none_yet) [
    | inl (r, rs, first, e) ↦ answer_won ts r rs first e
    | inr e ↦ lost ts none_yet empty e
  ]

-- Whatever the order in which the children report, the client of a parallel route gets one answer:
-- the recorded answer of the first child that succeeds, under that child's status; or, where all that
-- report fail, the upstream error of the last of them; or an error message where none reports at all.
pub parallel-Answers :
    (s : Schedule) (targets : List Target) (next : Handler) (c : Context) (w : World)
    → (code : ℕ) × Answers next c
        (dispatched targets c w)
        s.before
        code
        (parallel s targets next c w)
unfolding parallel add_step
parallel-Answers s targets next c w =
    let ran = arrive_all next c (dispatched targets c w) s.before in
    let behind = abandon next c ran s.behind in
    elim (Bool-cases (leb (length targets) (length ran.failures))) [
      | inl all ↦ (
        503,
        rw all (
            close-Answers next c (dispatched targets c w) behind (fastest s) parallel_step
              "All concurrent target models failed" 503 (refl, refl) s.before refl refl),
      )
      | inr some_left ↦ (
        504,
        rw some_left (
            close-Answers next c (dispatched targets c w) behind (fastest s) parallel_step
              "Parallel request execution timed out" 504 (refl, refl) s.before refl refl),
      )
    ]
