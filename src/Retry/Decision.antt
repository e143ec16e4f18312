-- ===== src/Retry/Decision.antt =====
-- The decision behind a failed attempt: what it leaves alone, and when it goes on.
use my_ai_router.Common.{
  ℕ, ◌+◌, ◌<◌, ◌≡◌, ◌⊎◌, refl, false, ◌&&◌, some, List, [], ◌∷◌, String, str_eq, Message, ltb, leb,
  if◌then◌else◌, arith, Bool-cases, inl, inr,
}
use my_ai_router.Policy.{
  AttemptPolicy, ErrorClass, retryable, account_failover, terminal, max_fallback_count,
}
use my_ai_router.Context.{Context, Target, write_error, write_upstream_error, add_step}
use my_ai_router.Pipeline.{World}
use my_ai_router.Retry.Sequential.{Round, stop, advance, give_up, spend, fail_over, decide, is_last}

-- What the decision behind a failed attempt leaves as it is.
pub record Kept (c d : Context) : Type 0 where
  pub attempts : d.target_attempts ≡ c.target_attempts
  pub deadlines : d.deadlines ≡ c.deadlines

-- Going on takes one more hop where a target is left, and none beyond the cap.
abbrev pub Decided : AttemptPolicy → List Target → Context → Round → Type 0
Decided p rest c (stop d w) = Kept c d
Decided p rest c (advance e s d w) =
    Kept c d
    × (d.socket ≡ c.socket)
    × (d.response_written ≡ c.response_written)
    × (d.fallback_count ≡ c.fallback_count + (if is_last rest then 0 else 1))
    × ((max_fallback_count (some p) ≡ 0) ⊎ (c.fallback_count < max_fallback_count (some p)))

pub write_error-Kept : (c : Context) (code : ℕ) (m : Message) → Kept c (write_error c code m)
unfolding write_error
write_error-Kept c code m = elim (Bool-cases c.response_written) [
  | inl e ↦ rw e (record { attempts = refl; deadlines = refl })
  | inr e ↦ rw e (record { attempts = refl; deadlines = refl })
]

write_upstream_error-Kept : (c : Context) (code : ℕ) → Kept c (write_upstream_error c code)
unfolding write_upstream_error
write_upstream_error-Kept c code = record { attempts = ground arith; deadlines = ground arith }

give_up-Decided :
    (p : AttemptPolicy) (rest : List Target) (c : Context) (m : Message) (w : World)
    → Decided p rest c (give_up c m w)
unfolding give_up add_step
give_up-Decided p rest c m w =
    let kept = write_upstream_error-Kept (add_step c "Routing Engine" "failed" m) c.response_code in
    record { attempts = kept.attempts; deadlines = kept.deadlines }

Kept-self :
    (c d : Context) → d.target_attempts ≡ c.target_attempts → d.deadlines ≡ c.deadlines → Kept c d
Kept-self c d a b = record { attempts = a; deadlines = b }

under_cap : (cap hops : ℕ) → (ltb 0 cap && leb cap hops) ≡ false → (cap ≡ 0) ⊎ (hops < cap)
under_cap cap hops h = ground arith

hop :
    (rest : List Target) (c : Context)
    → let d = if is_last rest then c else record c { fallback_count = c.fallback_count + 1 } in
      Kept c d
      × (d.socket ≡ c.socket)
      × (d.response_written ≡ c.response_written)
      × (d.fallback_count ≡ c.fallback_count + (if is_last rest then 0 else 1))
hop [] c = (Kept-self c c refl refl, refl, refl, omega arith)
hop (t ∷ rest) c = (Kept-self c _ refl refl, refl, refl, refl)

spend-Decided :
    (p : AttemptPolicy) (rest : List Target) (text : Message) (c : Context) (w : World)
    → Decided p rest c (spend (some p) rest text c w)
unfolding spend add_step
spend-Decided p rest text c w =
    let cap = max_fallback_count (some p) in
    elim (Bool-cases (ltb 0 cap && leb cap c.fallback_count)) [
      | inl e ↦
          let kept = write_error-Kept (add_step c "Routing Engine" "failed" _) c.response_code _ in
          rw e (Kept-self c _ kept.attempts kept.deadlines)
      | inr e ↦ let (a, b, d, f) = hop rest c in rw e (a, b, d, f, under_cap cap c.fallback_count e)
    ]

-- A step that is only noted in the trace changes nothing of this.
told-Decided :
    (p : AttemptPolicy) (rest : List Target) (c : Context) (name status : String) (m : Message)
    (x : Round)
    → Decided p rest (add_step c name status m) x
    → Decided p rest c x
unfolding add_step
told-Decided p rest c name status m (stop d w) h = Kept-self c d h.attempts h.deadlines
told-Decided p rest c name status m (advance e s d w) h =
    (Kept-self c d h.0.attempts h.0.deadlines, h.1, h.2, h.3, h.4)

fail_over-Decided :
    (p : AttemptPolicy) (t : Target) (rest : List Target) (text : Message) (c : Context) (w : World)
    → Decided p rest c (fail_over (some p) t rest text c w)
unfolding fail_over
fail_over-Decided p t [] text c w = give_up-Decided p [] c _ w
fail_over-Decided p t (u ∷ rest) text c w = elim (Bool-cases (str_eq u.model_name t.model_name)) [
  | inl e ↦ elim (Bool-cases (str_eq u.provider t.provider)) [
    | inl f ↦ rw (e, f) (spend-Decided p (u ∷ rest) text c w)
    | inr f ↦ rw (e, f) (give_up-Decided p (u ∷ rest) c _ w)
  ]
  | inr e ↦ rw e (told-Decided p (u ∷ rest) c _ _ _ _ (spend-Decided p (u ∷ rest) text _ w))
]

pub decide-Decided :
    (class : ErrorClass) (p : AttemptPolicy) (t : Target) (rest : List Target) (text : Message)
    (c : Context) (w : World)
    → Decided p rest c (decide class p t rest text c w)
unfolding decide
decide-Decided terminal p t rest text c w = give_up-Decided p rest c _ w
decide-Decided retryable p t rest text c w = spend-Decided p rest text c w
decide-Decided account_failover p t rest text c w = fail_over-Decided p t rest text c w
