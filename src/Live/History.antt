-- ===== src/Live/History.antt =====
-- The activity tracker under any history of the calls that the gateway makes.
use my_ai_router.Common.{
  ℕ, ◌≤◌, ◌<◌, ◌≡◌, refl, Bool, true, false, none, get, String, arith, [], ltb, Bool-cases, inl,
  inr,
}
use my_ai_router.Live.{Session, ActivityTracker, reap, begin_activity}
use my_ai_router.Live.Sessions.{
  set_step, combo_resolved, set_targets, attempt_started, attempt_finished, mark_stream,
  first_token, output_bytes, finish, session_status, status_waiting,
}
use my_ai_router.Live.Accounting.{
  IsAccounted, reap-IsAccounted, begin_activity-IsAccounted, update-IsAccounted, finish-IsAccounted,
}

abbrev pub empty_tracker : ActivityTracker
empty_tracker = record { sessions = []; active = 0; errors = 0; retries = 0 }

-- A call of the gateway. A request begins under an id that the map does not hold.
pub data Call (t : ActivityTracker) : ActivityTracker → Type 0 where
  begins :
      (id model : String) (now : ℕ)
      → get id (reap t now).sessions ≡ none
      → Call t (begin_activity t id model now).0
  steps : (id step : String) (now : ℕ) → Call t (set_step t id step now)
  resolves :
      (id original combo kind : String) (targets now : ℕ)
      → Call t (combo_resolved t id original combo kind targets now)
  routes : (id : String) (targets : ℕ) → Call t (set_targets t id targets)
  attempts :
      (id provider model : String) (attempt now : ℕ)
      → Call t (attempt_started t id provider model attempt now)
  returns : (id : String) → Call t (attempt_finished t id)
  streams : (id : String) (stream : Bool) (now : ℕ) → Call t (mark_stream t id stream now)
  answers : (id : String) (ttfb now : ℕ) → Call t (first_token t id ttfb now)
  emits : (id : String) (bytes now : ℕ) → Call t (output_bytes t id bytes now)
  ends :
      (id : String) (code : ℕ) (ok : Bool) (prompt completion : ℕ) (err : String) (now : ℕ)
      → Call t (finish t id code ok prompt completion err now)
  sweeps : (now : ℕ) → Call t (reap t now)

pub data History (t : ActivityTracker) : ActivityTracker → Type 0 where
  start : History t t
  after : {u v : ActivityTracker} → History t u → Call u v → History t v

Call-IsAccounted : {t u : ActivityTracker} → Call t u → IsAccounted t → IsAccounted u
unfolding set_step combo_resolved set_targets attempt_started attempt_finished mark_stream
    first_token output_bytes
Call-IsAccounted {t} (begins id model now fresh) h =
    begin_activity-IsAccounted t id model now fresh h
Call-IsAccounted {t} (steps id step now) h = update-IsAccounted t id _ (λ s e. e) h
Call-IsAccounted {t} (resolves id original combo kind targets now) h =
    update-IsAccounted t id _ (λ s e. e) h
Call-IsAccounted {t} (routes id targets) h = update-IsAccounted t id _ (λ s e. e) h
Call-IsAccounted {t} (attempts id provider model attempt now) h =
    update-IsAccounted t id _ (λ s e. e) h
Call-IsAccounted {t} (returns id) h = update-IsAccounted t id _ (λ s e. e) h
Call-IsAccounted {t} (streams id true now) h = update-IsAccounted t id _ (λ s e. e) h
Call-IsAccounted {t} (streams id false now) h = h
Call-IsAccounted {t} (answers id ttfb now) h = update-IsAccounted t id _ (λ s e. e) h
Call-IsAccounted {t} (emits id bytes now) h = elim (Bool-cases (ltb 0 bytes)) [
  | inl e ↦ rw e (update-IsAccounted t id _ (λ s e. e) h)
  | inr e ↦ rw e h
]
Call-IsAccounted {t} (ends id code ok prompt completion err now) h =
    finish-IsAccounted t id code ok prompt completion err now h
Call-IsAccounted {t} (sweeps now) h = (reap-IsAccounted t now h).0

empty-IsAccounted : IsAccounted empty_tracker
empty-IsAccounted = record { distinct = tt; counted = refl; bounded = omega arith }

-- After any history from the empty tracker the counter is the number of unfinished sessions, no id
-- stands twice, and at most 201 sessions are kept: one more than `activityMaxSessions`.
pub History-IsAccounted : {t : ActivityTracker} → History empty_tracker t → IsAccounted t
History-IsAccounted start = empty-IsAccounted
History-IsAccounted (after h c) = Call-IsAccounted c (History-IsAccounted h)

-- A request whose upstream call has produced no byte yet is reported as waiting at once, however
-- recent its last step, and not only after `activityStallGrace`.
pub session_status_early :
    (s : Session) (now : ℕ)
    → s.done ≡ false
    → 0 < s.inflight
    → s.last_output ≡ 0
    → 8_000_000_000 ≤ now
    → session_status s now ≡ status_waiting
unfolding session_status
session_status_early s now d i o n = ground arith
