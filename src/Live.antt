-- ===== src/Live.antt =====
-- pkg/gateway/live.go: the record of running requests that the dashboard polls.
-- Times are nanoseconds and 0 is Go's zero time. The rolling rates, which are floats, are left out.
pub mod Sessions
pub mod Counting
pub mod Accounting
pub mod History
use my_ai_router.Common.{
  ℕ, zero, suc, ◌+◌, ◌-◌, Bool, true, false, ◌&&◌, not, Option, none, some, List, [], ◌∷◌, Dict,
  get, put, delete, ltb, leb, ◌==◌, if◌then◌else◌, String, str_eq, is_empty, keep_if, length,
}

pub record Session : Type 0 where
  pub model : String
  pub original_model : String
  pub provider : String
  pub combo : String
  pub kind : String
  pub stream : Bool
  pub started : ℕ
  pub last_step : ℕ
  pub step : String
  pub step_count : ℕ
  pub targets : ℕ
  pub attempt : ℕ
  pub inflight : ℕ
  pub ok : Bool
  pub done : Bool
  pub ended_at : ℕ
  pub err_text : String
  pub response_code : ℕ
  pub ttfb_ms : ℕ
  pub prompt_tokens : ℕ
  pub completion : ℕ
  pub out_tokens : ℕ
  pub last_output : ℕ

pub record ActivityTracker : Type 0 where
  pub sessions : Dict Session
  pub active : ℕ
  pub errors : ℕ
  pub retries : ℕ

abbrev pub activity_stall_grace : ℕ
activity_stall_grace = 8_000_000_000

abbrev pub activity_grace : ℕ
activity_grace = 4_000_000_000

abbrev pub activity_max_sessions : ℕ
activity_max_sessions = 200

abbrev pub new_session : String → ℕ → Session
new_session model now = record {
  model = model;
  original_model = "";
  provider = "";
  combo = "";
  kind = "";
  stream = false;
  started = now;
  last_step = now;
  step = "Received";
  step_count = 0;
  targets = 0;
  attempt = 0;
  inflight = 0;
  ok = false;
  done = false;
  ended_at = 0;
  err_text = "";
  response_code = 0;
  ttfb_ms = 0;
  prompt_tokens = 0;
  completion = 0;
  out_tokens = 0;
  last_output = 0;
}

abbrev pub step_to : String → ℕ → Session → Session
step_to name now s = record s { step = name; last_step = now; step_count = s.step_count + 1 }

-- A finished session whose grace is over.
abbrev pub is_stale : ℕ → Session → Bool
is_stale now s = s.done && (not (s.ended_at == 0) && ltb activity_grace (now - s.ended_at))

unfoldable pub drop_stale : ℕ → Dict Session → Dict Session
drop_stale now [] = []
drop_stale now ((id, s) ∷ rest) =
    let later = drop_stale now rest in if is_stale now s then later else (id, s) ∷ later

-- The session that started first; among equals the first one met.
unfoldable pub older_of : String × Session → Option (String × Session) → String × Session
older_of (id, s) none = (id, s)
older_of (id, s) (some (j, t)) = if ltb t.started s.started then (j, t) else (id, s)

unfoldable pub oldest : Dict Session → Option (String × Session)
oldest [] = none
oldest (e ∷ rest) = some (older_of e (oldest rest))

unfoldable pub evict : ActivityTracker → Option (String × Session) → ActivityTracker
evict t none = t
evict t (some (id, s)) = record t {
  sessions = delete id t.sessions;
  active = if not s.done && ltb 0 t.active then t.active - 1 else t.active;
}

unfoldable pub reap : ActivityTracker → ℕ → ActivityTracker
reap t now =
    let kept = record t { sessions = drop_stale now t.sessions } in
    if leb (length kept.sessions) activity_max_sessions
    then kept
    else evict kept (oldest kept.sessions)

unfoldable pub begin_activity : ActivityTracker → String → String → ℕ → ActivityTracker × String
begin_activity t id model now =
    if is_empty id
    then (t, "")
    else let reaped = reap t now in
      (
        record reaped {
          sessions = put id (new_session model now) reaped.sessions;
          active = reaped.active + 1;
        },
        id,
      )

-- `update`: a missing, unnamed or finished session is left alone.
unfoldable pub update_found :
    ActivityTracker → String → (Session → Session) → Option Session → ActivityTracker
update_found t id f none = t
update_found t id f (some s) = if s.done then t else record t { sessions = put id (f s) t.sessions }

unfoldable pub update : ActivityTracker → String → (Session → Session) → ActivityTracker
unfolding update_found
update t id f = if is_empty id then t else update_found t id f (get id t.sessions)
