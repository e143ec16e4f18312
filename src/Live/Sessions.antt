-- ===== src/Live/Sessions.antt =====
-- pkg/gateway/live.go: the calls by which a request reports its progress.
use my_ai_router.Common.{
  ℕ, ◌+◌, ◌-◌, Bool, true, ◌&&◌, Option, none, some, put, get, ltb, if◌then◌else◌, String, is_empty,
}
use my_ai_router.Live.{Session, ActivityTracker, step_to, update, reap, activity_stall_grace}

unfoldable pub set_step : ActivityTracker → String → String → ℕ → ActivityTracker
set_step t id step now = update t id (step_to step now)

abbrev resolved_session : String → String → String → ℕ → ℕ → Session → Session
resolved_session original_model combo_name combo_kind targets now s =
    step_to "Routed" now (record s {
      original_model = original_model;
      combo = if is_empty combo_name then s.combo else combo_name;
      kind = if is_empty combo_kind then s.kind else combo_kind;
      targets = if ltb 0 targets then targets else s.targets;
    })

unfoldable pub combo_resolved :
    ActivityTracker → String → String → String → String → ℕ → ℕ → ActivityTracker
combo_resolved t id original_model combo_name combo_kind targets now =
    update t id (resolved_session original_model combo_name combo_kind targets now)

unfoldable pub set_targets : ActivityTracker → String → ℕ → ActivityTracker
set_targets t id n = update t id (λ s. record s { targets = if ltb 0 n then n else s.targets })

abbrev started_session : String → String → ℕ → ℕ → Session → Session
started_session provider model attempt now s = step_to "Upstream" now (record s {
  provider = if is_empty provider then s.provider else provider;
  model = if is_empty model then s.model else model;
  attempt = if ltb 0 attempt then attempt else s.attempt;
  inflight = s.inflight + 1;
})

unfoldable pub attempt_started :
    ActivityTracker → String → String → String → ℕ → ℕ → ActivityTracker
attempt_started t id provider model attempt now =
    update t id (started_session provider model attempt now)

abbrev finished_session : Session → Session
finished_session s = record s { inflight = if ltb 0 s.inflight then s.inflight - 1 else s.inflight }

unfoldable pub attempt_finished : ActivityTracker → String → ActivityTracker
attempt_finished t id = update t id finished_session

unfoldable pub mark_stream : ActivityTracker → String → Bool → ℕ → ActivityTracker
mark_stream t id stream now =
    if stream then update t id (λ s. step_to "Streaming" now (record s { stream = true })) else t

unfoldable pub first_token : ActivityTracker → String → ℕ → ℕ → ActivityTracker
first_token t id ttfb_ms now =
    update t id (λ s. step_to "Streaming" now (record s { ttfb_ms = ttfb_ms }))

unfoldable pub output_bytes : ActivityTracker → String → ℕ → ℕ → ActivityTracker
output_bytes t id n now =
    if ltb 0 n
    then update t id (λ s. record s { out_tokens = s.out_tokens + n; last_output = now })
    else t

abbrev closed_session : ℕ → Bool → ℕ → ℕ → String → ℕ → Session → Session
closed_session response_code ok prompt_tokens completion err_text now s =
    record (step_to "Done" now s) {
      done = true;
      ok = ok;
      response_code = response_code;
      prompt_tokens = prompt_tokens;
      completion = completion;
      ended_at = now;
      err_text = err_text;
      inflight = 0;
    }

unfoldable pub close_found :
    ActivityTracker → String → (Session → Session) → Bool → ℕ → Option Session → ActivityTracker
close_found t id close ok now none = t
close_found t id close ok now (some s) =
    if s.done
    then t
    else reap
        (record t {
          sessions = put id (close s) t.sessions;
          active = if ltb 0 t.active then t.active - 1 else t.active;
          errors = if ok then t.errors else t.errors + 1;
        })
        now

unfoldable pub finish : ActivityTracker → String → ℕ → Bool → ℕ → ℕ → String → ℕ → ActivityTracker
unfolding close_found
finish t id response_code ok prompt_tokens completion err_text now =
    if is_empty id
    then t
    else close_found t id (closed_session response_code ok prompt_tokens completion err_text now) ok
        now (get id t.sessions)

pub data Status : Type 0 where
  status_ok status_error status_running status_waiting : Status

unfoldable pub session_status : Session → ℕ → Status
session_status s now =
    if s.done && s.ok
    then status_ok
    else if s.done
    then status_error
    else if ltb 0 s.inflight && ltb (now - s.last_output) activity_stall_grace
    then status_running
    else if ltb 0 s.inflight
    then status_waiting
    else if ltb (now - s.last_step) activity_stall_grace
    then status_running
    else status_waiting
