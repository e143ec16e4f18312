-- ===== src/Provider/Events.antt =====
-- internal/gateway/middleware/provider.go: `handleSSEStream`, the relay of an event stream to the
-- client. Every writer here can flush. Response headers are left out.
use my_ai_router.Common.{
  ℕ, ◌+◌, ◌-◌, ◌/◌, Bool, true, false, Option, none, String, append, str_eq, len, is_empty, List,
  [], ◌∷◌, has_suffix, ltb, ◌==◌, TextOps, if◌then◌else◌,
}
use my_ai_router.Live.{ActivityTracker}
use my_ai_router.Live.Sessions.{first_token, output_bytes}
use my_ai_router.Context.{Socket, raw, write_header, write_chunk}
use my_ai_router.Translators.{Codec, Translated, translate_claude, translate_gemini}
use my_ai_router.Provider.Counts.{Tokens, no_tokens, stream_usage, take_counts}
use my_ai_router.Provider.Pieces.{Delta, extract_delta}

-- What the standard library does with text and with JSON.
pub record Tools : Type 0 where
  pub ops : TextOps
  pub codec : Codec

-- A line of the stream and the time at which it is read.
pub record Arrival : Type 0 where
  pub at : ℕ
  pub line : String

-- The lines of an upstream's body, and the error at which the scanner stops behind the last, if any.
pub record Stream : Type 0 where
  pub arrivals : List Arrival
  pub failure : Option String

pub record Relay : Type 0 where
  pub socket : Socket
  pub live : ActivityTracker
  pub now : ℕ
  pub tokens : Tokens
  pub ttfb_ms : ℕ
  pub received : Bool
  pub text : String
  pub total_chars : ℕ
  pub chunk_count : ℕ
  pub reason : String

abbrev pub open_relay : Socket → ActivityTracker → ℕ → Relay
open_relay socket live now = record {
  socket = write_header 200 socket;
  live = live;
  now = now;
  tokens = no_tokens;
  ttfb_ms = 0;
  received = false;
  text = "";
  total_chars = 0;
  chunk_count = 0;
  reason = "stop";
}

-- `time.Since(start)` in ms, and 1 ms where the clock has not moved.
abbrev since_ms : ℕ → ℕ → ℕ
since_ms start at = if (at - start) == 0 then 1 else (at - start) / 1_000_000

-- The first line that is not empty sets the time to the first token.
unfoldable pub note_first : String → ℕ → ℕ → Relay → Relay
note_first id start at r = if r.received then r else record r {
  ttfb_ms = since_ms start at;
  received = true;
  live = first_token r.live id (since_ms start at) at;
}

unfoldable pub translate : Tools → String → String → Translated
translate tools format line =
    if str_eq format "anthropic"
    then translate_claude tools.ops tools.codec line
    else if str_eq format "gemini"
    then translate_gemini tools.codec line
    else record { output = append line "\n\n"; done = has_suffix line "[DONE]" }

-- The preview takes whole pieces while it is shorter than 2048 bytes.
unfoldable pub note_delta : String → ℕ → Delta → Relay → Relay
note_delta id at d r =
    let counted : Relay = if is_empty d.text then r else record r {
      total_chars = r.total_chars + len d.text;
      chunk_count = r.chunk_count + 1;
      live = output_bytes r.live id (len d.text) at;
      text = if ltb (len r.text) 2048 then append r.text d.text else r.text;
    } in
    if is_empty d.reason then counted else record counted { reason = d.reason }

unfoldable pub send_output : Tools → String → ℕ → String → Relay → Relay
unfolding note_delta
send_output tools id at output r =
    if is_empty output
    then r
    else note_delta id at (extract_delta tools.ops (tools.codec.decode) output)
        (record r { socket = write_chunk (raw output) r.socket })

-- One line of the stream that is not empty.
unfoldable pub relay_line : Tools → String → String → ℕ → Arrival → Relay → Relay
unfolding note_first translate send_output
relay_line tools format id start a r =
    let timed = note_first id start a.at r in
    let counted = record timed {
      now = a.at;
      tokens = take_counts (stream_usage (tools.codec.decode) a.line) timed.tokens;
    } in
    send_output tools id a.at (translate tools format a.line).output counted

-- The scanner's loop, which ends early behind a line that closes the stream. The flag tells whether
-- the lines ran out.
unfoldable pub relay_lines : Tools → String → String → ℕ → List Arrival → Relay → Relay × Bool
unfolding relay_line
relay_lines tools format id start [] r = (r, true)
relay_lines tools format id start (a ∷ rest) r =
    let skipped = relay_lines tools format id start rest (record r { now = a.at }) in
    let sent = relay_line tools format id start a r in
    let later = relay_lines tools format id start rest sent in
    if is_empty a.line
    then skipped
    else if (translate tools format a.line).done
    then (sent, false)
    else later

-- The count of the answer's tokens where the upstream reports none.
unfoldable pub completion_of : Relay → ℕ
completion_of r =
    if ltb 0 r.tokens.completion
    then r.tokens.completion
    else if ltb 0 r.total_chars
    then (r.total_chars + 3) / 4
    else if ltb 0 r.chunk_count
    then r.chunk_count
    else if ltb 0 (len r.text)
    then (len r.text + 3) / 4
    else 1

-- `handleSSEStream`: the relay behind the stream, and the scanner's error.
unfoldable pub handle_stream :
    Tools → String → String → ℕ → Stream → Socket → ActivityTracker → ℕ → Relay × Option String
unfolding relay_lines completion_of
handle_stream tools format id start s socket live now =
    let (r, ran_out) = relay_lines tools format id start s.arrivals (open_relay socket live now) in
    (
      record r { tokens = record (r.tokens) { completion = completion_of r } },
      if ran_out then s.failure else none,
    )
