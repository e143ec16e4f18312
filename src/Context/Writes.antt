-- ===== src/Context/Writes.antt =====
-- What the two writers of an error send to the client's socket.
use my_ai_router.Common.{ℕ, ◌≤◌, ◌≡◌, true, false, Message, ltb, if◌then◌else◌, is_empty, arith}
use my_ai_router.Context.{Context, raw, send, write_error, write_upstream_error}

-- A response goes out at most once: behind it both writers leave the socket as it is.
written_once :
    (c : Context) (code : ℕ) (message : Message)
    → c.response_written ≡ true
    → ((write_error c code message).socket ≡ c.socket)
      × ((write_upstream_error c code).socket ≡ c.socket)
unfolding write_error write_upstream_error
written_once c code message h = ground arith

-- Where nothing has been written and the upstream sent a body, its body goes to the client as it is,
-- under its own status, or under 502 where that is no error status.
pub write_upstream_error_relays :
    (c : Context) (code : ℕ)
    → c.response_written ≡ false
    → is_empty c.response_body ≡ false
    → let sent = write_upstream_error c code in
      (sent.socket ≡ send (if ltb code 400 then 502 else code) (raw c.response_body) c.socket)
      × (400 ≤ sent.response_code)
      × (sent.response_written ≡ true)
unfolding write_upstream_error
write_upstream_error_relays c code h b = ground arith

-- Where nothing has been written and the upstream sent no body, nothing goes to the client: the flag
-- is set first, so the error message that should follow is dropped.
pub write_upstream_error_drops :
    (c : Context) (code : ℕ)
    → c.response_written ≡ false
    → is_empty c.response_body ≡ true
    → let sent = write_upstream_error c code in
      (sent.socket ≡ c.socket) × (sent.response_written ≡ true) × (400 ≤ sent.response_code)
unfolding write_upstream_error
write_upstream_error_drops c code h b = ground arith

-- Two requests with the same socket, flag and answer get the same error, and the status that the code
-- has mapped already is mapped to itself.
pub write_upstream_error_same :
    (x y : Context) (code : ℕ)
    → x.socket ≡ y.socket
    → x.response_written ≡ y.response_written
    → x.response_body ≡ y.response_body
    → ((write_upstream_error x (if ltb code 400 then 502 else code)).socket
        ≡ (write_upstream_error y code).socket)
      × (400 ≤ (write_upstream_error x (if ltb code 400 then 502 else code)).response_code)
unfolding write_upstream_error write_error
write_upstream_error_same x y code s f b = ground arith
