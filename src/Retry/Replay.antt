-- ===== src/Retry/Replay.antt =====
-- What a handler writes to a recorder is what the client gets when the record is replayed.
use my_ai_router.Common.{
  ℕ, ◌≡◌, refl, sym, ap, ◌∙◌, Option, none, some, List, [], ◌∷◌, ◌++◌, append_assoc, append-nil,
}
use my_ai_router.Context.{Chunk, Socket, new_socket, write_header, write_chunk}
use my_ai_router.Retry.Child.{replay}

-- One call of an `http.ResponseWriter`.
pub data Write : Type 0 where
  header : ℕ → Write
  piece : Chunk → Write

unfoldable pub write : Write → Socket → Socket
write (header code) s = write_header code s
write (piece chunk) s = write_chunk chunk s

unfoldable pub write_all : List Write → Socket → Socket
unfolding write
write_all [] s = s
write_all (x ∷ rest) s = write_all rest (write x s)

abbrev opened_by : Write → ℕ
opened_by (header code) = code
opened_by (piece chunk) = 200

abbrev body_of : Write → List Chunk
body_of (header code) = []
body_of (piece chunk) = chunk ∷ []

abbrev bodies : List Write → List Chunk
bodies [] = []
bodies (x ∷ rest) = body_of x ++ bodies rest

-- The socket under a status line that has gone out, with more pieces of body.
abbrev grown : Socket → ℕ → List Chunk → Socket
grown s code chunks = record {
  status = elim s.status [ none ↦ some code | some old ↦ some old ];
  chunks = s.chunks ++ chunks;
}

write_lem : (x : Write) (s : Socket) → write x s ≡ grown s (opened_by x) (body_of x)
unfolding write
write_lem (header code) s =
    ap (λ l. record (write_header code s) { chunks = l }) (sym (append-nil s.chunks))
write_lem (piece chunk) s = refl

-- Once a status line is out, only the body grows.
write_all_behind :
    (code : ℕ) (old : List Chunk) (ws : List Write)
    → write_all ws (record { status = some code; chunks = old })
      ≡ record { status = some code; chunks = old ++ bodies ws }
unfolding write_all
write_all_behind code old [] =
    ap (λ l. record { status = some code; chunks = l }) (sym (append-nil old))
write_all_behind code old (x ∷ ws) =
    ap (write_all ws) (write_lem x (record { status = some code; chunks = old }))
    ∙ write_all_behind code (old ++ body_of x) ws
    ∙ ap (λ l. record { status = some code; chunks = l }) (append_assoc old (body_of x) (bodies ws))

grown_twice :
    (o : Option ℕ) (old : List Chunk) (code : ℕ) (more : List Chunk) (ws : List Write)
    → write_all ws (grown (record { status = o; chunks = old }) code more)
      ≡ grown (record { status = o; chunks = old }) code (more ++ bodies ws)
grown_twice none old code more ws =
    write_all_behind code (old ++ more) ws
    ∙ ap (λ l. record { status = some code; chunks = l }) (append_assoc old more (bodies ws))
grown_twice (some first) old code more ws =
    write_all_behind first (old ++ more) ws
    ∙ ap (λ l. record { status = some first; chunks = l }) (append_assoc old more (bodies ws))

write_all_lem :
    (x : Write) (ws : List Write) (s : Socket)
    → write_all (x ∷ ws) s ≡ grown s (opened_by x) (body_of x ++ bodies ws)
unfolding write_all
write_all_lem x ws s =
    ap (write_all ws) (write_lem x s) ∙ grown_twice s.status s.chunks (opened_by x) (body_of x) ws

-- The calls that a child makes on its recorder reach the client, when the record is replayed, just as
-- if the child had made them on the client's socket, where it makes one call or more.
pub replay-write_all :
    (x : Write) (ws : List Write) (s : Socket)
    → replay (write_all (x ∷ ws) new_socket) s ≡ write_all (x ∷ ws) s
unfolding replay
replay-write_all x ws s =
    ap (λ r. replay r s) (write_all_lem x ws new_socket) ∙ sym (write_all_lem x ws s)
