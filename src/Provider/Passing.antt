-- ===== src/Provider/Passing.antt =====
-- What a stream in OpenAI's shape sends to the client.
use my_ai_router.Common.{append, is_empty, List, [], ◌∷◌, has_suffix, if◌then◌else◌}
use my_ai_router.Context.{Chunk, raw}
use my_ai_router.Provider.Events.{Arrival}

-- The lines that are not empty, each with an empty line behind it, up to the one that closes the
-- stream.
abbrev pub passed : List Arrival → List Chunk
passed [] = []
passed (a ∷ rest) =
    if is_empty a.line
    then passed rest
    else raw (append a.line "\n\n") ∷ (if has_suffix a.line "[DONE]" then [] else passed rest)
