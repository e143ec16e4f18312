-- ===== src/Prepare/Split.antt =====
-- internal/gateway/middleware/prepare.go: the messages that preparation protects.
use my_ai_router.Common.{
  ℕ, ◌-◌, Bool, false, List, [], ◌∷◌, ◌++◌, length, take, drop, ltb, str_eq, if◌then◌else◌,
}
use my_ai_router.Json.{Json, object, string_at}

-- The system messages at the start, the last messages, and those between them.
pub record Parts : Type 0 where
  pub leading : List Json
  pub older : List Json
  pub recent : List Json
  pub splits : Bool

abbrev pub is_system : Json → Bool
is_system (object m) = str_eq (string_at "role" m) "system"
is_system _ = false

unfoldable pub leading : List Json → List Json
leading [] = []
leading (x ∷ rest) = let later = leading rest in if is_system x then x ∷ later else []

unfoldable pub behind_leading : List Json → List Json
behind_leading [] = []
behind_leading (x ∷ rest) =
    let later = behind_leading rest in if is_system x then later else x ∷ rest

-- The last `count` messages of the conversation, where it has more, are the recent ones.
unfoldable pub split_messages : ℕ → List Json → Parts
unfolding leading behind_leading
split_messages count messages =
    let talk = behind_leading messages in
    let cut = length talk - count in
    record {
      leading = leading messages;
      older = take cut talk;
      recent = drop cut talk;
      splits = ltb count (length talk);
    }

abbrev pub joined : Parts → List Json
joined p = p.leading ++ (p.older ++ p.recent)
