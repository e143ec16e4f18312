-- ===== src/Translators/Conversation.antt =====
-- Which messages a translated request carries.
use my_ai_router.Common.{
  ◌≡◌, refl, sym, ap, ◌∙◌, inl, inr, Bool-cases, none, some, Option-cases, List, [], ◌∷◌, ◌++◌,
  append_assoc, append-nil, if◌then◌else◌,
}
use my_ai_router.Json.{Json, Fields, object, as_array, member, items_list}
use my_ai_router.Translators.Requests.{
  is_system, Parted, part_message, part_messages, parted, nothing_parted,
}

-- The messages of the conversation, which are the objects under another role than those of system
-- texts, in the shape of the upstream.
abbrev pub spoken : (Fields → Json) → Json → List Json
spoken shape (object m) = if is_system m then [] else shape m ∷ []
spoken shape _ = []

abbrev pub conversation : (Fields → Json) → List Json → List Json
conversation shape [] = []
conversation shape (x ∷ rest) = spoken shape x ++ conversation shape rest

part_message_lem :
    (shape : Fields → Json) (x : Json) (p : Parted)
    → (part_message shape x p).messages ≡ p.messages ++ spoken shape x
unfolding part_message
part_message_lem shape (object m) p = elim (Bool-cases (is_system m)) [
  | inl e ↦ rw e (sym (append-nil p.messages))
  | inr e ↦ rw e refl
]
part_message_lem shape Json.null p = sym (append-nil p.messages)
part_message_lem shape (Json.bool b) p = sym (append-nil p.messages)
part_message_lem shape (Json.number n) p = sym (append-nil p.messages)
part_message_lem shape (Json.string s) p = sym (append-nil p.messages)
part_message_lem shape (Json.array xs) p = sym (append-nil p.messages)

part_messages_lem :
    (shape : Fields → Json) (xs : List Json) (p : Parted)
    → (part_messages shape xs p).messages ≡ p.messages ++ conversation shape xs
unfolding part_messages
part_messages_lem shape [] p = sym (append-nil p.messages)
part_messages_lem shape (x ∷ rest) p =
    part_messages_lem shape rest (part_message shape x p)
    ∙ ap (λ l. l ++ conversation shape rest) (part_message_lem shape x p)
    ∙ append_assoc p.messages (spoken shape x) (conversation shape rest)

-- A request in the shape of Anthropic or Gemini carries the messages of the conversation, each once
-- and in their order: system texts are taken out of them, and so is what is no object.
pub parted-conversation :
    (shape : Fields → Json) (body : Fields)
    → (parted shape body).messages ≡ elim (as_array (member "messages" body)) [
      | none ↦ []
      | some items ↦ conversation shape (items_list items)
    ]
unfolding parted
parted-conversation shape body = elim (Option-cases (as_array (member "messages" body))) [
  | inl e ↦ rw (parted, e) refl
  | inr (items, e) ↦ rw (parted, e) (part_messages_lem shape (items_list items) nothing_parted)
]
