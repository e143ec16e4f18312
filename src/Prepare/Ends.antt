-- ===== src/Prepare/Ends.antt =====
-- What compression leaves of a conversation.
use my_ai_router.Common.{
  ℕ, zero, suc, ◌+◌, ◌-◌, ◌≤◌, ◌≡◌, ◌⊎◌, refl, sym, ap, ◌∙◌, inl, inr, true, Bool-cases, Option,
  none, some, List, [], ◌∷◌, ◌++◌, length, drop, take-append-drop, All, ltb→lt, ◌==◌, str_eq,
  eq_iff, String, arith, subst, false,
}
use my_ai_router.Json.{
  Json, Fields, Items, end, field, array, member, set_member, as_array, items_list, list_items,
}
use my_ai_router.Config.{Settings, ModelConfig}
use my_ai_router.Context.{PrepareResult}
use my_ai_router.Prepare.Body.{
  Engine, compress_older, compress_between, compress_body, preserve_count,
}
use my_ai_router.Prepare.Split.{is_system, leading, behind_leading, split_messages, joined}

leading-behind : (xs : List Json) → leading xs ++ behind_leading xs ≡ xs
unfolding leading behind_leading
leading-behind [] = refl
leading-behind (x ∷ rest) = elim (Bool-cases (is_system x)) [
  | inl e ↦ rw e (ap (λ l. x ∷ l) (leading-behind rest))
  | inr e ↦ rw e refl
]

leading-All : (xs : List Json) → All (λ x. is_system x ≡ true) (leading xs)
unfolding leading
leading-All [] = tt
leading-All (x ∷ rest) = elim (Bool-cases (is_system x)) [
  | inl e ↦ rw e (e, leading-All rest)
  | inr e ↦ rw e tt
]

split_messages-joined : (count : ℕ) (xs : List Json) → joined (split_messages count xs) ≡ xs
unfolding split_messages
split_messages-joined count xs =
    ap (λ l. leading xs ++ l)
      (take-append-drop (length (behind_leading xs) - count) (behind_leading xs))
    ∙ leading-behind xs

length-drop : (n : ℕ) (xs : List Json) → n ≤ length xs → n + length (drop n xs) ≡ length xs
length-drop zero xs h = omega arith
length-drop (suc n) [] h = omega (arith, h)
length-drop (suc n) (x ∷ xs) h = omega (arith, length-drop n xs (omega (arith, h)))

split_messages-recent :
    (count : ℕ) (xs : List Json)
    → (split_messages count xs).splits ≡ true
    → length (split_messages count xs).recent ≡ count
unfolding split_messages
split_messages-recent count xs e =
    let talk = behind_leading xs in
    omega
      (arith, ltb→lt count (length talk) e, length-drop (length talk - count) talk (omega arith))

member-set_member :
    (key : String) (v : Json) (m : Fields) → member key (set_member key v m) ≡ some v
unfolding member set_member
member-set_member key v end = rw ((eq_iff key key).1 refl) refl
member-set_member key v (field k old rest) = elim (Bool-cases (str_eq k key)) [
  | inl e ↦ rw (e, e) refl
  | inr e ↦ rw (e, e) (member-set_member key v rest)
]

items_list-list_items : (xs : List Json) → items_list (list_items xs) ≡ xs
items_list-list_items [] = refl
items_list-list_items (x ∷ rest) = ap (λ l. x ∷ l) (items_list-list_items rest)

-- The list does not start with a system message.
abbrev pub StartsOutside : List Json → Type 0
StartsOutside [] = Unit {0}
StartsOutside (x ∷ rest) = is_system x ≡ false

-- The messages before and behind compression. The system messages are all those at the start, the
-- recent ones the last `count`, and what lies between them is compressed.
abbrev pub KeepsEnds : (List Json → List Json) → ℕ → List Json → List Json → Type 0
KeepsEnds compressed count before after =
    (system : List Json) × (older : List Json) × (recent : List Json) × (before
      ≡ system ++ (older ++ recent))
    × (after ≡ system ++ (compressed older ++ recent))
    × All (λ x. is_system x ≡ true) system
    × StartsOutside (older ++ recent)
    × (length recent ≡ count)

behind_leading-StartsOutside : (xs : List Json) → StartsOutside (behind_leading xs)
unfolding behind_leading
behind_leading-StartsOutside [] = tt
behind_leading-StartsOutside (x ∷ rest) = elim (Bool-cases (is_system x)) [
  | inl e ↦ rw e (behind_leading-StartsOutside rest)
  | inr e ↦ rw e e
]

split_messages-StartsOutside :
    (count : ℕ) (xs : List Json)
    → StartsOutside ((split_messages count xs).older ++ (split_messages count xs).recent)
unfolding split_messages
split_messages-StartsOutside count xs =
    subst StartsOutside
      (sym (take-append-drop (length (behind_leading xs) - count) (behind_leading xs)))
      (behind_leading-StartsOutside xs)

abbrev pub messages_of : Fields → Option (List Json)
messages_of body = elim (as_array (member "messages" body)) [
  | none ↦ none
  | some items ↦ some (items_list items)
]

written_messages :
    (xs : List Json) (body : Fields)
    → messages_of (set_member "messages" (array (list_items xs)) body) ≡ some xs
unfolding as_array
written_messages xs body =
    rw (messages_of, member-set_member "messages" (array (list_items xs)) body)
      (ap some (items_list-list_items xs))

split_messages-All :
    (count : ℕ) (xs : List Json) → All (λ x. is_system x ≡ true) (split_messages count xs).leading
unfolding split_messages
split_messages-All count xs = leading-All xs

compress_between-KeepsEnds :
    (e : Engine) (s : Settings) (cfg : ModelConfig) (body : Fields) (xs : List Json)
    (r : PrepareResult)
    → let p = split_messages (preserve_count cfg.compression) xs in
      let done = (compress_between e s cfg body p r).0 in
      (done ≡ body)
      ⊎ ((after : List Json) × (messages_of done ≡ some after)
          × KeepsEnds (compress_older e s cfg.id) (preserve_count cfg.compression) xs after)
unfolding compress_between
compress_between-KeepsEnds e s cfg body xs r =
    let p = split_messages (preserve_count cfg.compression) xs in
    elim (Bool-cases p.splits) [
      | inr whole ↦ rw (compress_between, whole) (inl refl)
      | inl cut ↦
          let new = compress_older e s cfg.id p.older in
          let after = p.leading ++ (new ++ p.recent) in
          rw (compress_between, cut)
            (inr (
              after,
              written_messages after body,
              (
                p.leading,
                p.older,
                p.recent,
                sym (split_messages-joined (preserve_count cfg.compression) xs),
                refl,
                split_messages-All (preserve_count cfg.compression) xs,
                split_messages-StartsOutside (preserve_count cfg.compression) xs,
                split_messages-recent (preserve_count cfg.compression) xs cut,
              ),
            ))
    ]

-- Compression touches only the middle of a conversation: the request is as it was, or its messages are
-- all the system messages at its start, what the compression makes of the messages behind them, and, as
-- they were, as many of the last messages as the policy protects.
pub compress_body-KeepsEnds :
    (e : Engine) (s : Settings) (cfg : ModelConfig) (body : Fields) (items : Items)
    (r : PrepareResult)
    → as_array (member "messages" body) ≡ some items
    → let done = (compress_body e s cfg body r).0 in
      (done ≡ body)
      ⊎ ((after : List Json) × (messages_of done ≡ some after)
          × KeepsEnds
              (compress_older e s cfg.id)
              (preserve_count cfg.compression)
              (items_list items)
              after)
unfolding compress_body
compress_body-KeepsEnds e s cfg body items r has =
    elim (Bool-cases (length (items_list items) == 0)) [
      | inl empty ↦ rw (compress_body, has, empty) (inl refl)
      | inr some_there ↦
          rw (compress_body, has, some_there)
            (compress_between-KeepsEnds e s cfg body (items_list items) r)
    ]
