-- ===== src/Prepare/Tools.antt =====
-- pkg/rtk/injectors.go: the shortening of tool outputs, and the call of Headroom. Which filter a text
-- gets, if any, is an argument.
use my_ai_router.Common.{
  Bool, false, ◌&&◌, not, Option, none, some, String, str_eq, len, List, [], ◌∷◌, ltb, leb, ◌||◌,
  ◌==◌, if◌then◌else◌,
}
use my_ai_router.Json.{
  Json, Fields, Items, string, array, object, cons, nil, member, set_member, as_string, as_array,
  as_bool, string_at,
}

-- `AutoDetectFilter`
abbrev pub Detect : Type 0
Detect = String → Option (String → String)

-- `compressText`: a filter that empties a text or does not shorten it is passed over.
unfoldable pub compress_text : Detect → String → String
compress_text detect text =
    let filtered : String = elim (detect text) [ none ↦ text | some filter ↦ filter text ] in
    if ltb (len text) 100
    then text
    else if (len filtered == 0) || leb (len text) (len filtered)
    then text
    else filtered

-- The member under a key, shortened where it is a string.
unfoldable pub compress_member : Detect → String → Fields → Fields
unfolding compress_text
compress_member detect key m = elim (as_string (member key m)) [
  | none ↦ m
  | some text ↦ set_member key (string (compress_text detect text)) m
]

-- Of a list of parts, those of the type "text".
unfoldable pub compress_parts : Detect → Items → Items
unfolding compress_member
compress_parts detect nil = nil
compress_parts detect (cons (object m) rest) =
    let later = compress_parts detect rest in
    cons
      (object (if str_eq (string_at "type" m) "text" then compress_member detect "text" m else m))
      later
compress_parts detect (cons x rest) = cons x (compress_parts detect rest)

-- A content that is a string or a list of parts.
unfoldable pub compress_content : Detect → Fields → Fields
unfolding compress_parts compress_member
compress_content detect m = elim (as_array (member "content" m)) [
  | none ↦ compress_member detect "content" m
  | some parts ↦ set_member "content" (array (compress_parts detect parts)) m
]

abbrev pub is_error : Fields → Bool
is_error m = elim (as_bool (member "is_error" m)) [ none ↦ false | some b ↦ b ]

-- The blocks of Anthropic's type "tool_result" that are no errors.
unfoldable pub compress_results : Detect → Items → Items
unfolding compress_content
compress_results detect nil = nil
compress_results detect (cons (object m) rest) =
    let later = compress_results detect rest in
    cons
      (object (
        if str_eq (string_at "type" m) "tool_result" && not (is_error m)
        then compress_content detect m
        else m))
      later
compress_results detect (cons x rest) = cons x (compress_results detect rest)

unfoldable pub compress_message : Detect → Json → Json
unfolding compress_member compress_content compress_results
compress_message detect (object m) =
    let blocks : Fields = elim (as_array (member "content" m)) [
      | none ↦ m
      | some parts ↦ set_member "content" (array (compress_results detect parts)) m
    ] in
    object (
      if str_eq (string_at "type" m) "function_call_output"
      then compress_member detect "output" m
      else if str_eq (string_at "role" m) "tool"
      then compress_content detect m
      else blocks)
compress_message detect x = x

-- `CompressMessages`, on the messages that preparation hands to it.
unfoldable pub compress_messages : Bool → Detect → List Json → List Json
unfolding compress_message
compress_messages enabled detect [] = []
compress_messages enabled detect (x ∷ rest) =
    let later = compress_messages enabled detect rest in
    (if enabled then compress_message detect x else x) ∷ later

-- `CompressWithHeadroom`: `reply` is the list of messages of a reply with status 200 that decodes.
unfoldable pub with_headroom : Option (List Json) → List Json → List Json
with_headroom none messages = messages
with_headroom (some []) messages = messages
with_headroom (some (x ∷ rest)) messages = x ∷ rest
