-- ===== src/Provider/Requests.antt =====
-- The adapters of internal/gateway/providers (openai.go, anthropic.go, gemini.go) and the request bodies
-- of provider.go: the parts of a request that they share, and what an answer becomes. The HTTP client,
-- the account's OAuth state and the disguise of headers are arguments.
use my_ai_router.Common.{
  ℕ, Bool, true, false, ◌&&◌, not, Option, none, some, List, [], ◌∷◌, Dict, put, String, str_eq,
  is_empty, ◌==◌, if◌then◌else◌,
}
use my_ai_router.Json.{
  Items, cons, Fields, end, field, string, member, as_string, as_bool, as_object, as_array,
  string_at,
}
use my_ai_router.Provider.{Execution}
use my_ai_router.Provider.Events.{Stream}

-- `db.ProviderConnection` as an adapter reads it.
pub record Account : Type 0 where
  pub provider : String
  pub name : String
  pub settings : Fields

-- What the OAuth state of an account gives: a token, a model, a base and headers; a text is empty where
-- there is none.
pub record OAuth : Type 0 where
  pub access_token : Account → String
  pub model_alias : Account → String
  pub base_url : Account → String
  pub headers : Account → Dict String

pub record HttpRequest : Type 0 where
  pub url : String
  pub headers : Dict String
  pub body : Fields

-- No answer, or one with its status, its body as a stream, and its body as a text, which may break off.
pub data HttpReply : Type 0 where
  no_reply : String → ℕ → HttpReply
  reply : ℕ → Stream → String → Option String → ℕ → HttpReply

-- `canonical` is the spelling under which `http.Header` keeps a name, and `nothing` the stream of an
-- answer that is none.
pub record HttpClient : Type 0 where
  pub oauth : OAuth
  pub canonical : String → String
  pub anti_detect : Account → Dict String → Dict String
  pub exchange : Account → HttpRequest → ℕ → HttpReply
  pub nothing : Stream

-- `SanitizeRequestBody`: only Mistral has restricted fields.
unfoldable pub remove_member : String → Fields → Fields
remove_member key end = end
remove_member key (field k v rest) =
    let later = remove_member key rest in if str_eq k key then later else field k v later

unfoldable pub sanitize_request_body : String → Fields → Fields
unfolding remove_member
sanitize_request_body provider body =
    if str_eq provider "mistral" then remove_member "store" body else body

abbrev pub second_text : Items → String
second_text (cons first (cons (string s) rest)) = s
second_text _ = ""

-- The field that one detail of a 422 answer rejects, or the empty text.
abbrev pub rejected_at : Items → String
rejected_at (cons (string place) rest) =
    if str_eq place "body" then second_text (cons (string place) rest) else ""
rejected_at _ = ""

abbrev pub rejected_loc : Option Items → String
rejected_loc none = ""
rejected_loc (some loc) = rejected_at loc

unfoldable pub rejected_fields : List Fields → List String
rejected_fields [] = []
rejected_fields (d ∷ rest) =
    let later = rejected_fields rest in
    let name = rejected_loc (as_array (member "loc" d)) in
    if str_eq (string_at "type" d) "extra_forbidden" && not (is_empty name)
    then name ∷ later
    else later

-- `req.Header.Set`
abbrev pub set_header : HttpClient → String → String → Dict String → Dict String
set_header client name value headers = put (client.canonical name) value headers

unfoldable pub set_headers : HttpClient → Dict String → Dict String → Dict String
set_headers client [] headers = headers
set_headers client ((name, value) ∷ rest) headers =
    set_headers client rest (set_header client name value headers)

-- The members of "headers" that are texts.
unfoldable pub custom_headers : Fields → Dict String
custom_headers end = []
custom_headers (field k v rest) = elim (as_string (some v)) [
  | none ↦ custom_headers rest
  | some s ↦ (k, s) ∷ custom_headers rest
]

abbrev pub custom_of : Option Fields → Dict String
unfolding custom_headers
custom_of none = []
custom_of (some m) = custom_headers m

unfoldable pub with_custom : HttpClient → Account → Dict String → Dict String
unfolding set_headers
with_custom client a headers =
    client.anti_detect a
      (set_headers client (custom_of (as_object (member "headers" a.settings))) headers)

abbrev pub first_text : String → String → String
first_text a b = if is_empty a then b else a

-- The key that stands for the account: a token of OAuth, else the stored key, else its name.
unfoldable pub api_key_for : HttpClient → Account → String
api_key_for client a =
    first_text (client.oauth.access_token a) (first_text (string_at "apiKey" a.settings) a.name)

abbrev pub is_stream : Fields → Bool
is_stream body = elim (as_bool (member "stream" body)) [ none ↦ false | some b ↦ b ]

-- The table of base URLs in openai.go.
abbrev pub openai_bases : List (String × String)
openai_bases =
    ("groq", "https://api.groq.com/openai/v1")
    ∷ ("nvidia", "https://integrate.api.nvidia.com/v1")
    ∷ ("openrouter", "https://openrouter.ai/api/v1")
    ∷ ("deepseek", "https://api.deepseek.com/v1")
    ∷ ("glm", "https://open.bigmodel.cn/api/paas/v4")
    ∷ ("glm-coding", "https://open.bigmodel.cn/api/coding/paas/v4")
    ∷ ("cerebras", "https://api.cerebras.ai/v1")
    ∷ ("opencode-zen", "https://opencode.ai/zen/v1")
    ∷ ("opencode", "https://opencode.ai/zen/v1")
    ∷ ("opencode-go", "https://opencode.ai/zen/go/v1")
    ∷ []

abbrev pub base_or : Option String → String → String
base_or none default = default
base_or (some url) default = url

unfoldable pub base_for : HttpClient → Account → String → String
base_for client a default =
    first_text (string_at "baseUrl" a.settings) (first_text (client.oauth.base_url a) default)

-- What an answer becomes: a stream where one was asked for and the status is 200, else its body.
unfoldable pub executed : HttpClient → Bool → HttpReply → Execution
executed client stream (no_reply e finished) = record {
  error = some e;
  response_code = 0;
  body = "";
  is_stream = false;
  stream = client.nothing;
  finished = finished;
}
executed client stream (reply status opened text broken finished) =
    if stream && (status == 200)
    then record {
      error = none;
      response_code = status;
      body = "";
      is_stream = true;
      stream = opened;
      finished = finished;
    }
    else record {
      error = broken;
      response_code = status;
      body = text;
      is_stream = false;
      stream = client.nothing;
      finished = finished;
    }
