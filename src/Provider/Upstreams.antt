-- ===== src/Provider/Upstreams.antt =====
-- The adapters of internal/gateway/providers: openai.go, anthropic.go and gemini.go. `Execute` sends one
-- request for an account; the key of the account goes into a header, or into Gemini's URL.
use my_ai_router.Common.{
  ℕ, zero, suc, ◌+◌, Bool, true, false, ◌&&◌, not, none, some, [], Dict, get, String, str_eq,
  is_empty, append, slice, len, trim_suffix, if◌then◌else◌,
}
use my_ai_router.Json.{Fields, string, member, set_member, string_at}
use my_ai_router.Translators.Requests.{openai_to_gemini}
use my_ai_router.Provider.{Execution}
use my_ai_router.Provider.Requests.{
  Account, HttpClient, HttpRequest, set_header, set_headers, with_custom, first_text, api_key_for,
  is_stream, openai_bases, base_or, base_for, executed,
}

abbrev pub with_alias : String → Fields → Fields
with_alias alias body = if is_empty alias then body else set_member "model" (string alias) body

abbrev pub desktop_header : HttpClient → Account → Dict String → Dict String
desktop_header client a headers =
    if str_eq a.provider "opencode"
    then set_header client "x-opencode-client" "desktop" headers
    else if str_eq a.provider "opencode-go"
    then set_header client "x-opencode-client" "desktop" headers
    else headers

abbrev pub organization_header : HttpClient → Account → Dict String → Dict String
organization_header client a headers =
    let org = string_at "orgId" a.settings in
    if str_eq a.provider "kilocode" && not (is_empty org)
    then set_header client "X-Kilocode-OrganizationID" org headers
    else headers

-- The request of `OpenAIProvider.Execute`
unfoldable pub openai_request : HttpClient → Account → Fields → HttpRequest
unfolding base_for api_key_for with_custom set_headers set_member get
openai_request client a body =
    let fixed =
      set_header client "Authorization" (append "Bearer " (api_key_for client a))
        (set_header client "Content-Type" "application/json" []) in
    let oauth = set_headers client (client.oauth.headers a) fixed in
    record {
      url =
          append
            (trim_suffix
              (base_for client a
                (base_or (get a.provider openai_bases) "https://api.openai.com/v1"))
              "/")
            "/chat/completions";
      headers = with_custom client a (organization_header client a (desktop_header client a oauth));
      body = with_alias (client.oauth.model_alias a) body;
    }

unfoldable pub openai_execute : HttpClient → Account → Fields → ℕ → Execution
unfolding executed openai_request
openai_execute client a body now =
    executed client (is_stream body) (client.exchange a (openai_request client a body) now)

-- The request of `AnthropicProvider.Execute`
unfoldable pub anthropic_request : HttpClient → Account → Fields → HttpRequest
unfolding base_for api_key_for with_custom
anthropic_request client a body = record {
  url = append (trim_suffix (base_for client a "https://api.anthropic.com/v1") "/") "/messages";
  headers = with_custom client a (
      set_header client "anthropic-version" "2023-06-01" (
        set_header client "x-api-key" (api_key_for client a)
          (set_header client "content-type" "application/json" [])));
  body = body;
}

unfoldable pub anthropic_execute : HttpClient → Account → Fields → ℕ → Execution
unfolding executed anthropic_request
anthropic_execute client a body now =
    executed client (is_stream body) (client.exchange a (anthropic_request client a body) now)

-- `model[strings.LastIndex(model, "/")+1:]`, searched from behind.
unfoldable pub behind_slash : String → ℕ → String
behind_slash s zero = s
behind_slash s (suc i) =
    let earlier = behind_slash s i in
    if str_eq (slice s i (i + 1)) "/" then slice s (i + 1) (len s) else earlier

unfoldable pub gemini_model : String → String
unfolding behind_slash
gemini_model named =
    let model = first_text named "gemini-1.5-flash" in behind_slash model (len model)

abbrev pub gemini_method : Bool → String
gemini_method true = ":streamGenerateContent?key="
gemini_method false = ":generateContent?key="

unfoldable pub gemini_body : Fields → Fields
unfolding openai_to_gemini
gemini_body body = elim (member "contents" body) [
  | some contents ↦ body
  | none ↦ openai_to_gemini body
]

-- The request of `GeminiProvider.Execute`, which reads no OAuth token.
unfoldable pub gemini_request : HttpClient → Account → Fields → HttpRequest
unfolding with_custom gemini_model gemini_body
gemini_request client a body = record {
  url = append "https://generativelanguage.googleapis.com/v1beta/models/" (
      append (gemini_model (string_at "model" body)) (
        append (gemini_method (is_stream body))
          (first_text (string_at "apiKey" a.settings) a.name)));
  headers = with_custom client a (set_header client "Content-Type" "application/json" []);
  body = gemini_body body;
}

unfoldable pub gemini_execute : HttpClient → Account → Fields → ℕ → Execution
unfolding executed gemini_request
gemini_execute client a body now =
    executed client (is_stream body) (client.exchange a (gemini_request client a body) now)
