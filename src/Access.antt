-- ===== src/Access.antt =====
-- internal/gateway/middleware/auth.go with pkg/db/apikeys.go: who may send a request.
pub mod Admission
pub mod Anonymous
use my_ai_router.Common.{
  ℕ, ◌+◌, Bool, true, false, ◌&&◌, not, Option, none, some, List, [], ◌∷◌, Dict, get, String,
  str_eq, is_empty, has_prefix, trim_prefix, Message, lit, num, quoted, note, ltb, leb, ◌==◌,
  if◌then◌else◌,
}
use my_ai_router.Json.{string_at}
use my_ai_router.Config.{Settings}
use my_ai_router.Context.{Context, add_step, write_error}
use my_ai_router.Pipeline.{World, Outcome, Handler, Middleware, return}

pub record ApiKeyScope : Type 0 where
  pub allowed_models : List String
  pub daily_token_limit : ℕ

pub record ApiKey : Type 0 where
  pub key : String
  pub is_active : Bool
  pub scope : ApiKeyScope

-- What `Auth` reads: the table of keys; whether the three queries of it are answered (a listing, a
-- key's flag, a key's record: the first and the last also fail on a row with a column that is NULL);
-- the tokens that a key has used today, the admin sessions with their expiry, and the request's
-- header and cookie.
pub record Credentials : Type 0 where
  pub keys : List ApiKey
  pub lists : Bool
  pub validates : String → Bool
  pub finds : String → Bool
  pub used_today : String → ℕ
  pub sessions : Dict ℕ
  pub authorization : String
  pub cookie : Option String

unfoldable pub find_key : String → List ApiKey → Option ApiKey
find_key value [] = none
find_key value (k ∷ rest) =
    let later = find_key value rest in if str_eq k.key value then some k else later

-- `FindApiKeyByValue`
unfoldable pub key_record : Credentials → String → Option ApiKey
key_record cr value = if cr.finds value then find_key value cr.keys else none

abbrev pub is_active_key : Option ApiKey → Bool
is_active_key none = false
is_active_key (some k) = k.is_active

-- `ValidateApiKey`
abbrev pub is_valid_key : Credentials → String → Bool
is_valid_key cr value = cr.validates value && is_active_key (find_key value cr.keys)

-- `ListApiKeys`
abbrev pub listed_keys : Credentials → Option (List ApiKey)
listed_keys cr = if cr.lists then some cr.keys else none

unfoldable pub is_listed : String → List String → Bool
is_listed model [] = false
is_listed model (m ∷ rest) =
    let later = is_listed model rest in if str_eq m model then true else later

abbrev pub allows : List String → String → Bool
allows [] model = true
allows (m ∷ rest) model = is_listed model (m ∷ rest)

-- `ModelAllowed` and `DailyLimitExceeded`
unfoldable pub model_allowed : ApiKey → String → Bool
model_allowed k model = allows k.scope.allowed_models model

unfoldable pub daily_limit_exceeded : Credentials → ApiKey → Bool
daily_limit_exceeded cr k =
    if k.scope.daily_token_limit == 0
    then false
    else leb k.scope.daily_token_limit (cr.used_today k.key)

-- `ValidateSessionCookie`
unfoldable pub valid_cookie : Credentials → ℕ → Option String → Bool
valid_cookie cr now none = false
valid_cookie cr now (some value) =
    if is_empty value
    then false
    else elim (get value cr.sessions) [ none ↦ false | some expiry ↦ ltb now expiry ]

unfoldable pub first_active : List ApiKey → Option ApiKey
first_active [] = none
first_active (k ∷ rest) =
    let later = first_active rest in if k.is_active && not (is_empty k.key) then some k else later

-- The middleware's verdict: the user under whom the request goes on, or a refusal.
pub data Verdict : Type 0 where
  admit : String → String → Verdict
  refuse : ℕ → Message → Message → Verdict

abbrev pub bearer : Credentials → Option String
bearer cr = elim (has_prefix cr.authorization "Bearer ") [
  | true ↦ some (trim_prefix cr.authorization "Bearer ")
  | false ↦ none
]

unfoldable pub check_budget : Credentials → String → ApiKey → Verdict
check_budget cr key k =
    if daily_limit_exceeded cr k
    then refuse 429
        (lit "Daily token limit reached ("
          ∷ num k.scope.daily_token_limit
          ∷ lit ") for this API key"
          ∷ [])
        (note "API key daily token budget exhausted")
    else admit key "API Key authenticated successfully"

-- A key whose record is not found is not scoped.
unfoldable pub check_scope : Credentials → String → String → Option ApiKey → Verdict
unfolding check_budget
check_scope cr key model none = admit key "API Key authenticated successfully"
check_scope cr key model (some k) =
    if not (is_empty model) && not (model_allowed k model)
    then refuse 403 (lit "API key is not allowed to use model " ∷ quoted model ∷ [])
        (lit "Model " ∷ lit model ∷ lit " outside key allowlist" ∷ [])
    else check_budget cr key k

unfoldable pub admit_first : Option ApiKey → Verdict
admit_first none =
    refuse 401 (note "Invalid or missing Bearer token")
      (note "Missing valid Authorization header, session, or system API key")
admit_first (some k) = admit k.key "Authenticated via System Active API Key"

unfoldable pub any_active_key : Option (List ApiKey) → Verdict
unfolding admit_first
any_active_key none = admit_first none
any_active_key (some keys) = admit_first (first_active keys)

unfoldable pub without_key : Credentials → ℕ → Verdict
unfolding any_active_key
without_key cr now =
    if valid_cookie cr now cr.cookie
    then admit "admin" "Authenticated via Admin UI Session"
    else any_active_key (listed_keys cr)

unfoldable pub with_bearer : Credentials → ℕ → String → Option String → Verdict
unfolding without_key check_scope
with_bearer cr now model none = without_key cr now
with_bearer cr now model (some key) =
    if is_valid_key cr key then check_scope cr key model (key_record cr key) else without_key cr now

unfoldable pub verdict : Option Settings → Credentials → ℕ → String → Verdict
unfolding with_bearer
verdict none cr now model = admit "guest" "Authenticated as Guest"
verdict (some settings) cr now model =
    if not settings.require_login
    then admit "guest" "Authenticated as Guest"
    else with_bearer cr now model (bearer cr)

unfoldable pub auth : Credentials → Middleware
unfolding verdict
auth cr next c w = elim (verdict w.config.settings cr w.now (string_at "model" c.request_body)) [
  | admit user details ↦
      next (add_step (record c { user_id = user }) "Auth" "success" (note details)) w
  | refuse code message details ↦
      return (add_step (write_error c code message) "Auth" "failed" details) w
]
