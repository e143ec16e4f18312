-- ===== src/Examples/Front.antt =====
-- Runs of the front of the pipeline: access, the resolver, the order of models and the policies.
use my_ai_router.Common.{refl, true, none, some, List, [], ◌∷◌, String}
use my_ai_router.Context.{Context}
use my_ai_router.Access.{ApiKey, Credentials, verdict, find_key}
use my_ai_router.Access.Admission.{ScopedIfFound, scope_is_enforced}
use my_ai_router.Access.{valid_cookie}
use my_ai_router.Access.Anonymous.{Anonymous, open_door}
use my_ai_router.Examples.{login_settings, request_for}

abbrev scoped_key : ApiKey
scoped_key = record {
  key = "k1";
  is_active = true;
  scope = record { allowed_models = "gpt-4o" ∷ []; daily_token_limit = 100 };
}

abbrev key_in_use : Credentials
key_in_use = record {
  keys = scoped_key ∷ [];
  lists = true;
  validates = λ key. true;
  finds = λ key. true;
  used_today = λ key. 40;
  sessions = [];
  authorization = "Bearer k1";
  cookie = none;
}

scope_is_enforced_example :
    ScopedIfFound key_in_use "k1" "claude" scoped_key
      (verdict (some login_settings) key_in_use 10 "claude")
unfolding find_key
scope_is_enforced_example =
    scope_is_enforced login_settings key_in_use 10 "claude" "k1" scoped_key refl refl refl refl refl

abbrev no_credentials : Credentials
no_credentials = record key_in_use { authorization = "" }

open_door_example :
    Anonymous (scoped_key ∷ []) (verdict (some login_settings) no_credentials 10 "claude")
unfolding valid_cookie
open_door_example = open_door login_settings no_credentials 10 "claude" refl refl refl refl

abbrev fast_models : List String
fast_models = "openai/gpt-4o" ∷ "anthropic/claude" ∷ []

abbrev routed : Context
routed = record (request_for "fast") {
  metadata = record (request_for "fast").metadata {
    models_to_try = fast_models;
    combo_kind = "load_balance";
  };
}
