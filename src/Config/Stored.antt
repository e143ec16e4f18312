-- ===== src/Config/Stored.antt =====
-- pkg/db/settings.go: the settings row, a JSON object. A missing member or a null leaves the zero
-- value, a member of another type fails the decoding.
use my_ai_router.Common.{ℕ, Bool, false, Option, none, some, List, [], ◌∷◌, String}
use my_ai_router.Json.{
  Json, Items, Fields, null, bool, number, string, array, object, nil, cons, end, field, member,
}

pub record StoredStep : Type 0 where
  pub name : String
  pub enabled : Bool
  pub config : Option Fields

-- All fields of the Go struct `Settings`.
pub record StoredSettings : Type 0 where
  pub rtk_enabled : Bool
  pub headroom_enabled : Bool
  pub headroom_url : String
  pub caveman_enabled : Bool
  pub caveman_level : String
  pub ponytail_enabled : Bool
  pub ponytail_level : String
  pub require_login : Bool
  pub password_hash : String
  pub optimizer_enabled : Bool
  pub optimization_engine : String
  pub optimization_profile : String
  pub optimization_goal : String
  pub pipeline_steps : List StoredStep
  pub trace_storage_mode : String
  pub max_trace_records : ℕ

-- The first member that does not decode ends the decoding.
infixl 1 ◌>>=◌
abbrev pub ◌>>=◌ : {A B : Type 0} → Option A → (A → Option B) → Option B
none >>= f = none
some a >>= f = f a

-- What `json.Unmarshal` makes of one member, by the type of the field.
unfoldable pub bool_field : Option Json → Option Bool
bool_field none = some false
bool_field (some null) = some false
bool_field (some (bool b)) = some b
bool_field (some _) = none

unfoldable pub text_field : Option Json → Option String
text_field none = some ""
text_field (some null) = some ""
text_field (some (string s)) = some s
text_field (some _) = none

unfoldable pub number_field : Option Json → Option ℕ
number_field none = some 0
number_field (some null) = some 0
number_field (some (number n)) = some n
number_field (some _) = none

unfoldable pub map_field : Option Json → Option (Option Fields)
map_field none = some none
map_field (some null) = some none
map_field (some (object m)) = some (some m)
map_field (some _) = none

abbrev pub zero_step : StoredStep
zero_step = record { name = ""; enabled = false; config = none }

unfoldable pub decode_step : Json → Option StoredStep
unfolding bool_field text_field map_field member
decode_step null = some zero_step
decode_step (object m) = do
  name ← text_field (member "name" m)
  enabled ← bool_field (member "enabled" m)
  config ← map_field (member "config" m)
  some (record { name = name; enabled = enabled; config = config })
decode_step _ = none

unfoldable pub decode_steps : Items → Option (List StoredStep)
unfolding decode_step
decode_steps nil = some []
decode_steps (cons x rest) = do s ← decode_step x; later ← decode_steps rest; some (s ∷ later)

unfoldable pub steps_field : Option Json → Option (List StoredStep)
unfolding decode_steps
steps_field none = some []
steps_field (some null) = some []
steps_field (some (array xs)) = decode_steps xs
steps_field (some _) = none

-- `json.Unmarshal` into a `Settings`
unfoldable pub decode_settings : Fields → Option StoredSettings
unfolding bool_field text_field number_field steps_field member
decode_settings m = do
  rtk ← bool_field (member "rtkEnabled" m)
  headroom ← bool_field (member "headroomEnabled" m)
  url ← text_field (member "headroomUrl" m)
  caveman ← bool_field (member "cavemanEnabled" m)
  caveman_level ← text_field (member "cavemanLevel" m)
  ponytail ← bool_field (member "ponytailEnabled" m)
  ponytail_level ← text_field (member "ponytailLevel" m)
  login ← bool_field (member "requireLogin" m)
  hash ← text_field (member "passwordHash" m)
  optimizer ← bool_field (member "optimizerEnabled" m)
  engine ← text_field (member "optimizationEngine" m)
  profile ← text_field (member "optimizationProfile" m)
  goal ← text_field (member "optimizationGoal" m)
  steps ← steps_field (member "pipelineSteps" m)
  mode ← text_field (member "traceStorageMode" m)
  records ← number_field (member "maxTraceRecords" m)
  some (record {
    rtk_enabled = rtk;
    headroom_enabled = headroom;
    headroom_url = url;
    caveman_enabled = caveman;
    caveman_level = caveman_level;
    ponytail_enabled = ponytail;
    ponytail_level = ponytail_level;
    require_login = login;
    password_hash = hash;
    optimizer_enabled = optimizer;
    optimization_engine = engine;
    optimization_profile = profile;
    optimization_goal = goal;
    pipeline_steps = steps;
    trace_storage_mode = mode;
    max_trace_records = records;
  })

abbrev pub encode_map : Option Fields → Json
encode_map none = null
encode_map (some m) = object m

abbrev pub encode_step : StoredStep → Json
encode_step s = object (
    field "name" (string s.name)
      (field "enabled" (bool s.enabled) (field "config" (encode_map s.config) end)))

abbrev pub encode_steps : List StoredStep → Items
encode_steps [] = nil
encode_steps (s ∷ rest) = cons (encode_step s) (encode_steps rest)

-- `json.Marshal` of a `Settings`; no steps are the null of a nil slice.
abbrev pub steps_json : List StoredStep → Json
steps_json [] = null
steps_json (s ∷ rest) = array (encode_steps (s ∷ rest))

unfoldable pub encode_settings : StoredSettings → Fields
encode_settings s = field "rtkEnabled" (bool s.rtk_enabled) (
    field "headroomEnabled" (bool s.headroom_enabled) (
      field "headroomUrl" (string s.headroom_url) (
        field "cavemanEnabled" (bool s.caveman_enabled) (
          field "cavemanLevel" (string s.caveman_level) (
            field "ponytailEnabled" (bool s.ponytail_enabled) (
              field "ponytailLevel" (string s.ponytail_level) (
                field "requireLogin" (bool s.require_login) (
                  field "passwordHash" (string s.password_hash) (
                    field "optimizerEnabled" (bool s.optimizer_enabled) (
                      field "optimizationEngine" (string s.optimization_engine) (
                        field "optimizationProfile" (string s.optimization_profile) (
                          field "optimizationGoal" (string s.optimization_goal) (
                            field "pipelineSteps" (steps_json s.pipeline_steps) (
                              field "traceStorageMode" (string s.trace_storage_mode) (
                                field "maxTraceRecords" (number s.max_trace_records)
                                  end)))))))))))))))
