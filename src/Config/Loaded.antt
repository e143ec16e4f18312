-- ===== src/Config/Loaded.antt =====
-- pkg/db/settings.go: loading the settings with their defaults, and merging an update into them.
use my_ai_router.Common.{
  ℕ, true, Option, none, some, List, [], ◌∷◌, String, str_eq, eq_iff, is_empty, ◌||◌, ◌==◌, map,
  ◌≡◌, refl, arith, Bool-cases, inl, inr, if◌then◌else◌,
}
use my_ai_router.Json.{Json, Fields, end, field, member, set_member}
use my_ai_router.Config.{Settings, PipelineStep}
use my_ai_router.Config.Stored.{
  StoredStep, StoredSettings, decode_settings, encode_settings, steps_field, decode_steps,
  decode_step, map_field, encode_map, encode_step, encode_steps, steps_json, ◌>>=◌,
}

-- The defaults that `loadSettingsFromDB` writes over empty fields.
abbrev pub or_default : String → String → String
or_default s default = if is_empty s then default else s

abbrev pub default_step : String → StoredStep
default_step name = record { name = name; enabled = true; config = none }

abbrev pub default_steps : List StoredStep → List StoredStep
default_steps [] =
    default_step "tool"
    ∷ default_step "structure"
    ∷ default_step "dedup"
    ∷ default_step "markdown"
    ∷ []
default_steps (s ∷ rest) = s ∷ rest

abbrev pub default_mode : String → String
default_mode mode = if is_empty mode || str_eq mode "store_both" then "summary" else mode

abbrev pub default_records : ℕ → ℕ
default_records n = if n == 0 then 500 else n

unfoldable pub with_defaults : StoredSettings → StoredSettings
with_defaults s = record s {
  optimization_engine = or_default s.optimization_engine "auto";
  optimization_profile = or_default s.optimization_profile "balanced";
  optimization_goal = or_default s.optimization_goal "balanced";
  pipeline_steps = default_steps s.pipeline_steps;
  trace_storage_mode = default_mode s.trace_storage_mode;
  max_trace_records = default_records s.max_trace_records;
}

-- `loadSettingsFromDB`, from the row's column.
unfoldable pub load_settings : Option Fields → Option StoredSettings
unfolding decode_settings with_defaults
load_settings none = none
load_settings (some m) = do s ← decode_settings m; some (with_defaults s)

-- The merge of `UpdateSettings`: a later member of the update replaces the current one.
unfoldable pub merge_members : Fields → Fields → Fields
unfolding set_member
merge_members end m = m
merge_members (field k v rest) m = merge_members rest (set_member k v m)

-- What the rest of the gateway reads of the settings.
abbrev pub shown_step : StoredStep → PipelineStep
shown_step s = record { name = s.name; enabled = s.enabled }

unfoldable pub shown : StoredSettings → Settings
shown s = record {
  rtk_enabled = s.rtk_enabled;
  headroom_enabled = s.headroom_enabled;
  headroom_url = s.headroom_url;
  caveman_enabled = s.caveman_enabled;
  ponytail_enabled = s.ponytail_enabled;
  require_login = s.require_login;
  optimizer_enabled = s.optimizer_enabled;
  optimization_engine = s.optimization_engine;
  optimization_profile = s.optimization_profile;
  optimization_goal = s.optimization_goal;
  pipeline_steps = map shown_step s.pipeline_steps;
  trace_storage_mode = s.trace_storage_mode;
}

map_field-encode : (m : Option Fields) → map_field (some (encode_map m)) ≡ some m
unfolding map_field
map_field-encode none = refl
map_field-encode (some m) = refl

decode_step-encode : (s : StoredStep) → decode_step (encode_step s) ≡ some s
unfolding decode_step
decode_step-encode s = rw (map_field-encode s.config) refl

decode_steps-encode : (steps : List StoredStep) → decode_steps (encode_steps steps) ≡ some steps
unfolding decode_steps
decode_steps-encode [] = refl
decode_steps-encode (s ∷ rest) = rw (decode_step-encode s, decode_steps-encode rest) refl

steps_field-encode : (steps : List StoredStep) → steps_field (some (steps_json steps)) ≡ some steps
unfolding steps_field
steps_field-encode [] = refl
steps_field-encode (s ∷ rest) = decode_steps-encode (s ∷ rest)

pub decode_settings-encode : (s : StoredSettings) → decode_settings (encode_settings s) ≡ some s
unfolding decode_settings encode_settings
decode_settings-encode s = rw (steps_field-encode s.pipeline_steps) refl

-- `m[key]` after an update: the last entry of the update for the key, or else what was there.
abbrev pub newest : String → Fields → Option Json → Option Json
newest key end old = old
newest key (field k v rest) old = newest key rest (if str_eq k key then some v else old)

member-set_member :
    (key other : String) (v : Json) (m : Fields)
    → member other (set_member key v m) ≡ (if str_eq key other then some v else member other m)
unfolding member set_member
member-set_member key other v end = refl
member-set_member key other v (field k w rest) =
    ground
      (arith, eq_iff k key, eq_iff k other, eq_iff key other, member-set_member key other v rest)

pub member-merge_members :
    (key : String) (updates m : Fields)
    → member key (merge_members updates m) ≡ newest key updates (member key m)
unfolding merge_members
member-merge_members key end m = refl
member-merge_members key (field k v rest) m =
    rw (member-merge_members key rest (set_member k v m), member-set_member k key v m) refl

or_default-twice :
    (s default : String) → or_default (or_default s default) default ≡ or_default s default
or_default-twice s default = ground arith

default_mode-twice : (mode : String) → default_mode (default_mode mode) ≡ default_mode mode
default_mode-twice mode = elim (Bool-cases (is_empty mode || str_eq mode "store_both")) [
  | inl e ↦ rw e refl
  | inr e ↦ rw (e, e) refl
]

default_steps-twice :
    (steps : List StoredStep) → default_steps (default_steps steps) ≡ default_steps steps
default_steps-twice [] = refl
default_steps-twice (s ∷ rest) = refl

default_records-twice : (n : ℕ) → default_records (default_records n) ≡ default_records n
default_records-twice n = ground arith

pub with_defaults-twice : (s : StoredSettings) → with_defaults (with_defaults s) ≡ with_defaults s
unfolding with_defaults
with_defaults-twice s =
    rw
      (
        or_default-twice s.optimization_engine "auto",
        or_default-twice s.optimization_profile "balanced",
        or_default-twice s.optimization_goal "balanced",
        default_steps-twice s.pipeline_steps,
        default_mode-twice s.trace_storage_mode,
        default_records-twice s.max_trace_records,
      )
      refl
