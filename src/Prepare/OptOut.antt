-- ===== src/Prepare/OptOut.antt =====
-- How far the header that turns compression off reaches.
use my_ai_router.Common.{◌≡◌, refl, ap, ◌∙◌, true, false, some, String, get, put, get-put_self}
use my_ai_router.Config.{Snapshot, ModelConfig, model_config}
use my_ai_router.Context.{Context, add_step}
use my_ai_router.Pipeline.{World, return}
use my_ai_router.Prepare.{opt_out, prepare, hand_over, note_prepared, with_usage}
use my_ai_router.Prepare.Body.{Engine, prepare_request}

model_config_found :
    (s : Snapshot) (id : String) (cfg : ModelConfig)
    → get id s.model_configs ≡ some cfg
    → model_config s id ≡ cfg
unfolding model_config
model_config_found s id cfg has = rw (model_config, has) refl

abbrev without_compression : ModelConfig → ModelConfig
without_compression cfg = record cfg { compression = record (cfg.compression) { enabled = false } }

opt_out_found :
    (model : String) (s : Snapshot) (cfg : ModelConfig)
    → get model s.model_configs ≡ some cfg
    → (opt_out model s).model_configs ≡ put model (without_compression cfg) s.model_configs
unfolding opt_out
opt_out_found model s cfg has = rw (opt_out, has) refl

model_config-opt_out :
    (model : String) (s : Snapshot) (cfg : ModelConfig)
    → get model s.model_configs ≡ some cfg
    → (model_config (opt_out model s) model).compression.enabled ≡ false
model_config-opt_out model s cfg has =
    ap (λ c. c.compression.enabled)
      (model_config_found (opt_out model s) model (without_compression cfg) (
        ap (get model) (opt_out_found model s cfg has)
        ∙ get-put_self model (without_compression cfg) s.model_configs))

prepare_config :
    (e : Engine) (name : String → String) (c : Context) (w : World)
    → c.no_compress ≡ true
    → (prepare e name return c w).world.config ≡ opt_out c.model w.config
unfolding prepare add_step
prepare_config e name c w asks = rw asks refl

prepare_off :
    (e : Engine) (name : String → String) (c : Context) (v : World)
    → c.no_compress ≡ false
    → (model_config v.config c.model).compression.enabled ≡ false
    → (prepare e name return c v).ctx.request_body ≡ with_usage c.is_stream c.request_body
unfolding prepare prepare_request hand_over note_prepared add_step
prepare_off e name c v silent off = rw (silent, off) refl

-- One request with the header turns compression off for others too: where a model has a policy of its
-- own, the policy in the shared snapshot is changed, and as long as the snapshot is the one that this
-- request has left, a later request for that model, which does not ask for it, goes on with its body as
-- it was, but for the usage that a stream is asked for.
pub opt_out_sticks :
    (e : Engine) (name : String → String) (first later : Context) (w v : World) (cfg : ModelConfig)
    → first.no_compress ≡ true
    → get first.model w.config.model_configs ≡ some cfg
    → v.config ≡ (prepare e name return first w).world.config
    → later.model ≡ first.model
    → later.no_compress ≡ false
    → (prepare e name return later v).ctx.request_body
      ≡ with_usage later.is_stream later.request_body
opt_out_sticks e name first later w v cfg asks has same model silent =
    prepare_off e name later v silent (
      ap (λ x. (model_config v.config x).compression.enabled) model
      ∙ ap (λ x. (model_config x first.model).compression.enabled)
          (same ∙ prepare_config e name first w asks)
      ∙ model_config-opt_out first.model w.config cfg has)
