-- ===== src/Logging.antt =====
-- app/logging_config.py: what structlog does with an entry.
use agentis_backend.Prelude.{ℕ, String, Option, none, some, List, [], ◌∷◌, str_eq, if◌then◌else◌}
use agentis_backend.Config.{Settings}

pub data Processor : Type 0 where
  merge_contextvars add_log_level stack_info_renderer format_exc_info : Processor
  time_stamper : (fmt : String) → Processor
  json_renderer console_renderer : Processor

-- What structlog is configured with: the processors in their order and the level below which it is silent.
pub record Logging : Type 0 where
  pub processors : List Processor
  pub level : ℕ

-- configure_logging, with str.upper and the levels that the module logging has by name; its own is INFO, 20
unfoldable pub configure_logging :
    (upper : String → String) → (levels : String → Option ℕ) → Settings → Logging
configure_logging upper levels cfg = record {
  processors =
      merge_contextvars
      ∷ add_log_level
      ∷ time_stamper "iso"
      ∷ stack_info_renderer
      ∷ format_exc_info
      ∷ (if str_eq cfg.environment "development" then console_renderer else json_renderer)
      ∷ [];
  level = elim (levels (upper cfg.log_level)) [ none ↦ 20 | some n ↦ n ];
}
