-- ===== src/Orchestrator/Llm/Providers.antt =====
-- Which providers of language models are supported.
use agentis_backend.Prelude.{ℕ, String, ◌≡◌, Bool, true, false, List, [], ◌∷◌, arith, any, str_eq}
use agentis_backend.Config.{Settings}
use agentis_backend.Http.{Result, ok, err}
use agentis_backend.Orchestrator.Llm.{
  Request, ChatModel, build_llm, build_for, or_text, unless_none, openai_compatible,
}

abbrev pub supported : List String
supported = "anthropic" ∷ "openai" ∷ "groq" ∷ "deepseek" ∷ "mistral" ∷ "ollama" ∷ []

-- Whether a model was built.
abbrev pub is_ok : Result ChatModel → Bool
is_ok (ok m) = true
is_ok (err e) = false

built :
    (provider model api_key base_url : String) (timeout_s : ℕ)
    → is_ok (build_for provider model api_key base_url timeout_s) ≡ any (str_eq provider) supported
unfolding openai_compatible
built provider model api_key base_url timeout_s = ground arith

no_retries :
    (provider model api_key base_url : String) (timeout_s : ℕ) (m : ChatModel)
    → build_for provider model api_key base_url timeout_s ≡ ok m
    → m.max_retries ≡ 0
unfolding openai_compatible
no_retries provider model api_key base_url timeout_s m h = ground arith

-- A model is built exactly if the lower-case name of the provider, that of the settings where none is given,
-- is one of the six supported, and every model that is built makes no retries of its own.
pub build_llm-supported :
    (cfg : Settings) (lower : String → String) (r : Request)
    → let provider = lower (or_text r.provider cfg.llm_provider) in
      (is_ok (build_llm cfg lower r) ≡ any (str_eq provider) supported)
      × ((m : ChatModel) → build_llm cfg lower r ≡ ok m → m.max_retries ≡ 0)
unfolding build_llm
build_llm-supported cfg lower r = (
  built (lower (or_text r.provider cfg.llm_provider)) (or_text r.model cfg.llm_model)
      (unless_none r.api_key cfg.llm_api_key) (unless_none r.base_url cfg.llm_base_url)
      (unless_none r.timeout_s cfg.llm_timeout_s),
  no_retries (lower (or_text r.provider cfg.llm_provider)) (or_text r.model cfg.llm_model)
      (unless_none r.api_key cfg.llm_api_key) (unless_none r.base_url cfg.llm_base_url)
      (unless_none r.timeout_s cfg.llm_timeout_s),
)
