-- ===== src/Orchestrator/Llm/Examples.antt =====
-- The theorem about the providers of language models at a concrete input.
use agentis_backend.Prelude.{◌≡◌, none, some, any, str_eq}
use agentis_backend.Config.{defaults}
use agentis_backend.Http.{ok}
use agentis_backend.Orchestrator.Llm.{Request, ChatModel, build_llm}
use agentis_backend.Orchestrator.Llm.Providers.{supported, is_ok, build_llm-supported}

abbrev request : Request
request = record {
  provider = some "groq";
  model = none;
  api_key = some "key";
  base_url = none;
  timeout_s = none;
}

build_llm-supported_example :
    (is_ok (build_llm defaults (λ s. s) request) ≡ any (str_eq "groq") supported)
    × ((m : ChatModel) → build_llm defaults (λ s. s) request ≡ ok m → m.max_retries ≡ 0)
build_llm-supported_example = build_llm-supported defaults (λ s. s) request
