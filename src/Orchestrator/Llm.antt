-- ===== src/Orchestrator/Llm.antt =====
-- app/orchestrator/llm.py: which client of a language model the settings ask for; and
-- app/orchestrator/observability.py: which observers it gets.
pub mod Providers
mod Examples
use agentis_backend.Prelude.{
  ℕ, String, Bool, true, false, not, ◌&&◌, ◌||◌, Option, none, some, List, [], ◌∷◌, str_eq,
  if◌then◌else◌,
}
use agentis_backend.PyText.{◌⧺◌, is_empty}
use agentis_backend.Config.{Settings}
use agentis_backend.Http.{Result, ok, err, crash}

-- What build_llm may be called with; the source's defaults are `none`.
pub record Request : Type 0 where
  pub provider : Option String
  pub model : Option String
  pub api_key : Option String
  pub base_url : Option String
  pub timeout_s : Option ℕ

-- The classes of clients, and the arguments that their constructors get.
pub data ChatClass : Type 0 where
  chat_anthropic chat_open_ai : ChatClass

pub record ChatModel : Type 0 where
  pub class : ChatClass
  pub model : String
  pub api_key : Option String
  pub base_url : Option String
  pub timeout : ℕ
  pub max_retries : ℕ

-- a or b, of texts
abbrev pub or_text : Option String → String → String
or_text none b = b
or_text (some a) b = if is_empty a then b else a

-- a if a is not None else b
abbrev pub unless_none {ℓ} : {A : Type ℓ} → Option A → A → A
unless_none none b = b
unless_none (some a) b = a

-- a or None
abbrev pub filled : String → Option String
filled a = if is_empty a then none else some a

-- The table of the OpenAI-compatible providers, with their endpoints.
unfoldable pub openai_compatible : String → Option (Option String)
openai_compatible provider =
    if str_eq provider "openai"
    then some none
    else if str_eq provider "groq"
    then some (some "https://api.groq.com/openai/v1")
    else if str_eq provider "deepseek"
    then some (some "https://api.deepseek.com/v1")
    else if str_eq provider "mistral"
    then some (some "https://api.mistral.ai/v1")
    else if str_eq provider "ollama"
    then some none
    else none

abbrev pub resolved_base : (provider base_url : String) → Option String → Option String
resolved_base provider base_url endpoint =
    if is_empty base_url
    then elim endpoint [
      | some url ↦ some url
      | none ↦ if str_eq provider "ollama" then some "http://ollama:11434/v1" else none
    ]
    else some base_url

abbrev pub build_openai :
    (provider model api_key base_url : String)
    → (timeout_s : ℕ) → Option (Option String)
    → Result ChatModel
build_openai provider model api_key base_url timeout_s none =
    err (crash ("Unsupported LLM provider: " ⧺ provider))
build_openai provider model api_key base_url timeout_s (some endpoint) = ok (record {
  class = chat_open_ai;
  model = model;
  api_key = some (if is_empty api_key then "not-needed" else api_key);
  base_url = resolved_base provider base_url endpoint;
  timeout = timeout_s;
  max_retries = 0;
})

abbrev pub build_for :
    (provider model api_key base_url : String) → (timeout_s : ℕ) → Result ChatModel
build_for provider model api_key base_url timeout_s =
    if str_eq provider "anthropic"
    then ok (record {
      class = chat_anthropic;
      model = model;
      api_key = filled api_key;
      base_url = none;
      timeout = timeout_s;
      max_retries = 0;
    })
    else build_openai provider model api_key base_url timeout_s (openai_compatible provider)

-- build_llm, where `lower` is str.lower
unfoldable pub build_llm : Settings → (lower : String → String) → Request → Result ChatModel
unfolding openai_compatible
build_llm cfg lower r =
    build_for (lower (or_text r.provider cfg.llm_provider)) (or_text r.model cfg.llm_model)
      (unless_none r.api_key cfg.llm_api_key) (unless_none r.base_url cfg.llm_base_url)
      (unless_none r.timeout_s cfg.llm_timeout_s)

-- The arguments of langfuse's CallbackHandler.
pub record CallbackHandler : Type 0 where
  pub public_key : String
  pub secret_key : String
  pub host : String

-- get_langfuse_callbacks: `construct` is the import of langfuse and its constructor, which may raise.
unfoldable pub get_langfuse_callbacks :
    Settings → (construct : CallbackHandler → Bool) → List CallbackHandler
get_langfuse_callbacks cfg construct =
    let handler : CallbackHandler = record {
      public_key = cfg.langfuse_public_key;
      secret_key = cfg.langfuse_secret_key;
      host = if is_empty cfg.langfuse_host then "http://langfuse:3000" else cfg.langfuse_host;
    } in
    if is_empty cfg.langfuse_public_key || is_empty cfg.langfuse_secret_key
    then []
    else if construct handler
    then handler ∷ []
    else []
