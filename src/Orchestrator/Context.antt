-- ===== src/Orchestrator/Context.antt =====
-- app/orchestrator/context.py: counting tokens, cutting tool outputs, summarizing old messages.
use agentis_backend.Prelude.{
  ℕ, ◌+◌, ◌-◌, ◌*◌, ◌/◌, String, Bool, Option, none, some, List, [], ◌∷◌, length, take, drop, ltb,
  leb, if◌then◌else◌,
}
use agentis_backend.PyText.{show, len, contains, is_empty, ◌⧺◌}
use agentis_backend.Orchestrator.State.{Message, system, human, ai, tool, content_of}

-- tiktoken's cl100k_base encoder.
pub record Tokenizer : Type 0 where
  pub encode : String → List ℕ
  pub decode : List ℕ → String

module _ (tok : Tokenizer) where
  unfoldable pub count_tokens : String → ℕ
  count_tokens text = if is_empty text then 0 else length (tok.encode text)

  unfoldable pub count_message_tokens : List Message → ℕ
  unfolding count_tokens
  count_message_tokens [] = 0
  count_message_tokens (m ∷ ms) = count_tokens (content_of m) + 4 + count_message_tokens ms

  -- truncate_tool_output, with the sign of the number of removed characters written out
  unfoldable pub truncate_tool_output : String → ℕ → String
  truncate_tool_output output max_tokens =
      let tokens = tok.encode output in
      let kept = tok.decode (take max_tokens tokens) in
      let removed =
        if leb (len kept) (len output)
        then show (len output - len kept)
        else "-" ⧺ show (len kept - len output) in
      if leb (length tokens) max_tokens
      then output
      else kept ⧺ "\n[OUTPUT TRUNCATED — " ⧺ removed
        ⧺ " characters removed. Full output available in task_steps.]"

abbrev pub model_context_windows : List (String × ℕ)
model_context_windows =
    ("claude-sonnet-4-5-20251022", 200_000)
    ∷ ("claude", 200_000)
    ∷ ("gpt-4o", 128_000)
    ∷ ("llama3", 128_000)
    ∷ ("deepseek", 64_000)
    ∷ []

-- The loop of `model_window`, and _DEFAULT_WINDOW.
unfoldable pub window_in : String → List (String × ℕ) → ℕ
window_in model [] = 128_000
window_in model ((key, window) ∷ rest) = if contains model key then window else window_in model rest

unfoldable pub model_window : String → ℕ
unfolding window_in contains
model_window model = window_in model model_context_windows

-- The budget is the fraction `num / den`, compared without rounding.
unfoldable pub needs_summarization :
    (total : ℕ) → (model : String) → (window_override : Option ℕ) → (num den : ℕ) → Bool
unfolding model_window
needs_summarization total model window_override num den =
    let window : ℕ = elim window_override [ none ↦ model_window model | some w ↦ w ] in
    ltb (window * num) (total * den)

abbrev class_name : Message → String
class_name (system s) = "SystemMessage"
class_name (human s) = "HumanMessage"
class_name (ai c calls) = "AIMessage"
class_name (tool s id) = "ToolMessage"

-- "\n".join(…)
unfoldable pub join_lines : List String → String
join_lines [] = ""
join_lines (s ∷ []) = s
join_lines (s ∷ t ∷ rest) = s ⧺ "\n" ⧺ join_lines (t ∷ rest)

unfoldable pub transcript_lines : List Message → List String
transcript_lines [] = []
transcript_lines (m ∷ ms) = (class_name m ⧺ ": " ⧺ content_of m) ∷ transcript_lines ms

abbrev summarize_instruction : String
summarize_instruction =
    "Summarize the following agent transcript into a concise summary of key facts, decisions, and tool results. Preserve information needed to continue the task."

-- What summarize_messages asks the model, and what it makes of the answer.
unfoldable pub summary_prompt : List Message → List Message
unfolding join_lines transcript_lines
summary_prompt messages =
    system summarize_instruction
    ∷ system (join_lines (transcript_lines (take (length messages / 2) messages)))
    ∷ []

unfoldable pub with_summary : String → List Message → List Message
with_summary summary messages =
    system ("[SUMMARY OF EARLIER STEPS]\n" ⧺ summary) ∷ drop (length messages / 2) messages

unfoldable pub tokens_freed : Tokenizer → List Message → ℕ
unfolding count_message_tokens
tokens_freed tok messages = count_message_tokens tok (take (length messages / 2) messages)
