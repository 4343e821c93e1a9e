-- ===== src/Memory.antt =====
-- app/memory/short_term.py: the summaries and preferences of each user, which Redis keeps. The expiry after 24
-- hours is the environment's; a lapsed memory is an empty one.
pub mod Recent
pub mod Block
mod Examples
use agentis_backend.Prelude.{
  ℕ, String, List, [], ◌∷◌, ◌++◌, ◌==◌, ltb, str_eq, if◌then◌else◌, take, map,
}
use agentis_backend.PyText.{◌⧺◌, is_empty, rstrip}
use agentis_backend.Orchestrator.Context.{Tokenizer, count_tokens}

-- What the two keys of a user hold.
pub record UserMemory : Type 0 where
  pub recent : List String
  pub prefs : List (String × String)

abbrev pub no_memory : UserMemory
no_memory = record { recent = []; prefs = [] }

-- The memory of each user. The keys of two users differ.
abbrev pub ShortTermMemory : Type 0
ShortTermMemory = ℕ → UserMemory

abbrev pub change_memory : ℕ → (UserMemory → UserMemory) → ShortTermMemory → ShortTermMemory
change_memory u f m v = if v == u then f (m v) else m v

-- store_task_summary: LPUSH, then LTRIM to the twenty newest
unfoldable pub store_task_summary : ℕ → String → ShortTermMemory → ShortTermMemory
store_task_summary u summary =
    change_memory u (λ m. record m { recent = take 20 (summary ∷ m.recent) })

-- get_recent_summaries
abbrev pub get_recent_summaries : ℕ → ShortTermMemory → List String
get_recent_summaries u m = take 20 (m u).recent

-- HSET keeps the place of a field that is there.
unfoldable pub set_field : String → String → List (String × String) → List (String × String)
set_field name value [] = (name, value) ∷ []
set_field name value ((n, v) ∷ rest) =
    let later = set_field name value rest in
    if str_eq n name then (n, value) ∷ rest else (n, v) ∷ later

-- store_pref
unfoldable pub store_pref : ℕ → (name value : String) → ShortTermMemory → ShortTermMemory
store_pref u name value = change_memory u (λ m. record m { prefs = set_field name value m.prefs })

-- get_prefs
abbrev pub get_prefs : ℕ → ShortTermMemory → List (String × String)
get_prefs u m = (m u).prefs

-- clear
unfoldable pub clear : ℕ → ShortTermMemory → ShortTermMemory
clear u = change_memory u (λ m. no_memory)

unfoldable pub join : String → List String → String
join sep [] = ""
join sep (s ∷ []) = s
join sep (s ∷ t ∷ rest) = s ⧺ sep ⧺ join sep (t ∷ rest)

abbrev pref_lines : List (String × String) → List String
pref_lines [] = []
pref_lines (p ∷ prefs) =
    ("User preferences: " ⧺ join "; " (map (λ q. q.0 ⧺ "=" ⧺ q.1) (p ∷ prefs))) ∷ []

-- The block of summaries that still fits, measured with the header before it.
unfoldable pub fill_block :
    Tokenizer → (max_tokens : ℕ) → (header block : String) → List String → String
fill_block tok max header block [] = block
fill_block tok max header block (s ∷ rest) =
    let candidate = block ⧺ "- " ⧺ s ⧺ "\n" in
    let later = fill_block tok max header candidate rest in
    if ltb max (count_tokens tok (header ⧺ "\nRecent tasks:\n" ⧺ candidate)) then block else later

-- build_context_block
unfoldable pub build_context_block : Tokenizer → ℕ → (max_tokens : ℕ) → ShortTermMemory → String
build_context_block tok u max m =
    let lines = pref_lines (get_prefs u m) in
    let block = fill_block tok max (join "\n" lines) "" (get_recent_summaries u m) in
    join "\n" (
      (if str_eq (join "\n" lines) "" then [] else join "\n" lines ∷ [])
      ++ (if is_empty block then [] else ("Recent tasks:\n" ⧺ rstrip block) ∷ []))
