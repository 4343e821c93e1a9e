-- ===== src/Memory/Examples.antt =====
-- The theorems about the memory at concrete inputs.
use agentis_backend.Prelude.{ℕ, str_eq, if◌then◌else◌, ◌≡◌, [], ◌∷◌, take}
use agentis_backend.Memory.{no_memory, get_recent_summaries, fill_block}
use agentis_backend.Memory.Block.{with_lines, IsLongest, fill_block-IsLongest}
use agentis_backend.Orchestrator.Context.{Tokenizer}
use agentis_backend.Memory.Recent.{newest_onto, store_all, store_all-get_recent_summaries}

store_all-get_recent_summaries_example :
    get_recent_summaries 1 (store_all 1 ("first" ∷ "second" ∷ []) (λ u. no_memory))
    ≡ take 20 (newest_onto [] ("first" ∷ "second" ∷ []))
store_all-get_recent_summaries_example =
    store_all-get_recent_summaries 1 ("first" ∷ "second" ∷ []) (λ u. no_memory)

-- A tokenizer for which every block but the first has a token.
abbrev tok : Tokenizer
tok = record {
  encode = λ s. if str_eq s "\nRecent tasks:\n- a\n" then [] else 0 ∷ [];
  decode = λ ts. "";
}

fill_block-IsLongest_example :
    (k : ℕ) × IsLongest tok 0 "" "" ("a" ∷ "b" ∷ []) k
    × (fill_block tok 0 "" "" ("a" ∷ "b" ∷ []) ≡ with_lines "" (take k ("a" ∷ "b" ∷ [])))
fill_block-IsLongest_example = fill_block-IsLongest tok 0 "" "" ("a" ∷ "b" ∷ [])
