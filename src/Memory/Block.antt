-- ===== src/Memory/Block.antt =====
-- Which summaries the context block holds.
use agentis_backend.Prelude.{
  ℕ, zero, suc, String, ◌≡◌, refl, Bool, true, false, List, [], ◌∷◌, ltb, take, Bool-cases, inl,
  inr,
}
use agentis_backend.PyText.{◌⧺◌}
use agentis_backend.Orchestrator.Context.{Tokenizer, count_tokens}
use agentis_backend.Memory.{fill_block}

-- The block with one summary more, and with several.
abbrev pub with_line : String → String → String
with_line block s = block ⧺ "- " ⧺ s ⧺ "\n"

abbrev pub with_lines : String → List String → String
with_lines block [] = block
with_lines block (s ∷ rest) = with_lines (with_line block s) rest

module _ (tok : Tokenizer) (max : ℕ) (header : String) where
  -- Whether a block has too many tokens with the header before it.
  abbrev pub overflows : String → Bool
  overflows block = ltb max (count_tokens tok (header ⧺ "\nRecent tasks:\n" ⧺ block))

  -- The blocks of one, two and so on up to k of the summaries do not overflow, and that of one more does, if
  -- there is one more.
  abbrev pub IsLongest : String → List String → ℕ → Type 0
  IsLongest block [] zero = Unit
  IsLongest block [] (suc k) = ⊥
  IsLongest block (s ∷ rest) zero = overflows (with_line block s) ≡ true
  IsLongest block (s ∷ rest) (suc k) =
      (overflows (with_line block s) ≡ false) × IsLongest (with_line block s) rest k

  -- The block that is filled holds the longest run of summaries from the newest on all of whose blocks keep
  -- the limit of tokens, whatever the tokenizer.
  pub fill_block-IsLongest :
      (block : String) (summaries : List String)
      → (k : ℕ) × IsLongest block summaries k
        × (fill_block tok max header block summaries ≡ with_lines block (take k summaries))
  unfolding fill_block
  fill_block-IsLongest block [] = (zero, tt, refl)
  fill_block-IsLongest block (s ∷ rest) = elim (Bool-cases (overflows (with_line block s))) [
    | inl over ↦ (zero, over, rw over refl)
    | inr fits ↦
        let (k, longest, filled) = fill_block-IsLongest (with_line block s) rest in
        (suc k, (fits, longest), rw fits filled)
  ]
