-- ===== src/Memory/Recent.antt =====
-- Which summaries a user's memory keeps.
use agentis_backend.Prelude.{
  ℕ, zero, suc, String, ◌≡◌, refl, sym, ap, ◌∙◌, List, [], ◌∷◌, ==_refl, take, take-take-suc,
}
use agentis_backend.Memory.{ShortTermMemory, store_task_summary, get_recent_summaries}

-- The summaries put before the others one by one, so the last one comes first.
abbrev pub newest_onto : List String → List String → List String
newest_onto older [] = older
newest_onto older (s ∷ rest) = newest_onto (s ∷ older) rest

-- The memory after the summaries are stored one after the other.
abbrev pub store_all : ℕ → List String → ShortTermMemory → ShortTermMemory
store_all u [] m = m
store_all u (s ∷ rest) m = store_all u rest (store_task_summary u s m)

take-take : (n : ℕ) (xs : List String) → take n (take n xs) ≡ take n xs
take-take zero xs = refl
take-take (suc n) [] = refl
take-take (suc n) (x ∷ xs) = ap (◌∷◌ x) (take-take n xs)

take-newest_onto :
    (n : ℕ) (older summaries : List String)
    → take (suc n) (newest_onto (take (suc n) older) summaries)
      ≡ take (suc n) (newest_onto older summaries)
take-newest_onto n [] [] = refl
take-newest_onto n (x ∷ older) [] = ap (◌∷◌ x) (take-take n older)
take-newest_onto n older (s ∷ rest) =
    sym (take-newest_onto n (s ∷ take (suc n) older) rest)
    ∙ ap (λ xs. take (suc n) (newest_onto (s ∷ xs) rest)) (take-take-suc n older)
    ∙ take-newest_onto n (s ∷ older) rest

module _ (u : ℕ) where
  recent_stored :
      (s : String) (m : ShortTermMemory)
      → (store_task_summary u s m u).recent ≡ take 20 (s ∷ (m u).recent)
  unfolding store_task_summary
  recent_stored s m = rw (==_refl u) refl

  -- After summaries are stored one after the other, the recent ones are the twenty newest, the last stored
  -- first, of these and those that were there before.
  pub store_all-get_recent_summaries :
      (summaries : List String) (m : ShortTermMemory)
      → get_recent_summaries u (store_all u summaries m)
        ≡ take 20 (newest_onto (m u).recent summaries)
  store_all-get_recent_summaries [] m = refl
  store_all-get_recent_summaries (s ∷ rest) m =
      store_all-get_recent_summaries rest (store_task_summary u s m)
      ∙ ap (λ xs. take 20 (newest_onto xs rest)) (recent_stored s m)
      ∙ take-newest_onto 19 (s ∷ (m u).recent) rest
