-- ===== src/Tools/WebSearch/Results.antt =====
-- The results of a search, from the answer of its backend.
use agentis_backend.Prelude.{
  ℕ, zero, suc, inl, inr, String, ◌≡◌, ◌⊎◌, refl, ap, true, false, some, List, [], ◌∷◌, min, map,
  take, str_eq, if◌then◌else◌,
}
use agentis_backend.PyText.{is_empty}
use agentis_backend.Config.{Settings}
use agentis_backend.Json.{Json, Fields, Items, nil, cons, num, arr, obj, get_or, items_list}
use agentis_backend.Orchestrator.State.{pos}
use agentis_backend.Tools.Sandboxed.{has_key}
use agentis_backend.Tools.WebSearch.{
  page, Web, Format, brave_format, searxng_format, row, rows_of, found, brave_search,
  searxng_search, web_search,
}

abbrev pub items_of : List Json → Items
items_of [] = nil
items_of (v ∷ rest) = cons v (items_of rest)

items_list-items_of : (vs : List Json) → items_list (items_of vs) ≡ vs
items_list-items_of [] = refl
items_list-items_of (v ∷ vs) = ap (◌∷◌ v) (items_list-items_of vs)

take-map :
    {A B : Type 0} → (f : A → B) (n : ℕ) (xs : List A) → take n (map f xs) ≡ map f (take n xs)
take-map f zero xs = refl
take-map f (suc n) [] = refl
take-map f (suc n) (x ∷ xs) = ap (◌∷◌ (f x)) (take-map f n xs)

rows_of-map :
    (format : Format) (rs : List Fields)
    → rows_of format (map obj rs) ≡ some (items_of (map (row format) rs))
unfolding rows_of
rows_of-map format [] = refl
rows_of-map format (r ∷ rs) = rw (rows_of-map format rs) refl

-- The network answers every request with the page whose results are the objects.
pub record Answers (web : Web) (fields : Fields) (rs : List Fields) : Type 0 where
  pub got :
      (url : String) (headers params : Fields) → web.get url headers params ≡ page (obj fields)
  pub listed : get_or "results" (arr nil) fields ≡ arr (items_of (map obj rs))

-- The request has a query, and its number of results is not negative.
pub record Asks (web : Web) (params : Fields) (n : ℕ) : Type 0 where
  pub query : has_key "query" params ≡ true
  pub number : web.int_json (get_or "num_results" (num false "10") params) ≡ some (pos n)

-- The settings name a backend that can be asked: brave with a key, or searxng.
abbrev pub HasBackend : Settings → Type 0
HasBackend cfg =
    ((cfg.search_backend ≡ "brave") × (is_empty cfg.brave_api_key ≡ false))
    ⊎ (cfg.search_backend ≡ "searxng")

-- The rows that a search for n results gives, of those in the answer.
abbrev pub expected : Settings → ℕ → List Fields → List Json
expected cfg n rs =
    if str_eq cfg.search_backend "brave"
    then map (row brave_format) rs
    else map (row searxng_format) (take (min n 20) rs)

-- A search for n results, where a backend is configured and answers with a list of objects, gives a row for
-- each of them in their order: with brave for all, with searxng for the first n, twenty at most.
pub web_search_lem :
    (cfg : Settings) (web : Web) (params fields : Fields) (n : ℕ) (rs : List Fields)
    → HasBackend cfg
    → Answers web fields rs
    → Asks web params n
    → web_search cfg web params ≡ found (items_of (expected cfg n rs))
unfolding web_search brave_search searxng_search
web_search_lem cfg web params fields n rs (inl (brave, key)) answers asks =
    rw
      (
        asks.query,
        asks.number,
        brave,
        key,
        answers.got,
        answers.listed,
        items_list-items_of (map obj rs),
        rows_of-map brave_format rs,
      )
      refl
web_search_lem cfg web params fields n rs (inr searxng) answers asks =
    rw
      (
        asks.query,
        asks.number,
        searxng,
        answers.got,
        answers.listed,
        items_list-items_of (map obj rs),
        take-map obj (min n 20) rs,
        rows_of-map searxng_format (take (min n 20) rs),
      )
      refl
