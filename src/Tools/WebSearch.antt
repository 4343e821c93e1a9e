-- ===== src/Tools/WebSearch.antt =====
-- app/tools/web_search.py: the web search over its two backends.
pub mod Results
use agentis_backend.Prelude.{
  ℕ, suc, String, Bool, true, false, Option, none, some, List, [], ◌∷◌, ◌++◌, ◌-◌, ◌==◌, str_eq,
  if◌then◌else◌, min, map, take, length,
}
use agentis_backend.PyText.{◌⧺◌, show, is_empty}
use agentis_backend.Config.{Settings}
use agentis_backend.Http.{crash}
use agentis_backend.Json.{
  Json, Fields, Items, nil, cons, null, num, str, arr, obj, end, field, get_or, truthy, items_list,
  iterate,
}
use agentis_backend.Orchestrator.State.{ℤ, pos, negsuc}
use agentis_backend.Tools.Registry.{ToolResult, Executed, returned, raised}
use agentis_backend.Tools.Sandboxed.{has_key}

-- What getting a page comes to: the JSON of an answer without an HTTP error, an httpx.HTTPError with its text,
-- or another exception, such as the JSON decoder's.
pub data Got : Type 0 where
  page : Json → Got
  http_failed : (error : String) → Got
  other_failed : (error : String) → Got

-- What the search calls outside: the HTTP get, and Python's int of a JSON value, where none is an exception.
pub record Web : Type 0 where
  pub get : (url : String) → (headers params : Fields) → Got
  pub int_json : Json → Option ℤ

-- A number of the request.
abbrev pub int_value : ℤ → Json
int_value (pos n) = num (n == 0) (show n)
int_value (negsuc n) = num false ("-" ⧺ show (suc n))

-- min(n, 20)
abbrev pub capped : ℤ → ℤ
capped (pos n) = pos (min n 20)
capped (negsuc n) = negsuc n

-- rows[:n] of a list: a negative number counts from the end.
abbrev pub first : {A : Type 0} → ℤ → List A → List A
first (pos n) rows = take n rows
first (negsuc n) rows = take (length rows - suc n) rows

-- The keys that a backend gives its snippet and its date under.
pub record Format : Type 0 where
  pub snippet : String
  pub date : String

abbrev pub brave_format : Format
brave_format = record { snippet = "description"; date = "page_age" }

abbrev pub searxng_format : Format
searxng_format = record { snippet = "content"; date = "publishedDate" }

-- One of the results that the tool returns.
abbrev pub row : Format → Fields → Json
row format r = obj (
    field "title" (get_or "title" (str "") r) (
      field "url" (get_or "url" (str "") r) (
        field "snippet" (get_or format.snippet (str "") r)
          (field "published_at" (get_or format.date null r) end))))

-- The rows, each of which must have a `get`.
unfoldable pub rows_of : Format → List Json → Option Items
rows_of format [] = some nil
rows_of format (obj r ∷ rest) = elim (rows_of format rest) [
  | none ↦ none
  | some rows ↦ some (cons (row format r) rows)
]
rows_of format (r ∷ rest) = none

abbrev pub found : Items → Executed
found rows = returned (record {
  ok = true;
  data_value = obj (field "results" (arr rows) end);
  error = none;
  retryable = false;
})

abbrev pub failure : String → Bool → Executed
failure error retryable =
    returned
      (record { ok = false; data_value = obj end; error = some error; retryable = retryable })

abbrev pub listed : Option Items → Executed
listed none = raised (crash "AttributeError")
listed (some rows) = found rows

-- data.get("results", []) of a page, which must be an object.
abbrev pub results_of : Json → Option Json
results_of (obj fields) = some (get_or "results" (arr nil) fields)
results_of _ = none

-- The loop over all of the results.
abbrev pub every_result : Format → Option Json → Executed
every_result format none = raised (crash "AttributeError")
every_result format (some value) = elim (iterate value) [
  | none ↦ raised (crash "TypeError")
  | some rows ↦ listed (rows_of format rows)
]

-- The loop over results[:n]: an object has no slice.
abbrev pub first_results : Format → ℤ → Option Json → Executed
first_results format n none = raised (crash "AttributeError")
first_results format n (some (obj fields)) = raised (crash "KeyError")
first_results format n (some value) = elim (iterate value) [
  | none ↦ raised (crash "TypeError")
  | some rows ↦ listed (rows_of format (first n rows))
]

-- The answer, where an httpx.HTTPError is a result of the tool and another exception is not caught.
abbrev pub handled : Got → (Json → Executed) → Executed
handled (page value) shape = shape value
handled (http_failed error) shape = failure error true
handled (other_failed error) shape = raised (crash error)

module _ (cfg : Settings) (web : Web) where
  abbrev brave_headers : Fields
  brave_headers = field "Accept" (str "application/json") (
      field "Accept-Encoding" (str "gzip")
        (field "X-Subscription-Token" (str cfg.brave_api_key) end))

  abbrev brave_params : (query : Json) → ℤ → (language time_range : Json) → Fields
  brave_params query n language time_range = field "q" query (
      field "count" (int_value n) (
        field "search_lang" language
          (if truthy time_range then field "freshness" time_range end else end)))

  -- WebSearchTool._brave_search
  unfoldable pub brave_search : (query : Json) → ℤ → (language time_range : Json) → Executed
  unfolding rows_of
  brave_search query n language time_range =
      if is_empty cfg.brave_api_key
      then found nil
      else handled
          (web.get "https://api.search.brave.com/res/v1/web/search" brave_headers
            (brave_params query n language time_range))
          (λ value. every_result brave_format (results_of value))

  abbrev searxng_params : (query : Json) → ℤ → (language : Json) → Fields
  searxng_params query n language =
      field "q" query
        (field "format" (str "json") (field "language" language (field "count" (int_value n) end)))

  -- WebSearchTool._searxng_search
  unfoldable pub searxng_search : (query : Json) → ℤ → (language : Json) → Executed
  unfolding rows_of
  searxng_search query n language =
      handled (web.get (cfg.searxng_url ⧺ "/search") end (searxng_params query n language))
        (λ value. first_results searxng_format n (results_of value))

  abbrev pub search_for : (query : Json) → Fields → ℤ → Executed
  search_for query params n =
      if str_eq cfg.search_backend "brave"
      then brave_search query n (get_or "language" (str "en") params)
          (get_or "time_range" null params)
      else if str_eq cfg.search_backend "searxng"
      then searxng_search query n (get_or "language" (str "en") params)
      else failure ("Unknown search backend: " ⧺ cfg.search_backend) false

  -- WebSearchTool.execute
  unfoldable pub web_search : Fields → Executed
  web_search params =
      if has_key "query" params
      then elim (web.int_json (get_or "num_results" (num false "10") params)) [
        | none ↦ raised (crash "ValueError")
        | some n ↦ search_for (get_or "query" null params) params (capped n)
      ]
      else raised (crash "KeyError")
