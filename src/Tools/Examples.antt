-- ===== src/Tools/Examples.antt =====
-- The theorems about the web search and the registration of the tools at concrete inputs.
use agentis_backend.Prelude.{◌≡◌, refl, some, none, false, inr, [], ◌∷◌}
use agentis_backend.Config.{Settings, defaults}
use agentis_backend.Json.{Fields, str, arr, obj, end, field, get_or}
use agentis_backend.Orchestrator.State.{pos}
use agentis_backend.Tools.Sandboxed.{body, has_key}
use agentis_backend.Tools.BuiltIn.{Network, register_all_tools}
use agentis_backend.Tools.BuiltIn.Once.{built_in, register_all_tools-register_all_tools}
use agentis_backend.Tools.WebSearch.{Web, page, found, row, searxng_format, web_search}
use agentis_backend.Tools.WebSearch.Results.{items_of, web_search_lem}

abbrev rust : Fields
rust = field "title" (str "Rust") (field "url" (str "https://rust-lang.org") end)

abbrev answer : Fields
answer = field "results" (arr (items_of (obj rust ∷ obj end ∷ []))) end

abbrev web : Web
web = record { get = λ url headers params. page (obj answer); int_json = λ v. some (pos 1) }

abbrev searxng : Settings
searxng = record defaults { search_backend = "searxng" }

abbrev query : Fields
query = field "query" (str "languages") end

web_search_lem_example :
    web_search searxng web query ≡ found (items_of (row searxng_format rust ∷ []))
unfolding has_key get_or
web_search_lem_example =
    web_search_lem searxng web query answer 1 (rust ∷ end ∷ []) (inr refl)
      (record { got = λ url headers params. refl; listed = refl })
      (record { query = refl; number = refl })

abbrev network : Network
network = record {
  remote = λ call. record {
    post = λ url method params id timeout. body end;
    str_json = λ v. "navigate";
    int_json = λ v. some (pos 5);
    is_timeout = λ v. false;
  };
  web = λ call. web;
  endpoint = "http://10.0.0.2:9999";
}

register_all_tools-register_all_tools_example :
    (register_all_tools searxng network [] ≡ some (built_in searxng network))
    × (register_all_tools searxng network (built_in searxng network) ≡ none)
register_all_tools-register_all_tools_example =
    register_all_tools-register_all_tools searxng network []
      (record { browser = refl; code_executor = refl; file_system = refl; web_search = refl })
