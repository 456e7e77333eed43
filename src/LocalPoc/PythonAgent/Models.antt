-- ===== src/LocalPoc/PythonAgent/Models.antt =====
-- `resolve_model`, local_poc/python_agent.py: the model that a run of the agent asks. The answer of the
-- model's server is a parameter.
use Prim.Native.String.{[], ◌∷◌}
use laptop_bap_demo.Base.{
  Option, String, eqb, if◌then◌else◌, none, some, starts_with, ◌&&◌, ◌<>◌, ◌==◌,
}
use laptop_bap_demo.Base.Json.{Fields, get, lookup, truthy}
use laptop_bap_demo.Base.Json.Repr.{str_of}
use laptop_bap_demo.Base.Run.{Except, ok, raised}
use laptop_bap_demo.LocalPoc.PythonAgent.Session.{at_key, first_item, within}
use laptop_bap_demo.LocalPoc.World.{Response}

-- the text before the last place where the other begins; `none` where it is not in it
unfoldable pub before_last : String → String → Option String
before_last sep [] = none
before_last sep (c ∷ s) =
    let here = if starts_with (c ∷ s) sep then some "" else none in
    elim (before_last sep s) [ some front ↦ some (c ∷ front) | none ↦ here ]

-- `llm_url.rsplit("/chat/completions", 1)[0] + "/models"`
abbrev pub models_url : String → String
models_url llm_url = elim (before_last "/chat/completions" llm_url) [
  | some front ↦ front <> "/models"
  | none ↦ llm_url <> "/models"
]

-- `str(result["data"][0]["id"])`; every error of the look-ups is caught
abbrev pub first_model : Fields → String
first_model result = elim (within (within (lookup result "data") first_item) (at_key "id")) [
  | some id ↦ str_of id
  | none ↦ "local-model"
]

abbrev pub chosen_model : Except Response → String
chosen_model (raised e) = "local-model"
chosen_model (ok (status, result)) =
    if eqb status 200 && truthy (get result "data") then first_model result else "local-model"

unfoldable pub resolve_model : (String → Except Response) → String → String → String
unfolding before_last truthy lookup str_of
resolve_model get_json llm_url requested_model =
    if requested_model == "auto"
    then chosen_model (get_json (models_url llm_url))
    else requested_model
