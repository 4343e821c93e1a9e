-- ===== src/Json.antt =====
-- JSON values as Python's json module reads them, and `_extract_json` of app/orchestrator/nodes.py.
use text.Mathlib.Text.{starts_with}
use agentis_backend.Prelude.{
  String, ◌≡◌, refl, Bool, true, false, Option, none, some, List, [], ◌∷◌, str_eq, not,
  if◌then◌else◌,
}
use agentis_backend.PyText.{
  strip, lstrip_json, until_fence, drop_chars, from_brace, to_last_brace, is_empty,
}

-- A number keeps its text and says whether it is zero: the program tests no more of it.
mutual
  pub data Json : Type 0 where
    null : Json
    bool : Bool → Json
    num : (is_zero : Bool) → (text : String) → Json
    str : String → Json
    arr : Items → Json
    obj : Fields → Json

  pub data Items : Type 0 where
    nil : Items
    cons : Json → Items → Items

  pub data Fields : Type 0 where
    end : Fields
    field : String → Json → Fields → Fields

-- parsed.get(key, default)
unfoldable pub get_or : String → Json → Fields → Json
get_or key d end = d
get_or key d (field k v rest) = if str_eq k key then v else get_or key d rest

abbrev pub items_list : Items → List Json
items_list nil = []
items_list (cons v rest) = v ∷ items_list rest

abbrev pub keys : Fields → List Json
keys end = []
keys (field k v rest) = str k ∷ keys rest

abbrev pub chars : String → List Json
chars String.[] = []
chars (String.◌∷◌ c s) = str (String.◌∷◌ c String.[]) ∷ chars s

-- bool(value)
abbrev pub truthy : Json → Bool
truthy null = false
truthy (bool b) = b
truthy (num is_zero text) = not is_zero
truthy (str s) = not (is_empty s)
truthy (arr nil) = false
truthy (arr (cons v rest)) = true
truthy (obj end) = false
truthy (obj (field k v rest)) = true

-- iter(value); `none` is a TypeError
abbrev pub iterate : Json → Option (List Json)
iterate (str s) = some (chars s)
iterate (arr xs) = some (items_list xs)
iterate (obj fs) = some (keys fs)
iterate _ = none

-- value == text
abbrev pub is_text : Json → String → Bool
is_text (str s) t = str_eq s t
is_text _ t = false

-- What `_extract_json` returns, or the JSONDecodeError that its callers catch.
pub data Extracted : Type 0 where
  extracted : Fields → Extracted
  decode_error : Extracted

abbrev unfenced : String → String
unfenced text =
    if starts_with text "```" then strip (lstrip_json (until_fence (drop_chars 3 text))) else text

-- text[start:end + 1], if there are such braces
abbrev object_text : String → Option String
object_text text = elim (from_brace text) [ none ↦ none | some s ↦ to_last_brace s ]

-- `loads` is json.loads on a text that begins with "{": an object, or a JSONDecodeError.
unfoldable pub extract_json : (loads : String → Option Fields) → String → Extracted
unfolding strip lstrip_json until_fence drop_chars from_brace to_last_brace
extract_json loads text = elim (object_text (unfenced (strip text))) [
  | none ↦ extracted end
  | some s ↦ elim (loads s) [ none ↦ decode_error | some fields ↦ extracted fields ]
]

-- `except (json.JSONDecodeError, ValueError): {}`
abbrev pub or_empty : Extracted → Fields
or_empty (extracted fields) = fields
or_empty decode_error = end

fenced_object : object_text (unfenced (strip " ```json\n{\"a\": 1}\n``` ")) ≡ some "{\"a\": 1}"
unfolding extract_json
fenced_object = refl
