-- ===== src/Tasks/Cursor.antt =====
-- app/repositories/task.py: the text in which a page of tasks names its last row.
use agentis_backend.Prelude.{ℕ, String, Option, none, some, List, [], ◌∷◌}
use agentis_backend.PyText.{◌⧺◌}

-- What the cursor code calls of datetime, uuid and base64; a `none` is a ValueError.
pub record CursorText : Type 0 where
  pub isoformat : ℕ → String
  pub fromisoformat : String → Option ℕ
  pub uuid_str : ℕ → String
  pub uuid_parse : String → Option ℕ
  pub b64encode : String → String
  pub b64decode : String → Option String
  pub split_bar : String → List String

module _ (lib : CursorText) where
  -- _encode_cursor
  unfoldable pub encode_cursor : ℕ → ℕ → String
  encode_cursor created_at id = lib.b64encode (lib.isoformat created_at ⧺ "|" ⧺ lib.uuid_str id)

  abbrev both : Option ℕ → Option ℕ → Option (ℕ × ℕ)
  both (some a) (some b) = some (a, b)
  both _ _ = none

  abbrev of_parts : List String → Option (ℕ × ℕ)
  of_parts (ts ∷ tid ∷ []) = both (lib.fromisoformat ts) (lib.uuid_parse tid)
  of_parts _ = none

  -- _decode_cursor
  unfoldable pub decode_cursor : String → Option (ℕ × ℕ)
  decode_cursor cursor = elim (lib.b64decode cursor) [
    | none ↦ none
    | some raw ↦ of_parts (lib.split_bar raw)
  ]
