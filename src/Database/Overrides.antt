-- ===== src/Database/Overrides.antt =====
-- The stored overrides of src/db.py: `set_override`, `delete_override` and `get_overrides`, with the rows
-- of `config_overrides` by their key. `json.loads`, whose error is `none`, and `json.dumps` are parameters.
pub mod Read
mod Tests
use free_lunch.Dict.{Dict, insert, erase}
use free_lunch.Json.{Json, null, flag, whole, fraction, text, list, object}
use free_lunch.Prelude.{ℕ, String, Option, none, some, List, [], ◌∷◌, map}

pub record Stored : Type 0 where
  pub value : String
  pub updated_at : ℕ

-- The statements that are handed to the writer.
pub data OverrideWrite : Type 0 where
  sets : String → String → ℕ → OverrideWrite
  deletes : String → OverrideWrite

unfoldable pub run_override : OverrideWrite → Dict Stored → Dict Stored
run_override (sets key value now) rows =
    insert key (record { value = value; updated_at = now }) rows
run_override (deletes key) rows = erase key rows

unfoldable pub run_overrides : List OverrideWrite → Dict Stored → Dict Stored
unfolding run_override
run_overrides [] rows = rows
run_overrides (w ∷ ws) rows = run_overrides ws (run_override w rows)

unfoldable pub delete_override : String → OverrideWrite
delete_override key = deletes key

module _ (dumps : Json → String) (loads : String → Option Json) where
  -- A text is stored as it is, and all else as JSON.
  abbrev pub serialized : Json → String
  serialized v = elim v [ text s ↦ s | w ↦ dumps w ]

  unfoldable pub set_override : String → Json → ℕ → OverrideWrite
  set_override key value now = sets key (serialized value) now

  -- A stored text that is no JSON is read as it is.
  abbrev pub deserialized : String → Json
  deserialized s = elim (loads s) [ none ↦ text s | some v ↦ v ]

  unfoldable pub get_overrides : Dict Stored → Dict Json
  get_overrides [] = []
  get_overrides ((k, r) ∷ rows) = (k, deserialized r.value) ∷ get_overrides rows
