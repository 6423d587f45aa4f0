-- ===== src/Providers/OpenRouter/Tests.antt =====
-- A discovery of src/providers/openrouter.py with a free model and one that costs.
use free_lunch.Prelude.{◌≡◌, refl, false, String, none, [], ◌∷◌}
use free_lunch.Prelude.Int.{ℤ}
use free_lunch.Json.{Json, text, list, object, no_items, item, Fields, no_fields, field}
use free_lunch.Discovery.{Found}
use free_lunch.Providers.Adapter.{gives}
use free_lunch.Providers.OpenRouter.{
  Columns, OpenRouter, is_free_model, supports_structured_output, found_free, read_free, read_rows,
  discover_models,
}
use free_lunch.Providers.OpenRouter.Free.{IsFreeList, discover_models-IsFreeList}

abbrev plain : Columns
plain = record {
  str = λ v. elim v [ text s ↦ s | _ ↦ "" ];
  strip = λ s. s;
  lower = λ s. s;
  int_column = λ v. none;
  text_column = λ v. none;
}

abbrev keyed : OpenRouter
keyed = record {
  api_key = "k";
  dev_stub_enabled = false;
  api_base = "https://openrouter.ai/api/v1";
}

abbrev priced : String → String → Fields
priced id p = field "id" (text id) (
    field "pricing" (object (field "prompt" (text p) (field "completion" (text "0") no_fields)))
      no_fields)

abbrev payload : Json
payload = object (
    field "data"
      (list (item (object (priced "paid" "1")) (item (object (priced "free" "0")) no_items)))
      no_fields)

abbrev free_found : Found ℤ
free_found = found_free plain keyed 2 (priced "free" "0") (text "free") [] no_fields [] no_fields

lists_free : discover_models plain keyed (gives payload) ≡ gives (free_found ∷ [])
unfolding discover_models read_rows read_free is_free_model supports_structured_output
lists_free = refl

discover_models-IsFreeList_example : IsFreeList plain keyed (gives payload) (free_found ∷ [])
discover_models-IsFreeList_example =
    discover_models-IsFreeList plain keyed (gives payload) (free_found ∷ []) lists_free
