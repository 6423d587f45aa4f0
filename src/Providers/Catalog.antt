-- ===== src/Providers/Catalog.antt =====
-- `discover_models` of src/providers/openai_compatible.py: how a row of the list is read. `none` is an
-- exception of `int`.
pub mod Rows
use free_lunch.Providers.Values.{
  RowReading, nested_get, true_names, lower_items, names_under, listed_under, join_names,
  extract_capabilities, extract_input_modalities, has_any, coerce_int, extract_int, extract_str,
  bool_of_json, extract_bool,
}
use Prim.Native.String
use mathlib.Core.Option
use free_lunch.Prelude.Int.{pos, negsuc}
use free_lunch.Json.{
  Json, null, flag, whole, fraction, text, list, object, Items, no_items, item, Fields, no_fields,
  field, is_nonzero, truth, value_of, to_list,
}
use free_lunch.Discovery.{Found, RankValue}
use free_lunch.Prelude.{
  ℕ, ◌+◌, String, Bool, true, false, ◌||◌, Option, none, some, List, [], ◌∷◌, ◌++◌, map, str_eq,
  ◌==◌, if◌then◌else◌, any, or_else,
}

-- What an adapter knows of its service.
pub record Service : Type 0 where
  pub name : String
  pub api_base : String
  pub provider_api_key_env : String
  pub default_context_window : ℕ

module _ (r : RowReading) (d : Fields) where
  abbrev pub supports_tools : Bool
  supports_tools =
      or_else
        (extract_bool r d ("supports_tools" ∷ "tool_calling" ∷ "supports_function_calling" ∷ []))
        (has_any (extract_capabilities r d)
          ("tools" ∷ "tool_use" ∷ "tool_choice" ∷ "function_calling" ∷ "functions" ∷ []))

  abbrev pub supports_streaming : Bool
  supports_streaming =
      or_else (extract_bool r d ("supports_streaming" ∷ "streaming" ∷ "supports_stream" ∷ []))
        (elim (extract_capabilities r d) [ [] ↦ true | c ∷ cs ↦ any (str_eq "stream") (c ∷ cs) ])

  abbrev pub supports_structured_output : Bool
  supports_structured_output =
      or_else (extract_bool r d ("supports_structured_output" ∷ "supports_json_schema" ∷ [])) (
        has_any (extract_capabilities r d)
          ("response_format" ∷ "json_schema" ∷ "structured_outputs" ∷ "structured_output" ∷ []))

  abbrev pub supports_vision : Bool
  supports_vision =
      or_else (extract_bool r d ("supports_vision" ∷ "vision" ∷ []))
        (has_any (extract_input_modalities r d) ("image" ∷ "vision" ∷ "multimodal" ∷ []))

  abbrev pub context_window_of : Option (Option ℕ)
  context_window_of = extract_int r d (
      ("context_window" ∷ [])
      ∷ ("context_length" ∷ [])
      ∷ ("max_context_length" ∷ [])
      ∷ ("max_input_tokens" ∷ [])
      ∷ ("input_token_limit" ∷ [])
      ∷ ("token_limit" ∷ [])
      ∷ ("max_tokens" ∷ [])
      ∷ ("architecture" ∷ "context_length" ∷ [])
      ∷ [])

  abbrev pub max_output_of : Option (Option ℕ)
  max_output_of = extract_int r d (
      ("max_output_tokens" ∷ [])
      ∷ ("max_completion_tokens" ∷ [])
      ∷ ("max_output_token" ∷ [])
      ∷ ("output_token_limit" ∷ [])
      ∷ ("completion_token_limit" ∷ [])
      ∷ [])

  abbrev pub tokenizer_of : Option String
  tokenizer_of =
      extract_str r d
        (("tokenizer_family" ∷ []) ∷ ("tokenizer" ∷ []) ∷ ("architecture" ∷ "tokenizer" ∷ []) ∷ [])

  -- `str(row.get(k) or fallback)`
  abbrev pub text_or : String → String → String
  text_or k fallback = if truth (value_of k d) then r.str (value_of k d) else fallback

  abbrev pub row_id : String
  row_id = r.strip (text_or "id" "")

-- `context_window or default`
abbrev pub window_or : ℕ → Option ℕ → ℕ
window_or default none = default
window_or default (some n) = if n == 0 then default else n

-- The members of a list, and none of any other value.
abbrev pub rows_in : Json → Items
rows_in v = elim v [ list rows ↦ rows | _ ↦ no_items ]

module _ {F : Type 0} (r : RowReading) (s : Service) where
  abbrev pub found_model : ℕ → Fields → Option ℕ → Option ℕ → Found F
  found_model index d window output = record {
    id = String.◌++◌ s.name (String.◌++◌ "/" (row_id r d));
    name = text_or r d "name" (row_id r d);
    provider_id = s.name;
    provider_model_id = row_id r d;
    provider_base_url = s.api_base;
    provider_api_key_env = s.provider_api_key_env;
    endpoint_id = none;
    provider_options_json = none;
    context_window = some (some (window_or s.default_context_window window));
    max_output_tokens = output;
    supports_tools = some (supports_tools r d);
    supports_streaming = some (supports_streaming r d);
    supports_vision = some (supports_vision r d);
    supports_structured_output = some (supports_structured_output r d);
    supports_system_messages = some true;
    tokenizer_family = tokenizer_of r d;
    provider_rank = RankValue.whole (pos index);
    openrouter_rank = RankValue.absent;
    chatbot_arena_elo = none;
    open_llm_score = none;
    is_healthy = some true;
  }

  unfoldable pub read_row : ℕ → Fields → Option (Found F)
  read_row index d = elim (context_window_of r d) [
    | none ↦ none
    | some window ↦ Option.map (found_model index d window) (max_output_of r d)
  ]

  -- The loop over the rows, the first of which is at `index`.
  unfoldable pub read_rows : ℕ → Items → Option (List (Found F))
  unfolding read_row
  read_rows index no_items = some []
  read_rows index (item v vs) =
      let rest = read_rows (index + 1) vs in
      elim v [
        | object d ↦
            if str_eq (row_id r d) ""
            then rest
            else elim (read_row index d) [ none ↦ none | some f ↦ Option.map (λ fs. f ∷ fs) rest ]
        | _ ↦ rest
      ]

  -- The models that the payload of an answer names, if it has a list of rows.
  unfoldable pub read_payload : Json → Option (List (Found F))
  unfolding read_rows
  read_payload v = read_rows 1 (rows_in (nested_get ("data" ∷ []) v))
