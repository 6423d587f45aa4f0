-- ===== src/Providers/OpenRouter.antt =====
-- `discover_models` of src/providers/openrouter.py. What `_request_with_retries` and `response.json()`
-- give is an argument. `str`, `str.strip` and `str.lower` are parameters, and so is what the integer and
-- text columns of SQLite make of a value. `none` is an exception: `get` of what is no dictionary, or a loop
-- over what cannot be looped over.
pub mod Free
mod Tests
use Prim.Native.Char.{Char}
use Prim.Native.String
use mathlib.Core.Option
use free_lunch.Prelude.Int.{pos}
use free_lunch.Json.{
  Json, null, flag, whole, fraction, text, list, object, Items, no_items, item, Fields, no_fields,
  field, get, truth, is_true, is_null, value_of, to_list,
}
use free_lunch.Discovery.{Found, RankValue}
use free_lunch.Providers.Errors.{ProviderError, auth_error, fatal_error}
use free_lunch.Providers.Adapter.{Outcome, gives, fails, raises, outcome_of}
use free_lunch.Prelude.{
  ℕ, ◌+◌, ◌≡◌, refl, arith, String, Bool, true, false, not, ◌&&◌, Option, none, some, List, [], ◌∷◌,
  map, str_eq, select, if◌then◌else◌, any, or_else,
}

-- A chain of steps that may raise.
infixl 5 ◌>>=◌
abbrev pub ◌>>=◌ : {A B : Type 0} → Option A → (A → Option B) → Option B
none >>= f = none
some x >>= f = f x

pub >>=-eq-some :
    {A B : Type 0} (m : Option A) (f : A → Option B) (b : B)
    → (m >>= f) ≡ some b
    → (a : A) × (m ≡ some a) × (f a ≡ some b)
>>=-eq-some none f b h = absurd (ground (arith, h))
>>=-eq-some (some a) f b h = (a, refl, h)

pub record Columns : Type 0 where
  pub str : Json → String
  pub strip : String → String
  pub lower : String → String
  pub int_column : Json → Option ℕ
  pub text_column : Json → Option String

pub record OpenRouter : Type 0 where
  pub api_key : String
  pub dev_stub_enabled : Bool
  pub api_base : String

abbrev characters : String → List Json
characters String.[] = []
characters (String.◌∷◌ c s) = text (String.◌∷◌ c String.[]) ∷ characters s

abbrev key_names : Fields → List Json
key_names no_fields = []
key_names (field k v d) = text k ∷ key_names d

-- The values of `for value in d.get(k, [])`.
abbrev pub looped : Option Json → Option (List Json)
looped none = some []
looped (some v) = elim v [
  | list vs ↦ some (to_list vs)
  | text s ↦ some (characters s)
  | object d ↦ some (key_names d)
  | _ ↦ none
]

-- `d.get(k, {})`, of which `get` is called.
abbrev pub section : String → Fields → Option Fields
section k d = elim (get k d) [
  | none ↦ some no_fields
  | some v ↦ elim v [ object e ↦ some e | _ ↦ none ]
]

-- A row, of which `get` is called.
abbrev pub as_object : Json → Option Fields
as_object v = elim v [ object d ↦ some d | _ ↦ none ]

module _ (c : Columns) where
  abbrev pub lower_names : List Json → List String
  lower_names vs = map (λ v. c.lower (c.str v)) (select (λ v. not (is_null (some v))) vs)

  -- The price under a key, as a text without white space around it.
  abbrev pub price : String → Fields → String
  price k pricing = c.strip (c.str (or_else (get k pricing) (text "")))

  unfoldable pub is_free_model : Fields → Option Bool
  is_free_model d = do
    pricing ← section "pricing" d
    some (str_eq (price "prompt" pricing) "0" && str_eq (price "completion" pricing) "0")

  unfoldable pub supports_structured_output : List String → Bool
  supports_structured_output parameters =
      any (λ value. any (str_eq value) parameters)
        ("response_format" ∷ "json_schema" ∷ "structured_outputs" ∷ "structured_output" ∷ [])

  -- `a or b`
  abbrev or_value : Option Json → Option Json → Json
  or_value a b = if is_true a then or_else a null else or_else b null

abbrev pub key_required : ProviderError
key_required = fatal_error "openrouter api key is required" auth_error (some 401) none

abbrev pub rows_of : Json → Option (List Json)
rows_of payload = as_object payload >>= λ d. looped (get "data" d)

module _ {F : Type 0} (c : Columns) (a : OpenRouter) where
  abbrev pub found_free : ℕ → Fields → Json → List String → Fields → List String → Fields → Found F
  found_free index d id parameters architecture modalities top = record {
    id = String.◌++◌ "openrouter/" (c.str id);
    name = c.str (or_value c (get "name" d) (some id));
    provider_id = "openrouter";
    provider_model_id = c.str id;
    provider_base_url = a.api_base;
    provider_api_key_env = "OPENROUTER_API_KEY";
    endpoint_id = none;
    provider_options_json = none;
    context_window =
        some (c.int_column (or_value c (get "context_length" d) (some (whole (pos 4096)))));
    max_output_tokens =
        c.int_column (or_value c (get "max_completion_tokens" top) (get "max_completion_tokens" d));
    supports_tools = some (any (str_eq "tools") parameters);
    supports_streaming = some true;
    supports_vision = some (any (str_eq "image") modalities);
    supports_structured_output = some (supports_structured_output c parameters);
    supports_system_messages = some true;
    tokenizer_family = c.text_column (value_of "tokenizer" architecture);
    provider_rank = RankValue.absent;
    openrouter_rank = RankValue.whole (pos index);
    chatbot_arena_elo = none;
    open_llm_score = none;
    is_healthy = some true;
  }

  -- A row that has an id and is free.
  unfoldable pub read_free : ℕ → Fields → Json → Option (Found F)
  unfolding supports_structured_output
  read_free index d id = do
    parameters ← looped (get "supported_parameters" d)
    architecture ← section "architecture" d
    modalities ← looped (get "input_modalities" architecture)
    top ← section "top_provider" d
    some (
        found_free index d id (lower_names c parameters) architecture (lower_names c modalities)
          top)

  abbrev pub keep_free : Bool → ℕ → Fields → Option (List (Found F)) → Option (List (Found F))
  keep_free free index d rest =
      if free
      then (read_free index d (value_of "id" d) >>= λ f. Option.map (λ fs. f ∷ fs) rest)
      else rest

  -- A row without an id, or one that is not free, is left out.
  abbrev pub read_object : ℕ → Fields → Option (List (Found F)) → Option (List (Found F))
  read_object index d rest =
      if is_true (get "id" d)
      then (is_free_model c d >>= λ free. keep_free free index d rest)
      else rest

  -- The loop over the rows.
  unfoldable pub read_rows : ℕ → List Json → Option (List (Found F))
  unfolding read_free is_free_model
  read_rows index [] = some []
  read_rows index (v ∷ vs) =
      let rest = read_rows (index + 1) vs in as_object v >>= λ d. read_object index d rest

  abbrev pub fallback_model : Found F
  fallback_model = record {
    id = "openrouter/openrouter/free";
    name = "openrouter/free";
    provider_id = "openrouter";
    provider_model_id = "openrouter/free";
    provider_base_url = a.api_base;
    provider_api_key_env = "OPENROUTER_API_KEY";
    endpoint_id = none;
    provider_options_json = none;
    context_window = some (some 4096);
    max_output_tokens = none;
    supports_tools = some true;
    supports_streaming = some true;
    supports_vision = some true;
    supports_structured_output = some false;
    supports_system_messages = some true;
    tokenizer_family = none;
    provider_rank = RankValue.absent;
    openrouter_rank = RankValue.whole (pos 1);
    chatbot_arena_elo = none;
    open_llm_score = none;
    is_healthy = some true;
  }

  unfoldable pub discover_models : Outcome Json → Outcome (List (Found F))
  unfolding read_rows
  discover_models answer =
      if str_eq a.api_key ""
      then if a.dev_stub_enabled then gives (fallback_model ∷ []) else fails key_required
      else elim answer [
        | gives payload ↦ outcome_of (rows_of payload >>= λ rows. read_rows 1 rows)
        | fails e ↦ fails e
        | raises ↦ raises
      ]
