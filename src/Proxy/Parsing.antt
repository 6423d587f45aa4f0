-- ===== src/Proxy/Parsing.antt =====
-- What src/proxy.py reads from a chat request: `_read_chat_payload`, `_parse_requirements` and
-- `_parse_routing_preferences`. `json.loads`, `str.isdigit`, `int`, `str.strip` and `str.lower` are
-- parameters. `raises` is an exception that no handler turns into an answer. Two kinds of requests on
-- which the code fails only later, when it estimates tokens or matches the model, are refused at once:
-- messages that are no objects, and a model that is true but no text.
pub mod Body
pub mod Served
pub mod Preferences
mod Tests
use free_lunch.Prelude.Int.{ℤ, pos, negsuc, max_ℤ}
use free_lunch.Json.{
  Json, null, flag, whole, fraction, text, list, object, Items, no_items, item, Fields, get, truth,
  is_true, is_null,
}
use free_lunch.Providers.Requests.{read_body}
use free_lunch.Routing.Candidates.{
  Preference, balanced, quality, latency, context, reliability, RoutingPreferences,
  RoutingRequirements,
}
use free_lunch.Tokens.Estimate.{Counting, request_contains_vision}
use free_lunch.Prelude.{
  ℕ, ◌+◌, ◌≡◌, refl, arith, String, Bool, true, false, ◌&&◌, Option, none, some, List, [], ◌∷◌,
  ◌++◌, str_eq, ltb, if◌then◌else◌, length, or_else,
}

-- `int` of a text or of a float is `none` where it raises.
pub record Numbers : Type 0 where
  pub is_digit : String → Bool
  pub int_of_text : String → Option ℤ
  pub int_of_float : String → Option ℤ

-- An `HTTPException` is refused, with its status and detail.
pub data Reply (A : Type 0) : Type 0 where
  accepted : A → Reply A
  refused : ℕ → String → Reply A
  raises : Reply A

infixl 5 ◌>>=◌
abbrev pub ◌>>=◌ : {A B : Type 0} → Reply A → (A → Reply B) → Reply B
accepted x >>= f = f x
refused status detail >>= f = refused status detail
raises >>= f = raises

pub >>=-eq-accepted :
    {A B : Type 0} (m : Reply A) (f : A → Reply B) (b : B)
    → (m >>= f) ≡ accepted b
    → (a : A) × (m ≡ accepted a) × (f a ≡ accepted b)
>>=-eq-accepted (accepted a) f b h = (a, refl, h)
>>=-eq-accepted (refused status detail) f b h = absurd (ground (arith, h))
>>=-eq-accepted raises f b h = absurd (ground (arith, h))

-- A value, or an exception.
abbrev pub or_raises : {A : Type 0} → Option A → Reply A
or_raises none = raises
or_raises (some x) = accepted x

abbrev pub require_object : Option Json → Reply Fields
require_object none = refused 400 "invalid JSON request body"
require_object (some v) = elim v [
  | object d ↦ accepted d
  | _ ↦ refused 400 "request body must be a JSON object"
]

abbrev pub within : Bool → Option (List ℕ) → Reply (List ℕ)
within true body = refused 413 "request body too large"
within false body = elim body [ none ↦ refused 413 "request body too large" | some b ↦ accepted b ]

module _ (n : Numbers) where
  -- `int(s)`, where a number below 0 counts as 0.
  abbrev pub int_text : String → Option ℕ
  int_text s = elim (n.int_of_text s) [ none ↦ none | some z ↦ some (max_ℤ z 0) ]

  -- `content_length and content_length.isdigit() and int(content_length) > limit`
  abbrev pub declares_more : ℕ → Option String → Reply Bool
  declares_more limit none = accepted false
  declares_more limit (some s) =
      if n.is_digit s
      then or_raises (elim (int_text s) [ none ↦ none | some k ↦ some (ltb limit k) ])
      else accepted false

  -- The body comes in chunks, and is read as long as it is within the limit.
  unfoldable pub read_chat_payload :
      (List ℕ → Option Json) → ℕ → Option String → List (List ℕ) → Reply Fields
  read_chat_payload loads limit content_length chunks = do
    too_long ← declares_more limit content_length
    body ← within too_long (read_body limit 0 chunks)
    require_object (loads body)

  -- `int(value or 0)`, where a number below 0 counts as 0.
  abbrev pub int_of : Json → Option ℕ
  int_of v = elim v [
    | flag b ↦ some 1
    | whole z ↦ some (max_ℤ z 0)
    | fraction b s ↦ elim (n.int_of_float s) [ none ↦ none | some z ↦ some (max_ℤ z 0) ]
    | text s ↦ int_text s
    | _ ↦ none
  ]

  abbrev pub int_or_zero : Option Json → Option ℕ
  int_or_zero none = some 0
  int_or_zero (some v) = if truth v then int_of v else some 0

-- What the tokens are estimated from.
pub record Estimation : Type 0 where
  pub messages : List Fields
  pub tools : Option Json
  pub response_format : Option Json

abbrev pub objects : Items → Option (List Fields)
objects no_items = some []
objects (item v vs) =
    let rest = objects vs in
    elim v [ object d ↦ elim rest [ none ↦ none | some ds ↦ some (d ∷ ds) ] | _ ↦ none ]

-- The messages, or none for None.
abbrev pub read_messages : Option Json → Option (Option (List Fields))
read_messages none = some (some [])
read_messages (some v) = elim v [
  | null ↦ some none
  | list xs ↦ elim (objects xs) [ none ↦ none | some ds ↦ some (some ds) ]
  | w ↦ if truth w then none else some (some [])
]

-- `payload.get("model", "auto")`; a value that is false is read as "auto", like none.
abbrev pub read_model : Option Json → Option (Option String)
read_model none = some (some "auto")
read_model (some v) = elim v [ text s ↦ some (some s) | w ↦ if truth w then none else some none ]

abbrev pub estimation_of : Fields → Option (List Fields) → Option Estimation
estimation_of d none = none
estimation_of d (some messages) = some (record {
  messages = messages;
  tools = get "tools" d;
  response_format = get "response_format" d;
})

-- `max_completion_tokens`, or `max_tokens` where that is None.
abbrev pub output_value : Fields → Option Json
output_value d =
    if is_null (get "max_completion_tokens" d)
    then get "max_tokens" d
    else get "max_completion_tokens" d

module _ (n : Numbers) (t : Counting) where
  abbrev pub requirements_of :
      Fields → Option String → Option (List Fields) → ℕ → ℕ → RoutingRequirements Estimation
  requirements_of d model messages window output = record {
    requested_model = model;
    requires_tools = is_true (get "tools" d);
    requires_vision = request_contains_vision t (or_else messages []);
    requires_streaming = is_true (get "stream" d);
    requires_structured_output = is_true (get "response_format" d);
    requires_system_messages = true;
    min_context_window = window;
    min_output_tokens = output;
    token_estimation = estimation_of d messages;
  }

  unfoldable pub parse_requirements : Fields → Reply (RoutingRequirements Estimation)
  parse_requirements d = do
    messages ← or_raises (read_messages (get "messages" d))
    model ← or_raises (read_model (get "model" d))
    window ← or_raises (int_or_zero n (get "min_context_window" d))
    output ← or_raises (int_or_zero n (output_value d))
    accepted (requirements_of d model messages window output)

-- The three headers of a request.
pub record Headers : Type 0 where
  pub preference : Option String
  pub max_latency_ms : Option String
  pub min_context : Option String

unfoldable pub preference_of : String → Preference
preference_of s =
    if str_eq s "quality"
    then quality
    else if str_eq s "latency"
    then latency
    else if str_eq s "context"
    then context
    else if str_eq s "reliability"
    then reliability
    else balanced

module _ (n : Numbers) where
  -- `int(header) if header and header.isdigit() else None`
  abbrev pub header_number : Option String → Option (Option ℕ)
  header_number none = some none
  header_number (some s) =
      if n.is_digit s
      then elim (int_text n s) [ none ↦ none | some k ↦ some (some k) ]
      else some none

module _ (n : Numbers) (normalize : String → String) where
  -- `normalize` is `strip().lower()`.
  unfoldable pub parse_routing_preferences : Bool → Headers → Reply (Option RoutingPreferences)
  unfolding preference_of
  parse_routing_preferences false h = accepted none
  parse_routing_preferences true h = do
    latency_ms ← or_raises (header_number n h.max_latency_ms)
    tokens ← or_raises (header_number n h.min_context)
    accepted (
        some (record {
          preference = preference_of (normalize (or_else h.preference "balanced"));
          max_latency_ms = latency_ms;
          min_context_tokens = tokens;
        }))
