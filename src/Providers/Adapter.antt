-- ===== src/Providers/Adapter.antt =====
-- The requests of the adapter in src/providers/openai_compatible.py: `discover_models`,
-- `chat_completions` and `probe`. What the network does is an argument, which sees what is sent; the
-- time that a request took is another.
pub mod Discovered
pub mod Forwarded
mod Tests
use mathlib.Core.Option
use Prim.Native.String
use free_lunch.Prelude.Int.{pos}
use free_lunch.Json.{
  Json, null, flag, whole, text, list, object, no_items, item, Fields, no_fields, field, value_of,
  set_field,
}
use free_lunch.Discovery.{Found}
use free_lunch.Providers.Errors.{
  auth_error, provider_unavailable, ProviderError, retryable_error, fatal_error,
}
use free_lunch.Providers.Requests.{
  Decoder, Client, Attempt, returned, caught, let_through, Tried, request_with_retries,
}
use free_lunch.Providers.Catalog.{Service, read_payload}
use free_lunch.Providers.Values.{RowReading, coerce_int}
use free_lunch.Prelude.{
  ℕ, zero, suc, ◌≡◌, arith, String, Bool, true, false, Option, none, some, List, [], ◌∷◌, str_eq,
  ltb, if◌then◌else◌, length,
}

pub record Adapter : Type 0 where
  pub client : Client
  pub service : Service
  pub api_key : String

-- What is sent: the method, the path and the body.
pub record Sent : Type 0 where
  pub verb : String
  pub path : String
  pub json_body : Option Fields

-- What the network does with a request, attempt by attempt.
abbrev pub Network : Type 0
Network = Sent → ℕ → Attempt

-- A result, an error of the provider, or an exception of another kind.
pub data Outcome (A : Type 0) : Type 0 where
  gives : A → Outcome A
  fails : ProviderError → Outcome A
  raises : Outcome A

pub record ChatResult : Type 0 where
  pub payload : Fields
  pub latency_ms : ℕ
  pub ttfb_ms : ℕ
  pub prompt_tokens : Option ℕ
  pub completion_tokens : Option ℕ
  pub total_tokens : Option ℕ

abbrev pub no_key : Adapter → ProviderError
no_key a =
    fatal_error (String.◌++◌ a.service.name " api key is required") auth_error (some 401) none

abbrev pub invalid_json : ProviderError
invalid_json = retryable_error "provider returned invalid json" provider_unavailable none none

abbrev too_long : ProviderError
too_long = retryable_error "provider response exceeded size limit" provider_unavailable none none

-- `payload if isinstance(payload, dict) else {}`
abbrev pub fields_of : Json → Fields
fields_of v = elim v [ object d ↦ d | _ ↦ no_fields ]

-- The tokens that a payload says were used.
abbrev pub usage_tokens : RowReading → String → Fields → Option (Option ℕ)
usage_tokens r k payload = coerce_int r (value_of k (fields_of (value_of "usage" payload)))

unfoldable pub chat_result : RowReading → ℕ → Fields → Option ChatResult
unfolding coerce_int
chat_result r latency payload = elim (usage_tokens r "prompt_tokens" payload) [
  | none ↦ none
  | some prompt ↦ elim (usage_tokens r "completion_tokens" payload) [
    | none ↦ none
    | some completion ↦
        Option.map
          (λ total. record {
            payload = payload;
            latency_ms = latency;
            ttfb_ms = latency;
            prompt_tokens = prompt;
            completion_tokens = completion;
            total_tokens = total;
          })
          (usage_tokens r "total_tokens" payload)
  ]
]

-- What is made of a response's body, or the error that the request raised.
abbrev pub resolve : {A : Type 0} → Tried → (List ℕ → Outcome A) → Outcome A
resolve (returned status body) k = k body
resolve (caught e) k = fails e
resolve (let_through e) k = fails e

-- A value, or an exception that is no error of the provider.
abbrev pub outcome_of : {A : Type 0} → Option A → Outcome A
outcome_of none = raises
outcome_of (some x) = gives x

pub outcome_of-gives : {A : Type 0} (o : Option A) (x : A) → outcome_of o ≡ gives x → o ≡ some x
outcome_of-gives none x e = absurd (ground (arith, e))
outcome_of-gives (some y) x e = ground (arith, e)

module _ (r : RowReading) (decoder : Decoder) (a : Adapter) where
  -- `_assert_api_key` and `_request_with_retries`.
  unfoldable pub request : {A : Type 0} → (ℕ → Attempt) → (List ℕ → Outcome A) → Outcome A
  request network k =
      if str_eq a.api_key ""
      then fails (no_key a)
      else resolve (request_with_retries decoder a.client network).1 k

  -- `_parse_json`
  abbrev pub parse_json : {A : Type 0} → (Fields → Outcome A) → List ℕ → Outcome A
  parse_json k body = elim (decoder.loads body) [
    | none ↦ fails invalid_json
    | some v ↦ k (fields_of v)
  ]

  unfoldable pub discover_models : {F : Type 0} → Network → Outcome (List (Found F))
  unfolding request read_payload
  discover_models network =
      request (network (record { verb = "GET"; path = "/models"; json_body = none })) (λ body.
        if ltb a.client.max_response_bytes (length body)
        then fails too_long
        else parse_json (λ d. outcome_of (read_payload r a.service (object d))) body)

  -- A completion request with a body, as both callers below make it.
  unfoldable pub complete : Network → ℕ → Fields → Outcome ChatResult
  unfolding request chat_result
  complete network latency body =
      request
        (network (record { verb = "POST"; path = "/chat/completions"; json_body = some body }))
        (parse_json (λ d. outcome_of (chat_result r latency d)))

  unfoldable pub chat_completions : Network → ℕ → Fields → String → Outcome ChatResult
  unfolding complete
  chat_completions network latency request_body model =
      complete network latency (set_field "model" (text model) request_body)

  -- The body of a probe.
  abbrev pub ping : String → ℕ → Fields
  ping model max_tokens = field "model" (text model) (
      field "messages"
        (list (
          item (object (field "role" (text "user") (field "content" (text "ping") no_fields)))
            no_items))
        (field "max_tokens" (whole (pos max_tokens)) (field "stream" (flag false) no_fields)))

  unfoldable pub probe : Network → ℕ → String → ℕ → Outcome ChatResult
  unfolding complete
  probe network latency model max_tokens = complete network latency (ping model max_tokens)
