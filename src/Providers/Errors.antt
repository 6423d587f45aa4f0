-- ===== src/Providers/Errors.antt =====
-- src/providers/base.py and the categories of src/providers/openai_compatible.py.
pub mod Categories
pub mod Payload
mod Tests
use text.Mathlib.Text.{find?}
use free_lunch.Prelude.{
  ℕ, String, Bool, true, false, ◌&&◌, ◌||◌, Option, none, some, List, [], ◌∷◌, str_eq, leb, ◌==◌,
  if◌then◌else◌, any, or_else, is_some,
}

-- `GatewayErrorCategory`
pub data Category : Type 0 where
  rate_limited provider_unavailable invalid_request auth_error context_exceeded : Category

-- Membership of `RETRYABLE_ERROR_CATEGORIES`.
unfoldable pub is_retryable_category : Category → Bool
is_retryable_category rate_limited = true
is_retryable_category provider_unavailable = true
is_retryable_category context_exceeded = true
is_retryable_category invalid_request = false
is_retryable_category auth_error = false

pub record ProviderError : Type 0 where
  pub message : String
  pub category : Category
  pub retryable : Bool
  pub status_code : Option ℕ
  pub error_code : Option String

-- `ProviderRetryableError`
abbrev pub retryable_error : String → Category → Option ℕ → Option String → ProviderError
retryable_error message category status code = record {
  message = message;
  category = category;
  retryable = true;
  status_code = status;
  error_code = code;
}

-- `ProviderFatalError`
abbrev pub fatal_error : String → Category → Option ℕ → Option String → ProviderError
fatal_error message category status code = record {
  message = message;
  category = category;
  retryable = false;
  status_code = status;
  error_code = code;
}

abbrev pub is_context_exceeded : Category → Bool
is_context_exceeded context_exceeded = true
is_context_exceeded c = false

abbrev pub is_status : Option ℕ → List ℕ → Bool
is_status none codes = false
is_status (some n) codes = any (λ k. k == n) codes

abbrev pub is_code : String → List String → Bool
is_code s codes = any (str_eq s) codes

-- `phrase in text`
abbrev pub says : String → String → Bool
says text phrase = is_some (find? text phrase)

abbrev context_codes : List String
context_codes =
    "context_length_exceeded" ∷ "context_window_exceeded" ∷ "max_tokens_exceeded"
    ∷ "token_limit_exceeded" ∷ "string_too_long" ∷ []

abbrev context_phrases : List String
context_phrases =
    "context length" ∷ "maximum context length" ∷ "context window" ∷ "too many tokens"
    ∷ "token limit" ∷ "input is too long" ∷ []

abbrev rate_codes : List String
rate_codes = "429" ∷ "rate_limit_exceeded" ∷ "rate_limited" ∷ "too_many_requests" ∷ []

abbrev auth_codes : List String
auth_codes =
    "401" ∷ "402" ∷ "403" ∷ "invalid_api_key" ∷ "invalid_key" ∷ "invalid_authentication"
    ∷ "authentication_error" ∷ "permission_denied" ∷ "insufficient_credits" ∷ "payment_required"
    ∷ []

abbrev request_codes : List String
request_codes =
    "400" ∷ "404" ∷ "405" ∷ "409" ∷ "422" ∷ "invalid_request_error" ∷ "invalid_request"
    ∷ "invalid_model" ∷ "model_not_found" ∷ "unsupported_parameter" ∷ []

abbrev server_codes : List String
server_codes =
    "408" ∷ "425" ∷ "500" ∷ "502" ∷ "503" ∷ "504" ∷ "timeout" ∷ "server_error"
    ∷ "internal_server_error" ∷ "service_unavailable" ∷ []

-- The last tests of the categorization, which read the status alone.
abbrev pub by_status : Option ℕ → Category × Bool
by_status none = (provider_unavailable, true)
by_status (some n) = if leb 500 n then (provider_unavailable, true) else (invalid_request, false)

-- The answer `CONTEXT_EXCEEDED`, on the text in lower case.
abbrev pub tells_context_exceeded : String → String → Bool
tells_context_exceeded code message =
    is_code code context_codes || any (says message) context_phrases

-- `str.lower` is a parameter.
module _ (lower : String → String) where
  unfoldable pub categorize_openai_compatible_error :
      Option ℕ → Option String → String → Category × Bool
  categorize_openai_compatible_error status error_code message =
      let code = lower (or_else error_code "") in
      let text = lower message in
      if tells_context_exceeded code text
      then (context_exceeded, true)
      else if is_status status (429 ∷ []) || (is_code code rate_codes || says text "rate limit")
      then (rate_limited, true)
      else if is_status status (401 ∷ 402 ∷ 403 ∷ []) || is_code code auth_codes
      then (auth_error, false)
      else if is_status status (400 ∷ 404 ∷ 405 ∷ 409 ∷ 422 ∷ []) || is_code code request_codes
      then (invalid_request, false)
      else if is_status status (408 ∷ 425 ∷ 500 ∷ 502 ∷ 503 ∷ 504 ∷ []) || is_code code server_codes
      then (provider_unavailable, true)
      else by_status status

-- `_provider_error_status` of src/proxy.py; a status of 0 is replaced by 401, as None is.
unfoldable pub provider_error_status : ProviderError → ℕ
provider_error_status e = elim e.category [
  | auth_error ↦ elim e.status_code [ none ↦ 401 | some n ↦ if n == 0 then 401 else n ]
  | invalid_request ↦ 400
  | context_exceeded ↦ 400
  | rate_limited ↦ 429
  | provider_unavailable ↦ 502
]
