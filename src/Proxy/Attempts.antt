-- ===== src/Proxy/Attempts.antt =====
-- What src/proxy.py meets in an attempt and leaves of it: answers and streams of the providers, marks, rows
-- of the log, and replies. Times are in milliseconds since the request came.
use free_lunch.Prelude.{ℕ, String, Bool, Option, none, List}
use free_lunch.Providers.Errors.{Category, ProviderError, retryable_error}

-- One event of a provider's stream, with the time that it lets the reader wait.
pub record Event : Type 0 where
  pub wait : ℕ
  pub size : ℕ
  pub is_comment : Bool
  pub raw : String

-- What ends an attempt by an exception.
pub data Exception : Type 0 where
  provider_error : ProviderError → Exception
  stop_iteration : Exception
  other : String → Exception

-- A stream: its events, and then its end or an exception.
pub data Stream : Type 0 where
  ended : Stream
  breaks : Exception → Stream
  event : Event → Stream → Stream

-- `ChatResult`
pub record ChatResult (F J : Type 0) : Type 0 where
  pub payload : J
  pub latency_ms : Option F
  pub ttfb_ms : Option F
  pub prompt_tokens : Option ℕ
  pub completion_tokens : Option ℕ
  pub total_tokens : Option ℕ

-- What `chat_completions` of an adapter does.
pub data Answer (F J : Type 0) : Type 0 where
  fails : Exception → Answer F J
  answers : ChatResult F J → Answer F J

-- What `stream_chat_completions` of an adapter does, after some time.
pub data Opening : Type 0 where
  refuses : ℕ → Exception → Opening
  opens : ℕ → Stream → Opening

-- An adapter as one attempt meets it.
pub record Provider (F J : Type 0) : Type 0 where
  pub chat : Answer F J
  pub stream : Opening

-- The settings of streams, in milliseconds and bytes.
pub record Timing : Type 0 where
  pub idle : ℕ
  pub total : ℕ
  pub max_event : ℕ

pub record Log : Type 0 where
  pub selected_model_id : String
  pub provider_id : String
  pub client_requested_model : Option String
  pub attempt_index : ℕ
  pub was_fallback : Bool
  pub success : Bool
  pub error : Option ProviderError
  pub prompt_tokens : Option ℕ
  pub completion_tokens : Option ℕ
  pub total_tokens : Option ℕ
  pub was_streaming : Bool
  pub had_tools : Bool
  pub had_vision : Bool

pub data Effect (F : Type 0) : Type 0 where
  -- `mark_success` with the latency and the time to the first byte
  marks_success : String → Option F → Option F → Effect F
  -- `mark_failure` with the error
  marks_failure : String → String → Effect F
  -- `log_request`
  logs : Log → Effect F

pub data Reply (J : Type 0) : Type 0 where
  answered : J → Reply J
  -- the attempt whose stream is relayed, its first event and what follows
  relays : ℕ → Event → Stream → Reply J
  rejected : ℕ → String → Reply J
  -- a KeyError of the registry leaves the handler
  uncaught : String → Reply J

-- What an attempt comes to: the end of the request, or the error that the next candidate follows.
pub data Verdict (F J : Type 0) : Type 0 where
  finish : List (Effect F) → Reply J → Verdict F J
  retry : List (Effect F) → ProviderError → Verdict F J

abbrev pub unavailable : String → ProviderError
unavailable message = retryable_error message Category.provider_unavailable none none
