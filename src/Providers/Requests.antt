-- ===== src/Providers/Requests.antt =====
-- `_request_with_retries`, `_raise_for_response` and `_extract_error_details` of
-- src/providers/openai_compatible.py. What the network does for an attempt is an argument; the decoding
-- of bytes, `json.loads`, `str` and `str.lower` are parameters.
pub mod Attempts
mod Tests
use Prim.Native.String
use free_lunch.Prelude.Int.{ℤ, max_ℤ}
use free_lunch.Json.{Json, null, object, Fields, truth, is_null, value_of}
use free_lunch.Providers.EventStream.{Closing, closed, timed_out, broken}
use free_lunch.Providers.Errors.{
  Category, provider_unavailable, ProviderError, retryable_error, fatal_error,
  categorize_openai_compatible_error,
}
use free_lunch.Prelude.{
  ℕ, zero, suc, ◌+◌, String, Bool, true, false, Option, none, some, List, [], ◌∷◌, ◌++◌, ltb, leb,
  str_eq, if◌then◌else◌, length, or_else,
}

-- `text[:n]`
abbrev pub prefix : ℕ → String → String
prefix zero s = ""
prefix (suc n) String.[] = ""
prefix (suc n) (String.◌∷◌ c s) = String.◌∷◌ c (prefix n s)

-- How Python decodes bytes and values.
pub record Decoder : Type 0 where
  pub loads : List ℕ → Option Json
  pub plain_text : List ℕ → String
  pub str : Json → String
  pub show : ℕ → String
  pub lower : String → String

-- An answer of the server: its status, the length that it declares, and its body's chunks.
pub record Upstream : Type 0 where
  pub status : ℕ
  pub declared : Option ℕ
  pub chunks : List (List ℕ)
  pub ending : Closing

-- What one attempt meets: an answer, or no connection.
pub data Attempt : Type 0 where
  answers : Upstream → Attempt
  no_answer_in_time : Attempt
  no_connection : Attempt

-- How an attempt ends: a response, or an exception that the loop catches or lets through.
pub data Tried : Type 0 where
  returned : ℕ → List ℕ → Tried
  caught : ProviderError → Tried
  let_through : ProviderError → Tried

-- The provider's name, its size limit and its number of retries.
pub record Client : Type 0 where
  pub name : String
  pub max_response_bytes : ℕ
  pub max_retries : ℤ

abbrev oversized : ProviderError
oversized = retryable_error "provider response exceeded size limit" provider_unavailable none none

abbrev timeout_error : ProviderError
timeout_error = retryable_error "provider timeout" provider_unavailable none none

abbrev transport_error : ProviderError
transport_error = retryable_error "provider transport error" provider_unavailable none none

-- The error's object, or the whole payload where it has none.
abbrev error_fields : Fields → Fields
error_fields payload = elim (value_of "error" payload) [ object e ↦ e | _ ↦ payload ]

abbrev text_or_none : String → Option String
text_or_none s = if str_eq s "" then none else some s

-- `str(code) if code is not None else None`
abbrev code_text : Decoder → Json → Option String
code_text r v = if is_null (some v) then none else some (r.str v)

abbrev field_details : Decoder → Fields → Option String × Option String
field_details r d =
    let message = value_of "message" d in
    (
      if truth message then some (prefix 500 (r.str message)) else none,
      code_text r (value_of "code" d),
    )

unfoldable pub extract_error_details : Decoder → List ℕ → Option String × Option String
extract_error_details r [] = (none, none)
extract_error_details r (b ∷ body) = elim (r.loads (b ∷ body)) [
  | none ↦ (text_or_none (prefix 500 (r.plain_text (b ∷ body))), none)
  | some payload ↦ elim payload [ object d ↦ field_details r (error_fields d) | _ ↦ (none, none) ]
]

-- `f"{self.name} error ({status_code})"`
abbrev status_message : Decoder → Client → ℕ → String
status_message r client status =
    String.◌++◌ client.name (String.◌++◌ " error (" (String.◌++◌ (r.show status) ")"))

-- The error that a status of 400 or more raises.
unfoldable pub raise_for_response : Decoder → Client → ℕ → List ℕ → ProviderError
unfolding extract_error_details categorize_openai_compatible_error
raise_for_response r client status body =
    let (message, code) = extract_error_details r body in
    let text = or_else message (status_message r client status) in
    let (category, retryable) =
      categorize_openai_compatible_error r.lower (some status) code text in
    if retryable
    then retryable_error text category (some status) code
    else fatal_error text category (some status) code

-- The chunks put together, unless they are too many bytes, after `size` of them.
abbrev pub read_body : ℕ → ℕ → List (List ℕ) → Option (List ℕ)
read_body limit size [] = some []
read_body limit size (c ∷ cs) =
    let rest = read_body limit (size + length c) cs in
    if ltb limit (size + length c)
    then none
    else elim rest [ none ↦ none | some bs ↦ some (c ++ bs) ]

abbrev is_declared_too_long : ℕ → Option ℕ → Bool
is_declared_too_long limit none = false
is_declared_too_long limit (some n) = ltb limit n

abbrev raised_error : ProviderError → Tried
raised_error e = if e.retryable then caught e else let_through e

-- A body that came to its end.
abbrev pub accept : Decoder → Client → ℕ → List ℕ → Tried
accept r client status body =
    if leb 400 status
    then raised_error (raise_for_response r client status body)
    else returned status body

-- The end of a body that was read.
abbrev pub ended : Decoder → Client → ℕ → List ℕ → Closing → Tried
ended r client status body closed = accept r client status body
ended r client status body timed_out = caught timeout_error
ended r client status body broken = caught transport_error

unfoldable pub try_upstream : Decoder → Client → Upstream → Tried
unfolding raise_for_response
try_upstream r client u =
    if is_declared_too_long client.max_response_bytes u.declared
    then caught oversized
    else elim (read_body client.max_response_bytes 0 u.chunks) [
      | none ↦ caught oversized
      | some body ↦ ended r client u.status body u.ending
    ]

abbrev pub try_once : Decoder → Client → Attempt → Tried
try_once r client (answers u) = try_upstream r client u
try_once r client no_answer_in_time = caught timeout_error
try_once r client no_connection = caught transport_error

-- The attempts made, and what the last of them gave: the loop's last error is raised at its end.
-- `left` attempts are left, and `n` were made.
unfoldable pub retry : Decoder → Client → (ℕ → Attempt) → ℕ → ℕ → ProviderError → ℕ × Tried
unfolding try_upstream
retry r client network zero n last = (n, caught last)
retry r client network (suc left) n last = elim (try_once r client (network n)) [
  | returned status body ↦ (suc n, returned status body)
  | caught e ↦ retry r client network left (suc n) e
  | let_through e ↦ (suc n, let_through e)
]

-- `max(int(self.max_retries), 1)` attempts at most; `caught` is the error that is raised at the end.
unfoldable pub request_with_retries : Decoder → Client → (ℕ → Attempt) → ℕ × Tried
unfolding retry
request_with_retries r client network =
    retry r client network (max_ℤ client.max_retries 1) 0
      (retryable_error "provider request failed" provider_unavailable none none)
