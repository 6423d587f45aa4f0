-- ===== src/Tokens/Estimate.antt =====
-- The token estimate of src/tokens.py over the JSON values of a request. The exact and the heuristic
-- count of a text, `json.dumps`, `str`, `str.lower` and the product with the safety buffer are
-- parameters.
pub mod Vision
mod Tests
use package.text.Mathlib.Text.{find?}
use free_lunch.Json.{
  Json, null, flag, whole, fraction, text, list, object, Items, no_items, item, Fields, get,
  has_key, is_true,
}
use free_lunch.Prelude.{
  ℕ, ◌+◌, String, Bool, true, false, not, ◌||◌, Option, none, some, List, [], ◌∷◌, max, str_eq,
  is_some, or_else, any, total, if◌then◌else◌,
}

pub record Counting : Type 0 where
  pub exact : String → Option ℕ
  pub heuristic : String → ℕ
  pub dumps : Json → String
  pub str : Json → String
  pub lower : String → String
  pub buffered : ℕ → ℕ

-- What `dict.get` with a default of "" is read as.
abbrev pub text_under : Counting → String → Fields → String
text_under t k d = t.str (or_else (get k d) (text ""))

abbrev pub text_token_estimate : Counting → String → ℕ
text_token_estimate t s =
    if str_eq s "" then 0 else elim (t.exact s) [ none ↦ t.heuristic s | some n ↦ n ]

abbrev pub json_token_estimate : Counting → Json → ℕ
json_token_estimate t v = text_token_estimate t (t.dumps v)

unfoldable pub is_image : Counting → Fields → Bool
is_image t d =
    is_some (find? (t.lower (text_under t "type" d)) "image")
    || (has_key "image_url" d || has_key "input_image" d)

abbrev pub is_image_part : Counting → Json → Bool
is_image_part t v = elim v [ object d ↦ is_image t d | _ ↦ false ]

abbrev is_text_type : String → Bool
is_text_type s = str_eq s "text" || str_eq s "input_text"

-- A part that is a dictionary.
unfoldable pub object_tokens : Counting → Fields → ℕ
object_tokens t d =
    if is_image t d
    then 256
    else if is_text_type (t.lower (text_under t "type" d))
    then text_token_estimate t (text_under t "text" d)
    else json_token_estimate t (object d)

unfoldable pub part_tokens : Counting → Json → ℕ
part_tokens t v = elim v [
  | text s ↦ text_token_estimate t s
  | object d ↦ object_tokens t d
  | w ↦ text_token_estimate t (t.str w)
]

unfoldable pub parts_tokens : Counting → Items → ℕ
parts_tokens t no_items = 0
parts_tokens t (item v vs) = part_tokens t v + parts_tokens t vs

unfoldable pub content_tokens : Counting → Option Json → ℕ
content_tokens t none = 0
content_tokens t (some null) = 0
content_tokens t (some (text s)) = text_token_estimate t s
content_tokens t (some (list parts)) = parts_tokens t parts
content_tokens t (some (object d)) = object_tokens t d
content_tokens t (some (flag b)) = text_token_estimate t (t.str (flag b))
content_tokens t (some (whole z)) = text_token_estimate t (t.str (whole z))
content_tokens t (some (fraction b s)) = text_token_estimate t (t.str (fraction b s))

-- A field that is there and true costs its text, and one that is not None its JSON, and each 2 more.
abbrev text_field_tokens : Counting → Fields → String → ℕ
text_field_tokens t d k =
    if is_true (get k d) then 2 + text_token_estimate t (text_under t k d) else 0

abbrev json_field_tokens : Counting → Fields → String → ℕ
json_field_tokens t d k = elim (get k d) [
  | none ↦ 0
  | some v ↦ elim v [ null ↦ 0 | w ↦ 2 + json_token_estimate t w ]
]

unfoldable pub message_tokens : Counting → Fields → ℕ
message_tokens t d =
    6
    + content_tokens t (get "content" d)
    + total (text_field_tokens t d) ("name" ∷ "tool_call_id" ∷ "refusal" ∷ [])
    + total (json_field_tokens t d) ("tool_calls" ∷ "function_call" ∷ "audio" ∷ [])

abbrev any_image : Counting → Items → Bool
any_image t no_items = false
any_image t (item v vs) = is_image_part t v || any_image t vs

abbrev pub content_has_image : Counting → Option Json → Bool
content_has_image t none = false
content_has_image t (some v) = elim v [
  | object d ↦ is_image t d
  | list parts ↦ any_image t parts
  | _ ↦ false
]

unfoldable pub request_contains_vision : Counting → List Fields → Bool
request_contains_vision t messages = any (λ d. content_has_image t (get "content" d)) messages

-- The cost of the tools or of the response format, if it is given.
abbrev extra_tokens : Counting → ℕ → Option Json → ℕ
extra_tokens t overhead none = 0
extra_tokens t overhead (some v) =
    if is_true (some v) then overhead + json_token_estimate t v else 0

unfoldable pub estimate_required_tokens : Counting → List Fields → Option Json → Option Json → ℕ
estimate_required_tokens t messages tools response_format =
    max
      (t.buffered (
        16
        + total (message_tokens t) messages
        + extra_tokens t 32 tools
        + extra_tokens t 16 response_format))
      1
