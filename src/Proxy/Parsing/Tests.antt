-- ===== src/Proxy/Parsing/Tests.antt =====
-- A chat request as src/proxy.py reads it, and the candidates that it reaches.
use free_lunch.Prelude.{
  ℕ, ◌≡◌, ◌↔◌, ◌⊎◌, refl, Bool, true, false, Option, none, some, List, [], ◌∷◌, All, map, arith,
  str_eq,
}
use free_lunch.Prelude.Int.{ℤ, pos}
use free_lunch.Prelude.Sort.{sort_desc}
use free_lunch.Floats.{thousandths, tuple_lt}
use free_lunch.Database.Models.{Table, new_row}
use free_lunch.Json.{
  Json, flag, whole, text, list, object, no_items, item, Fields, no_fields, field,
}
use free_lunch.Routing.{is_eligible, serialize_candidate, preference_score, pick_candidates}
use free_lunch.Routing.Candidates.{RoutingRequirements}
use free_lunch.Tokens.Estimate.{
  Counting, is_image, content_tokens, message_tokens, request_contains_vision,
  estimate_required_tokens,
}
use free_lunch.Proxy.Parsing.{
  Numbers, accepted, raises, Estimation, requirements_of, read_chat_payload, parse_requirements,
  Headers, parse_routing_preferences,
}
use free_lunch.Proxy.Parsing.Body.{IsAcceptable, read_chat_payload_iff}
use free_lunch.Proxy.Parsing.Served.{ServesPayload, request-ServesPayload}
use free_lunch.Proxy.Parsing.Preferences.{IsNoInt, parse_routing_preferences-raises}

-- Only "7" is a number, and "²" is one for `isdigit` alone.
abbrev numbers : Numbers
numbers = record {
  is_digit = λ s. true;
  int_of_text = λ s. elim (str_eq s "7") [ true ↦ some (pos 7) | false ↦ none ];
  int_of_float = λ s. none;
}

abbrev counting : Counting
counting = record {
  exact = λ s. none;
  heuristic = λ s. 1;
  dumps = λ v. "json";
  str = λ v. elim v [ text s ↦ s | w ↦ "value" ];
  lower = λ s. s;
  buffered = λ n. n;
}

abbrev hello : Fields
hello = field "content" (text "hello") no_fields

abbrev asked : Fields
asked =
    field "messages" (list (item (object hello) no_items))
      (field "stream" (flag true) (field "max_tokens" (whole (pos 9)) no_fields))

abbrev loads : List ℕ → Option Json
loads b = some (object asked)

read_chat_payload_iff_example :
    (read_chat_payload numbers loads 3 (some "7") ((1 ∷ []) ∷ (2 ∷ 3 ∷ []) ∷ []) ≡ accepted asked)
    ↔ IsAcceptable numbers loads 3 (some "7") ((1 ∷ []) ∷ (2 ∷ 3 ∷ []) ∷ []) asked
read_chat_payload_iff_example =
    read_chat_payload_iff numbers loads 3 (some "7") ((1 ∷ []) ∷ (2 ∷ 3 ∷ []) ∷ []) asked

reads_chunks :
    read_chat_payload numbers loads 3 none ((1 ∷ []) ∷ (2 ∷ 3 ∷ []) ∷ []) ≡ accepted asked
unfolding read_chat_payload
reads_chunks = refl

abbrev table : Table ℤ
table = new_row (pos 0) "p/m" "p" "m" ∷ []

abbrev req : RoutingRequirements Estimation
req = requirements_of numbers counting asked (some "auto") (some (hello ∷ [])) 0 9

request-ServesPayload_example :
    All
      (ServesPayload numbers counting (λ f m. counting) 5 table asked (hello ∷ []))
      (map serialize_candidate table)
unfolding parse_requirements pick_candidates is_eligible sort_desc tuple_lt preference_score
    request_contains_vision is_image estimate_required_tokens message_tokens content_tokens
request-ServesPayload_example =
    request-ServesPayload numbers counting (λ f m. counting) 5 table asked (hello ∷ []) req none
      none (pos 3) (map serialize_candidate table) (λ f m n. omega arith) refl refl refl

abbrev squared : Headers
squared = record { preference = none; max_latency_ms = some "²"; min_context = none }

parse_routing_preferences-raises_example :
    (parse_routing_preferences numbers (λ s. s) true squared ≡ raises)
    ↔ ((◌≡◌ {A = Bool} true true) × (IsNoInt numbers (some "²") ⊎ IsNoInt numbers none))
parse_routing_preferences-raises_example =
    parse_routing_preferences-raises numbers (λ s. s) true squared
