-- ===== src/Providers/Adapter/Tests.antt =====
-- An adapter of src/providers/openai_compatible.py against a service with two models.
use mathlib.Core.Path.{◌≡◌, refl}
use free_lunch.Prelude.{true, none, some, [], ◌∷◌, str_eq, arith}
use free_lunch.Prelude.Int.{ℤ, pos}
use free_lunch.Json.{
  Json, null, flag, whole, text, list, object, no_items, item, Fields, no_fields, field,
}
use free_lunch.Discovery.{Found}
use free_lunch.Providers.EventStream.{closed}
use free_lunch.Providers.Requests.{Decoder, answers, try_upstream, retry, request_with_retries}
use free_lunch.Providers.Catalog.{found_model, read_row, read_rows, read_payload}
use free_lunch.Providers.Values.{
  RowReading, coerce_int, extract_capabilities, extract_input_modalities, extract_int, extract_str,
  extract_bool,
}
use free_lunch.Providers.Adapter.{
  Adapter, Network, ChatResult, gives, request, discover_models, chat_result, complete,
  chat_completions,
}
use free_lunch.Providers.Adapter.Discovered.{IsDiscovered, discover_models-IsDiscovered}
use free_lunch.Providers.Adapter.Forwarded.{IsForwarded, chat_completions-IsForwarded}

abbrev plain : RowReading
plain = record {
  str = λ v. elim v [ text s ↦ s | _ ↦ "" ];
  strip = λ s. s;
  lower = λ s. s;
  is_digit = λ s. str_eq s "8";
  int_of_text = λ s. some 8;
  at_least_zero = λ s. true;
  int_of_float = λ s. none;
}

abbrev nim : Adapter
nim = record {
  client = record { name = "nim"; max_response_bytes = 4; max_retries = pos 3 };
  service = record {
    name = "nim";
    api_base = "https://nim";
    provider_api_key_env = "KEY";
    default_context_window = 4096;
  };
  api_key = "k";
}

abbrev phi : Fields
phi = field "id" (text "phi") (
    field "context_length" (text "8")
      (field "capabilities" (object (field "tools" (flag true) no_fields)) no_fields))

-- A row that is no object, one without a name, and a model.
abbrev rows : Json
rows = list (item null (item (object no_fields) (item (object phi) no_items)))

abbrev payload : Fields
payload =
    field "data" rows
      (field "usage" (object (field "total_tokens" (whole (pos 7)) no_fields)) no_fields)

abbrev decoder : Decoder
decoder = record {
  loads = λ b. some (object payload);
  plain_text = λ b. "";
  str = λ v. "";
  show = λ n. "";
  lower = λ s. s;
}

abbrev up : Network
up s n = answers (record { status = 200; declared = none; chunks = (1 ∷ []) ∷ []; ending = closed })

abbrev phi_found : Found ℤ
phi_found = found_model plain nim.service 3 phi (some 8) none

finds_phi : discover_models plain decoder nim up ≡ gives (phi_found ∷ [])
unfolding discover_models request request_with_retries retry try_upstream read_payload read_rows
    read_row extract_int coerce_int extract_bool extract_str extract_capabilities
    extract_input_modalities
finds_phi = refl

discover_models-IsDiscovered_example :
    IsDiscovered plain decoder nim (omega arith) up (phi_found ∷ [])
discover_models-IsDiscovered_example =
    discover_models-IsDiscovered plain decoder nim (omega arith) up (phi_found ∷ []) finds_phi

abbrev reply : ChatResult
reply = record {
  payload = payload;
  latency_ms = 5;
  ttfb_ms = 5;
  prompt_tokens = none;
  completion_tokens = none;
  total_tokens = some 7;
}

replies :
    chat_completions plain decoder nim up 5 (field "model" (text "auto") no_fields) "phi"
    ≡ gives reply
unfolding chat_completions complete request request_with_retries retry try_upstream chat_result
    coerce_int
replies = refl

chat_completions-IsForwarded_example :
    IsForwarded plain decoder nim up (field "model" (text "auto") no_fields) "phi" reply
chat_completions-IsForwarded_example =
    chat_completions-IsForwarded plain decoder nim up 5 (field "model" (text "auto") no_fields)
      "phi" reply replies
