-- ===== src/Proxy/Relay/Tests.antt =====
-- A stream of two events without the end marker, and the theorems at it.
use free_lunch.Prelude.{
  ℕ, String, ◌≡◌, refl, Bool, true, false, none, List, [], ◌∷◌, ◌++◌, take, any, All, ◌⊎◌, str_eq,
  some, if◌then◌else◌, inl, inr,
}
use free_lunch.Prelude.Int.{ℤ, pos}
use free_lunch.Json.{text, list, no_items, item}
use free_lunch.Proxy.Events.{parse_stream_event}
use free_lunch.Providers.Errors.{Category}
use free_lunch.Floats.{thousandths}
use free_lunch.Database.Models.{new_row}
use free_lunch.Routing.{serialize_candidate}
use free_lunch.Routing.Candidates.{Candidate, RoutingRequirements}
use free_lunch.Proxy.Attempts.{Event, Stream, ended, event, Timing}
use free_lunch.Proxy.Relay.{
  EventReading, Reading, read_event, read_payload, relay_loop, settle, relay_stream, done_marker,
}
use free_lunch.Proxy.Relay.Outcome.{tells_end, IsFine, relay_stream-sent, relay_success}

abbrev model : Candidate ℤ
model = serialize_candidate (new_row (pos 0) "p/one" "p" "one")

abbrev req : RoutingRequirements ℕ
req = record {
  requested_model = none;
  requires_tools = false;
  requires_vision = false;
  requires_streaming = true;
  requires_structured_output = false;
  requires_system_messages = false;
  min_context_window = 0;
  min_output_tokens = 0;
  token_estimation = none;
}

abbrev timing : Timing
timing = record { idle = 60_000; total = 600_000; max_event = 1_048_576 }

abbrev stays : ℕ → Bool
stays at = false

-- A list of one element is the only text that is JSON here.
abbrev reading : EventReading
reading = record {
  split_lines = λ s. s ∷ [];
  strip = λ s. if str_eq s "[DONE]\n\n" then "[DONE]" else s;
  loads = λ s. if str_eq s "[1]" then some (list (item (text "1") no_items)) else none;
  payload = record {
    str = λ v. "";
    categorize_error = λ status code message. (Category.provider_unavailable, true);
    is_digit = λ s. false;
    int_of_text = λ s. none;
  };
  no_get = λ v. "no get";
  no_int = λ v. "no int";
  column = λ v. none;
}

abbrev text_event : String → Event
text_event raw = record { wait = 10; size = 20; is_comment = false; raw = raw }

abbrev rest : Stream
rest = event (text_event "b") ended

-- A first event that is JSON but no object: nothing is sent, and no failure is recorded.
list_first :
    relay_stream timing stays req reading 0 model 100 (text_event "data: [1]") rest ≡ ([], [])
unfolding relay_stream read_event read_payload parse_stream_event
list_first = refl

relay_stream-sent_example :
    ((st : Reading) × (read_event reading "a" ≡ inr st)
      × ((k : ℕ) × (tail : List String) × ((relay_stream timing stays req reading 0 model 100
              (text_event "a")
              rest).0
            ≡ ("a" ∷ []) ++ take k ("b" ∷ []) ++ tail)
          × ((tail ≡ []) ⊎ (tail ≡ done_marker ∷ []))))
    ⊎ ((message : String) × (read_event reading "a" ≡ inl message)
        × (relay_stream timing stays req reading 0 model 100 (text_event "a") rest ≡ ([], [])))
relay_stream-sent_example =
    relay_stream-sent timing stays req reading 0 model 100 (text_event "a") rest

relay_success_example :
    (st : Reading) × (read_event reading "a" ≡ inr st)
    × (st.error ≡ none)
    × All
        (λ raw. IsFine (read_event reading raw))
        (relay_loop timing stays (read_event reading) 100 st rest).sent
    × (any
          (λ raw. tells_end (read_event reading raw))
          (relay_stream timing stays req reading 0 model 100 (text_event "a") rest).0
        ≡ true)
unfolding relay_stream relay_loop settle read_event parse_stream_event
relay_success_example =
    relay_success timing stays req reading 0 model 100 (text_event "a") rest refl refl refl
