-- ===== src/Proxy/Relay.antt =====
-- `_relay_stream` of src/proxy.py: passes the events of an open stream on to the client, and records
-- at the end how the attempt went. `gone` says when the client has left, and times are in milliseconds
-- since the request came. A client that leaves while an event is being sent, so that the generator is closed
-- from outside, is not modelled.
pub mod Outcome
mod Tests
use free_lunch.Prelude.{
  ℕ, ◌+◌, ◌-◌, min, String, Bool, true, false, not, ◌&&◌, ◌||◌, Option, none, some, List, [], ◌∷◌,
  ◌++◌, ltb, leb, if◌then◌else◌, ◌⊎◌, inl, inr,
}
use free_lunch.Json.{Json, object, Fields, truth, value_of}
use free_lunch.Providers.Errors.Payload.{
  PayloadReading, no_error, an_error, raises, error_from_payload,
}
use free_lunch.Proxy.Events.{parse_stream_event}
use free_lunch.Floats.{Floats, float}
use free_lunch.Providers.Errors.{Category, ProviderError, retryable_error}
use free_lunch.Health.Marks.{clip}
use free_lunch.Routing.Candidates.{Candidate, RoutingRequirements}
use free_lunch.Proxy.Failover.{failure_log, success_log}
use free_lunch.Proxy.Attempts.{
  Event, Exception, provider_error, stop_iteration, other, Stream, ended, breaks, event, Timing,
  Effect, marks_success, marks_failure, logs, ChatResult, unavailable,
}

pub record Usage : Type 0 where
  pub prompt_tokens : Option ℕ
  pub completion_tokens : Option ℕ
  pub total_tokens : Option ℕ

-- What the relay learns from one event.
pub record Reading : Type 0 where
  pub done : Bool
  pub usage : Option Usage
  pub error : Option ProviderError

-- `done_seen`, the last usage and `stream_error`
abbrev pub RelayState : Type 0
RelayState = Reading

-- `x or y` on a value that is replaced when a newer one comes.
abbrev pub newer {ℓ} : {A : Type ℓ} → Option A → Option A → Option A
newer none old = old
newer (some a) old = some a

-- `str` and its like on the values and texts here: `loads` is `json.loads`, whose error is `none`, `no_get` is
-- the message where a value has no `get`, `no_int` the one where a status is no number, and `column` is the
-- number of tokens as the log keeps it.
pub record EventReading : Type 0 where
  pub split_lines : String → List String
  pub strip : String → String
  pub loads : String → Option Json
  pub payload : PayloadReading
  pub no_get : Json → String
  pub no_int : Json → String
  pub column : Json → Option ℕ

-- `payload.get("usage")`, where it is a dictionary
abbrev pub usage_of : EventReading → Fields → Option Usage
usage_of x d = elim (value_of "usage" d) [
  | object u ↦ some (record {
    prompt_tokens = x.column (value_of "prompt_tokens" u);
    completion_tokens = x.column (value_of "completion_tokens" u);
    total_tokens = x.column (value_of "total_tokens" u);
  })
  | _ ↦ none
]

-- The reading of a payload that is true; the message of an exception is on the left.
unfoldable pub read_payload : EventReading → Json → String ⊎ Reading
unfolding error_from_payload
read_payload x v = elim v [
  | object d ↦ elim (error_from_payload x.payload "provider stream error" (object d)) [
    | no_error ↦ inr (record { done = false; usage = usage_of x d; error = none })
    | an_error e ↦ inr (record { done = false; usage = usage_of x d; error = some e })
    | raises ↦ inl (x.no_int (object d))
  ]
  | w ↦ inl (x.no_get w)
]

-- What the relay reads from an event. An exception ends the relay, so that the usage which was read before
-- it makes no difference.
unfoldable pub read_event : EventReading → String → String ⊎ Reading
unfolding parse_stream_event read_payload
read_event x raw =
    let parsed = parse_stream_event x.split_lines x.strip x.loads raw in
    let plain : Reading = record { done = parsed.1; usage = none; error = none } in
    elim parsed.0 [ none ↦ inr plain | some v ↦ if truth v then read_payload x v else inr plain ]

abbrev pub absorb : RelayState → Reading → RelayState
absorb st r = record {
  done = st.done || r.done;
  usage = newer r.usage st.usage;
  error = newer r.error st.error;
}

-- The state with an exception caught; the generator's end is none.
unfoldable pub catch : RelayState → Exception → RelayState
catch st (provider_error e) = record st { error = some e }
catch st stop_iteration = st
catch st (other text) = record st { error = some (unavailable (clip 500 text)) }

abbrev pub deadline_error : ProviderError
deadline_error = unavailable "provider stream deadline exceeded"

-- What the loop sends, the state that it leaves, and the time.
pub record Relayed : Type 0 where
  pub sent : List String
  pub state : RelayState
  pub at : ℕ

module _ (timing : Timing) (gone : ℕ → Bool) (reads : String → String ⊎ Reading) where
  unfoldable pub relay_loop : ℕ → RelayState → Stream → Relayed
  unfolding catch
  relay_loop now st ended =
      if leb timing.total now
      then record { sent = []; state = record st { error = some deadline_error }; at = now }
      else record { sent = []; state = st; at = now }
  relay_loop now st (breaks e) =
      if leb timing.total now
      then record { sent = []; state = record st { error = some deadline_error }; at = now }
      else record { sent = []; state = catch st e; at = now }
  relay_loop now st (event e rest) =
      let next : Reading → Relayed = λ r. relay_loop (now + e.wait) (absorb st r) rest in
      let limit = min (timing.total - now) timing.idle in
      if leb timing.total now
      then record { sent = []; state = record st { error = some deadline_error }; at = now }
      else if ltb limit e.wait
      then record { sent = []; state = record st { error = some deadline_error }; at = now + limit }
      else if ltb timing.max_event e.size
      then record {
        sent = [];
        state = record st { error = some (unavailable "provider SSE event exceeded size limit") };
        at = now + e.wait;
      }
      else if gone (now + e.wait)
      then record { sent = []; state = st; at = now + e.wait }
      else elim (reads e.raw) [
        | inl message ↦ record { sent = []; state = catch st (other message); at = now + e.wait }
        | inr r ↦ record { sent = e.raw ∷ (next r).sent; state = (next r).state; at = (next r).at }
      ]

abbrev pub done_marker : String
done_marker = "data: [DONE]\n\n"

module _ {F Msgs : Type 0} ⦃fl : Floats F⦄ (timing : Timing) (gone : ℕ → Bool)
    (req : RoutingRequirements Msgs) where
  -- The row of a stream that ended well carries the last usage.
  abbrev stream_result : RelayState → ChatResult F Unit
  stream_result st = record {
    payload = tt;
    latency_ms = none;
    ttfb_ms = none;
    prompt_tokens = elim st.usage [ none ↦ none | some u ↦ u.prompt_tokens ];
    completion_tokens = elim st.usage [ none ↦ none | some u ↦ u.completion_tokens ];
    total_tokens = elim st.usage [ none ↦ none | some u ↦ u.total_tokens ];
  }

  -- The `finally` clause: what is sent after the loop, and what is recorded.
  unfoldable pub settle : ℕ → Candidate F → ℕ → Relayed → List String × List (Effect F)
  settle i c ttfb r = elim r.state.error [
    | none ↦ if gone r.at then ([], []) else (
      if r.state.done then [] else done_marker ∷ [],
      marks_success c.id (some (float r.at)) (some (float ttfb))
          ∷ logs (record (success_log req i c (stream_result r.state)) { was_streaming = true })
          ∷ [],
    )
    | some e ↦ (
      [],
      (if e.retryable then marks_failure c.id e.message ∷ [] else [])
          ++ logs (record (failure_log req i c e) { was_streaming = true }) ∷ [],
    )
  ]

  -- Everything that is sent, and what is recorded. The first event is read before the `try`, so that an
  -- exception there leaves the generator with nothing sent and nothing recorded.
  unfoldable pub relay_stream :
      EventReading → ℕ → Candidate F → ℕ → Event → Stream → List String × List (Effect F)
  unfolding read_event relay_loop settle
  relay_stream x i c now first rest = elim (read_event x first.raw) [
    | inl message ↦ ([], [])
    | inr st ↦
        let r = relay_loop timing gone (read_event x) now st rest in
        let last = settle i c now r in
        ((if gone now then [] else first.raw ∷ []) ++ r.sent ++ last.0, last.1)
  ]
