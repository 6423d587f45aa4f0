-- ===== src/Providers/Adapter/Forwarded.antt =====
-- What `chat_completions` of src/providers/openai_compatible.py sends to the provider.
use mathlib.Core.Path.{subst}
use free_lunch.Json.{Json, text, Fields, get, set_field, get-set_field}
use free_lunch.Providers.Requests.{Decoder, returned, request_with_retries}
use free_lunch.Providers.Values.{RowReading}
use free_lunch.Providers.Adapter.{
  Adapter, Sent, Network, ChatResult, gives, fields_of, usage_tokens, outcome_of, chat_result,
  complete, chat_completions,
}
use free_lunch.Providers.Adapter.Discovered.{request-IsAnswered}
use free_lunch.Prelude.{
  ℕ, String, ◌≡◌, ◌≢◌, refl, some, List, arith, eq_iff, Option-cases, inl, inr,
}

abbrev pub completion_of : Fields → Sent
completion_of body = record { verb = "POST"; path = "/chat/completions"; json_body = some body }

module _ (r : RowReading) (decoder : Decoder) (a : Adapter) where
  -- A request of which only the model differs was answered by this payload.
  pub record IsForwarded (network : Network) (asked : Fields) (model : String) (c : ChatResult)
      : Type 0 where
    pub body : Fields
    pub names_model : get "model" body ≡ some (text model)
    pub keeps : (k : String) → k ≢ "model" → get k body ≡ get k asked
    pub status : ℕ
    pub raw : List ℕ
    pub parsed : Json
    pub keyed : a.api_key ≢ ""
    pub response :
        (request_with_retries decoder a.client (network (completion_of body))).1
        ≡ returned status raw
    pub loaded : decoder.loads raw ≡ some parsed
    pub payload : c.payload ≡ fields_of parsed
    pub prompt : usage_tokens r "prompt_tokens" c.payload ≡ some c.prompt_tokens
    pub completion : usage_tokens r "completion_tokens" c.payload ≡ some c.completion_tokens
    pub total : usage_tokens r "total_tokens" c.payload ≡ some c.total_tokens

  abbrev HasUsage : Fields → ChatResult → Type 0
  HasUsage d c =
      (c.payload ≡ d)
      × (usage_tokens r "prompt_tokens" c.payload ≡ some c.prompt_tokens)
      × (usage_tokens r "completion_tokens" c.payload ≡ some c.completion_tokens)
      × (usage_tokens r "total_tokens" c.payload ≡ some c.total_tokens)

  chat_result-HasUsage :
      (latency : ℕ) (d : Fields) (c : ChatResult)
      → outcome_of (chat_result r latency d) ≡ gives c
      → HasUsage d c
  unfolding chat_result
  chat_result-HasUsage latency d c e = elim (Option-cases (usage_tokens r "prompt_tokens" d)) [
    | inl p ↦ absurd (ground (arith, e, p))
    | inr (np, p) ↦ elim (Option-cases (usage_tokens r "completion_tokens" d)) [
      | inl q ↦ absurd (ground (arith, e, p, q))
      | inr (nq, q) ↦ elim (Option-cases (usage_tokens r "total_tokens" d)) [
        | inl s ↦ absurd (ground (arith, e, p, q, s))
        | inr (ns, s) ↦
            let u : ChatResult = record {
              payload = d;
              latency_ms = latency;
              ttfb_ms = latency;
              prompt_tokens = np;
              completion_tokens = nq;
              total_tokens = ns;
            } in
            let same : u ≡ c = ground (arith, e, p, q, s) in subst (HasUsage d) same (refl, p, q, s)
      ]
    ]
  ]

  -- A completion is what a response to a request with a key gives, which holds the client's fields with the
  -- chosen model for its model: the payload is the response's, if it is an object, and the tokens are
  -- those that its usage says.
  pub chat_completions-IsForwarded :
      (network : Network) (latency : ℕ) (asked : Fields) (model : String) (c : ChatResult)
      → chat_completions r decoder a network latency asked model ≡ gives c
      → IsForwarded network asked model c
  unfolding chat_completions complete
  chat_completions-IsForwarded network latency asked model c e =
      let body = set_field "model" (text model) asked in
      let h = request-IsAnswered r decoder a (network (completion_of body)) _ c e in
      elim (Option-cases (decoder.loads h.body)) [
        | inl bad ↦ absurd (ground (arith, h.read, bad))
        | inr (parsed, loaded) ↦
            let used =
              chat_result-HasUsage latency (fields_of parsed) c (ground (arith, h.read, loaded)) in
            record {
              body = body;
              names_model = ground (arith, get-set_field "model" "model" (text model) asked);
              keeps = λ k other.
                  ground
                    (arith, other, get-set_field "model" k (text model) asked, eq_iff "model" k);
              status = h.status;
              raw = h.body;
              parsed = parsed;
              keyed = h.keyed;
              response = h.response;
              loaded = loaded;
              payload = used.0;
              prompt = used.1;
              completion = used.2;
              total = used.3;
            }
      ]
