-- ===== src/Providers/Adapter/Discovered.antt =====
-- What `discover_models` of src/providers/openai_compatible.py gives.
use free_lunch.Json.{Items, Json, object, Fields, to_list, value_of}
use free_lunch.Discovery.{Found}
use free_lunch.Providers.Requests.{
  Attempt, Decoder, returned, caught, let_through, Tried, request_with_retries,
}
use free_lunch.Providers.Catalog.{rows_in, read_payload}
use free_lunch.Providers.Values.{RowReading}
use free_lunch.Providers.Catalog.Rows.{
  AreListed, row_ids, model_ids, read_rows-AreListed, read_rows-row_ids,
}
use free_lunch.Providers.Adapter.{
  Adapter, Sent, Network, Outcome, gives, fields_of, resolve, request, outcome_of-gives,
  discover_models,
}
use free_lunch.Prelude.{
  ℕ, ◌<◌, ◌≡◌, ◌≢◌, refl, none, some, List, arith, str_eq, eq_iff, ltb, length, Bool-cases,
  Option-cases, inl, inr,
}

-- The request of a discovery.
abbrev pub list_models : Sent
list_models = record { verb = "GET"; path = "/models"; json_body = none }

-- The rows of a body: those under `data`, or none where there is no list.
abbrev pub rows_of : Fields → Items
rows_of d = rows_in (value_of "data" d)

module _ {A : Type 0} (r : RowReading) (decoder : Decoder) (a : Adapter) where
  -- A request that gives a value had a key and a response, and its body gave the value.
  pub record IsAnswered (attempts : Tried) (k : List ℕ → Outcome A) (x : A) : Type 0 where
    pub status : ℕ
    pub body : List ℕ
    pub keyed : a.api_key ≢ ""
    pub response : attempts ≡ returned status body
    pub read : k body ≡ gives x

  resolve-IsAnswered :
      (t : Tried) (k : List ℕ → Outcome A) (x : A)
      → a.api_key ≢ ""
      → resolve t k ≡ gives x
      → IsAnswered t k x
  resolve-IsAnswered (returned status body) k x h e = record {
    status = status;
    body = body;
    keyed = h;
    response = refl;
    read = e;
  }
  resolve-IsAnswered (caught f) k x h e = absurd (ground (arith, e))
  resolve-IsAnswered (let_through f) k x h e = absurd (ground (arith, e))

  pub request-IsAnswered :
      (network : ℕ → Attempt) (k : List ℕ → Outcome A) (x : A)
      → request r decoder a network k ≡ gives x
      → IsAnswered (request_with_retries decoder a.client network).1 k x
  unfolding request
  request-IsAnswered network k x e = elim (Bool-cases (str_eq a.api_key "")) [
    | inl none_given ↦ absurd (ground (arith, e, none_given))
    | inr given ↦
        resolve-IsAnswered (request_with_retries decoder a.client network).1 k x
          (ground (arith, given, eq_iff a.api_key "")) (ground (arith, e, given))
  ]

module _ {F : Type 0} (r : RowReading) (decoder : Decoder) (a : Adapter)
    (positive : 0 < a.service.default_context_window) where
  -- The models of an answer, in the order of the rows that its body holds.
  pub record IsDiscovered (network : Network) (found : List (Found F)) : Type 0 where
    pub status : ℕ
    pub body : List ℕ
    pub payload : Json
    pub keyed : a.api_key ≢ ""
    pub response :
        (request_with_retries decoder a.client (network list_models)).1 ≡ returned status body
    pub parsed : decoder.loads body ≡ some payload
    pub models : AreListed r a.service 1 (to_list (rows_of (fields_of payload))) found
    pub complete : model_ids found ≡ row_ids r (rows_of (fields_of payload))

  -- Where the default window is positive, the models that an adapter gives come from a response to a request
  -- with a key: each stands for a row of that response, has an id that is not blank behind the adapter's
  -- name, and a positive context window; its rank is the row's place; the ranks rise; and no row that
  -- names a model is left out.
  pub discover_models-IsDiscovered :
      (network : Network) (found : List (Found F))
      → discover_models r decoder a network ≡ gives found
      → IsDiscovered network found
  unfolding discover_models
  discover_models-IsDiscovered network found e =
      let h = request-IsAnswered r decoder a (network list_models) _ found e in
      elim (Bool-cases (ltb a.client.max_response_bytes (length h.body))) [
        | inl long ↦ absurd (ground (arith, h.read, long))
        | inr short ↦ elim (Option-cases (decoder.loads h.body)) [
          | inl bad ↦ absurd (ground (arith, h.read, short, bad))
          | inr (payload, parsed) ↦
              let rows : read_payload r a.service (object (fields_of payload)) ≡ some found =
                outcome_of-gives (read_payload r a.service (object (fields_of payload))) found
                  (ground (arith, h.read, short, parsed)) in
              record {
                status = h.status;
                body = h.body;
                payload = payload;
                keyed = h.keyed;
                response = h.response;
                parsed = parsed;
                models = listed (fields_of payload) rows;
                complete = named (fields_of payload) rows;
              }
        ]
      ]
    where
      listed :
          (d : Fields)
          → read_payload r a.service (object d) ≡ some found
          → AreListed r a.service 1 (to_list (rows_of d)) found
      listed d k =
          unfold read_payload in read_rows-AreListed r a.service positive 1 (rows_of d) found k

      named :
          (d : Fields)
          → read_payload r a.service (object d) ≡ some found
          → model_ids found ≡ row_ids r (rows_of d)
      named d k = unfold read_payload in read_rows-row_ids r a.service 1 (rows_of d) found k
