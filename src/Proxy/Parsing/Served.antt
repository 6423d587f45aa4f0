-- ===== src/Proxy/Parsing/Served.antt =====
-- From the payload of a chat request in src/proxy.py to the candidates of src/routing.py.
use mathlib.Core.Path.{subst}
use free_lunch.Floats.{Floats}
use free_lunch.Database.Models.{Model, Table}
use free_lunch.Json.{Fields, get, is_true}
use free_lunch.Prelude.Int.{ℤ}
use free_lunch.Prelude.Members.{In}
use free_lunch.Routing.{effective_requirements, serialize_candidate, pick_candidates}
use free_lunch.Routing.Candidates.{
  RoutingPreferences, RoutingRequirements, Candidate, raise_to, min_context,
}
use free_lunch.Routing.Eligible.{Serves, pick_candidates-Serves}
use free_lunch.Tokens.Estimate.{Counting, request_contains_vision, estimate_required_tokens}
use free_lunch.Tokens.Estimate.Vision.{images, vision-estimate}
use free_lunch.Proxy.Parsing.{
  Numbers, accepted, >>=-eq-accepted, or_raises, int_or_zero, Estimation, read_messages, read_model,
  requirements_of, output_value, parse_requirements,
}
use free_lunch.Prelude.{
  ℕ, ◌+◌, ◌*◌, ◌≤◌, String, ◌≡◌, refl, ap, ◌∙◌, true, Option, none, some, List, arith, All, All-map,
  length, or_else,
}

or_raises-accepted : {A : Type 0} (o : Option A) (x : A) → or_raises o ≡ accepted x → o ≡ some x
or_raises-accepted none x h = absurd (ground (arith, h))
or_raises-accepted (some y) x h = ground (arith, h)

-- The estimate for a model, whose tokenizer decides how a text is counted.
abbrev pub estimate_for : (String → String → Counting) → Estimation → String → String → ℕ
estimate_for counting e family model =
    estimate_required_tokens (counting family model) e.messages e.tools e.response_format

module _ (n : Numbers) (t : Counting) where
  -- The parts of a payload, as they are read.
  pub record IsRead (d : Fields) (req : RoutingRequirements Estimation) : Type 0 where
    pub model : Option String
    pub messages : Option (List Fields)
    pub window : ℕ
    pub output : ℕ
    pub read_messages_lem : read_messages (get "messages" d) ≡ some messages
    pub read_model_lem : read_model (get "model" d) ≡ some model
    pub read_window : int_or_zero n (get "min_context_window" d) ≡ some window
    pub read_output : int_or_zero n (output_value d) ≡ some output
    pub whole : req ≡ requirements_of n t d model messages window output

  pub parse_requirements-IsRead :
      (d : Fields) (req : RoutingRequirements Estimation)
      → parse_requirements n t d ≡ accepted req
      → IsRead d req
  unfolding parse_requirements
  parse_requirements-IsRead d req h =
      let (messages, m, h1) =
        >>=-eq-accepted (or_raises (read_messages (get "messages" d))) _ req h in
      let (model, k, h2) = >>=-eq-accepted (or_raises (read_model (get "model" d))) _ req h1 in
      let (window, w, h3) =
        >>=-eq-accepted (or_raises (int_or_zero n (get "min_context_window" d))) _ req h2 in
      let (output, o, h4) = >>=-eq-accepted (or_raises (int_or_zero n (output_value d))) _ req h3 in
      record {
        model = model;
        messages = messages;
        window = window;
        output = output;
        read_messages_lem = or_raises-accepted _ messages m;
        read_model_lem = or_raises-accepted _ model k;
        read_window = or_raises-accepted _ window w;
        read_output = or_raises-accepted _ output o;
        whole = ground (arith, h4);
      }

raise_to-le : (window : ℕ) (least : Option ℕ) → window ≤ raise_to window least
raise_to-le window none = omega arith
raise_to-le window (some k) = omega arith

effective-le :
    (window : ℕ) (prefs : Option RoutingPreferences) → window ≤ raise_to window (min_context prefs)
effective-le window none = omega arith
effective-le window (some p) = raise_to-le window p.min_context_tokens

module _ {F : Type 0} ⦃fl : Floats F⦄ (n : Numbers) (t : Counting)
    (counting : String → String → Counting) where
  -- What a payload asks of the model behind a candidate.
  pub record ServesPayload (now : ℕ) (table : Table F) (d : Fields) (messages : List Fields)
      (c : Candidate F) : Type 0 where
    pub row : Model F
    pub stored : In row table
    pub copied : c ≡ serialize_candidate row
    pub active : row.is_active ≡ true
    pub healthy : row.is_healthy ≡ true
    pub tools : is_true (get "tools" d) ≡ true → row.supports_tools ≡ true
    pub vision : request_contains_vision t messages ≡ true → row.supports_vision ≡ true
    pub streaming : is_true (get "stream" d) ≡ true → row.supports_streaming ≡ true
    pub structured :
        is_true (get "response_format" d) ≡ true → row.supports_structured_output ≡ true
    pub window :
        (w : ℕ) → int_or_zero n (get "min_context_window" d) ≡ some w → w ≤ c.context_window
    pub output :
        (k w : ℕ) → int_or_zero n (output_value d) ≡ some k → row.max_output_tokens ≡ some w → k ≤ w
    pub holds :
        16
          + 6 * length messages
          + images (counting (or_else c.tokenizer_family "") c.provider_model_id) messages * 256
        ≤ c.context_window

  read-Serves :
      (now : ℕ) (table : Table F) (d : Fields) (messages : List Fields) (model : Option String)
      (window output : ℕ) (prefs : Option RoutingPreferences)
      → ((f m : String) (k : ℕ) → k ≤ (counting f m).buffered k)
      → int_or_zero n (get "min_context_window" d) ≡ some window
      → int_or_zero n (output_value d) ≡ some output
      → (c : Candidate F)
      → Serves
          (estimate_for counting)
          now
          table
          (effective_requirements (requirements_of n t d model (some messages) window output) prefs)
          c
      → ServesPayload now table d messages c
  read-Serves now table d messages model window output prefs grows w o c s = record {
    row = s.row;
    stored = s.stored;
    copied = s.copied;
    active = s.able.active;
    healthy = s.able.healthy;
    tools = s.able.tools;
    vision = s.able.vision;
    streaming = s.able.streaming;
    structured = s.able.structured;
    window = λ k e.
        let (known_window, known, wide) = s.able.window in
        let same : c.context_window ≡ known_window =
          ap (λ (x : Candidate F). x.context_window) s.copied ∙ ap (λ o. or_else o 0) known in
        let asked : k ≡ window = ground (arith, e, w) in
        omega (arith, effective-le window prefs, same, asked, wide);
    output = λ k j e g. ground (arith, e, o, s.able.output j g);
    holds =
        let counted = counting (or_else c.tokenizer_family "") c.provider_model_id in
        let tokens =
          vision-estimate counted messages (get "tools" d) (get "response_format" d)
            (grows (or_else c.tokenizer_family "") c.provider_model_id) in
        let fits =
          s.fits
            (record {
              messages = messages;
              tools = get "tools" d;
              response_format = get "response_format" d;
            })
            refl in
        omega (arith, tokens.1, fits);
  }

  -- A chat request with messages is sent only to stored models that are active and healthy, support the
  -- tools, the images, the stream and the structured output that its payload has, whose window
  -- is at least the payload's number, whose limit of the output, if there is one, is at least the payload's
  -- number, and whose window holds 16 tokens, 6 for each message and 256 for each image, where the safety
  -- buffer lowers no number.
  pub request-ServesPayload :
      (now : ℕ) (table : Table F) (d : Fields) (messages : List Fields)
      (req : RoutingRequirements Estimation) (prefs : Option RoutingPreferences)
      (fallback : Option String) (limit : ℤ) (cs : List (Candidate F))
      → ((f m : String) (k : ℕ) → k ≤ (counting f m).buffered k)
      → read_messages (get "messages" d) ≡ some (some messages)
      → parse_requirements n t d ≡ accepted req
      → pick_candidates (estimate_for counting) now table req prefs fallback limit ≡ some cs
      → All (ServesPayload now table d messages) cs
  request-ServesPayload now table d messages req prefs fallback limit cs grows given parsed picked =
      let r = parse_requirements-IsRead n t d req parsed in
      let same : r.messages ≡ some messages = ground (arith, r.read_messages_lem, given) in
      let whole : req ≡ requirements_of n t d r.model (some messages) r.window r.output =
        r.whole ∙ ap (λ m. requirements_of n t d r.model m r.window r.output) same in
      All-map _ _ cs
        (λ c s.
          read-Serves now table d messages r.model r.window r.output prefs grows r.read_window
            r.read_output c
            (subst
              (λ q. Serves (estimate_for counting) now table (effective_requirements q prefs) c)
              whole s))
        (pick_candidates-Serves (estimate_for counting) now table req prefs fallback limit picked)
