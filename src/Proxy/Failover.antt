-- ===== src/Proxy/Failover.antt =====
-- `chat_completions` of src/proxy.py from the candidates on: one attempt after the other until one
-- is answered. What the providers answer, and when, are the parameters `registry` and `started`; times are in
-- milliseconds since the request came. A mark or a row of the request log is an `Effect`, in the
-- order in which the code makes them; the token observations of a row and the runtime log are left
-- out.
pub mod Answers
pub mod Decisive
pub mod Marks
mod Tests
use free_lunch.Proxy.Attempts.{
  Event, Exception, provider_error, stop_iteration, other, Stream, ended, breaks, event, ChatResult,
  Answer, fails, answers, Opening, refuses, opens, Provider, Timing, Log, Effect, marks_success,
  marks_failure, logs, Reply, answered, relays, rejected, uncaught, Verdict, finish, retry,
  unavailable,
}
use free_lunch.Prelude.{
  ℕ, suc, ◌+◌, ◌-◌, ◌<◌, min, max, String, Bool, true, false, ◌&&◌, ◌||◌, Option, none, some, List,
  [], ◌∷◌, ◌++◌, ltb, leb, if◌then◌else◌, ◌⊎◌, inl, inr,
}
use free_lunch.Health.Marks.{clip}
use free_lunch.Providers.Errors.{
  Category, ProviderError, retryable_error, is_context_exceeded, provider_error_status,
}
use free_lunch.Routing.Candidates.{Candidate, RoutingRequirements}

module _ {F Msgs : Type 0} (req : RoutingRequirements Msgs) where
  -- The row that the failure and the success of an attempt have in common.
  abbrev attempt_log : ℕ → Candidate F → Log
  attempt_log i c = record {
    selected_model_id = c.id;
    provider_id = c.provider_id;
    client_requested_model = req.requested_model;
    attempt_index = i;
    was_fallback = ltb 0 i;
    success = false;
    error = none;
    prompt_tokens = none;
    completion_tokens = none;
    total_tokens = none;
    was_streaming = req.requires_streaming;
    had_tools = req.requires_tools;
    had_vision = req.requires_vision;
  }

  -- `_log_failure`
  abbrev pub failure_log : ℕ → Candidate F → ProviderError → Log
  failure_log i c e = record (attempt_log i c) {
    error = some (record e { message = clip 500 e.message });
  }

  abbrev pub success_log : {J : Type 0} → ℕ → Candidate F → ChatResult F J → Log
  success_log i c r = record (attempt_log i c) {
    success = true;
    prompt_tokens = r.prompt_tokens;
    completion_tokens = r.completion_tokens;
    total_tokens = r.total_tokens;
  }

module _ (timing : Timing) where
  -- Waits for the first event that is no comment: the event and what follows it.
  unfoldable pub await_first : ℕ → Stream → Exception ⊎ (Event × Stream)
  await_first now ended = inl stop_iteration
  await_first now (breaks e) = inl e
  await_first now (event e rest) =
      let next = await_first (now + e.wait) rest in
      if ltb (min timing.idle (max (timing.total - now) 1)) e.wait
      then inl (other "")
      else if ltb timing.max_event e.size
      then inl (provider_error (unavailable "provider SSE event exceeded size limit"))
      else if e.is_comment
      then next
      else inr (e, rest)

  -- Opens the stream, which must not take longer than what is left of the total.
  unfoldable pub open_stream : ℕ → Opening → Exception ⊎ (Event × Stream)
  unfolding await_first
  open_stream now (refuses wait e) =
      if leb timing.total now
      then inl (other "provider stream total deadline exceeded")
      else if ltb (timing.total - now) wait
      then inl (other "")
      else inl e
  open_stream now (opens wait s) =
      if leb timing.total now
      then inl (other "provider stream total deadline exceeded")
      else if ltb (timing.total - now) wait
      then inl (other "")
      else await_first (now + wait) s

-- The answer when no candidate is left; `last` is the last error, and `all_context` says that
-- no attempt failed for another reason than the context.
unfoldable pub exhausted : {J : Type 0} → Option ProviderError → Bool → Reply J
exhausted none all_context = rejected 502 "all candidates failed"
exhausted (some e) all_context =
    if is_context_exceeded e.category && all_context
    then rejected 400 e.message
    else rejected 502 e.message

module _ {F J Msgs : Type 0} (req : RoutingRequirements Msgs) where
  -- `except ProviderError`
  unfoldable pub on_provider_error : ℕ → Candidate F → ProviderError → Verdict F J
  unfolding provider_error_status
  on_provider_error i c e =
      if e.retryable
      then retry
          (if is_context_exceeded e.category
            then logs (failure_log req i c e) ∷ []
            else marks_failure c.id e.message ∷ logs (failure_log req i c e) ∷ [])
          e
      else finish (logs (failure_log req i c e) ∷ []) (rejected (provider_error_status e) e.message)

  -- The three `except` clauses.
  unfoldable pub on_exception : ℕ → Candidate F → Exception → Verdict F J
  unfolding on_provider_error
  on_exception i c (provider_error e) = on_provider_error i c e
  on_exception i c stop_iteration =
      let e = unavailable "provider stream ended before first event" in
      retry (marks_failure c.id e.message ∷ logs (failure_log req i c e) ∷ []) e
  on_exception i c (other text) =
      let e = unavailable (clip 500 text) in
      retry (marks_failure c.id text ∷ logs (failure_log req i c e) ∷ []) e

  module _ (timing : Timing) (registry : ℕ → Candidate F → Option (Provider F J))
      (started : ℕ → ℕ) where
    -- The body of the loop.
    unfoldable pub attempt : ℕ → Candidate F → Verdict F J
    unfolding open_stream on_exception
    attempt i c = elim (registry i c) [
      | none ↦ finish [] (uncaught c.provider_id)
      | some p ↦
          if req.requires_streaming
          then elim (open_stream timing (started i) p.stream) [
            | inl e ↦ on_exception i c e
            | inr (first, rest) ↦ finish [] (relays i first rest)
          ]
          else elim p.chat [
            | fails e ↦ on_exception i c e
            | answers r ↦
                finish
                  (marks_success c.id r.latency_ms r.ttfb_ms ∷ logs (success_log req i c r) ∷ [])
                  (answered r.payload)
          ]
    ]

    unfoldable pub run_attempts :
        ℕ → List (Candidate F) → Option ProviderError → Bool → List (Effect F) × Reply J
    unfolding attempt exhausted
    run_attempts i [] last all_context = ([], exhausted last all_context)
    run_attempts i (c ∷ cs) last all_context = elim (attempt i c) [
      | finish effects reply ↦ (effects, reply)
      | retry effects e ↦
          let later =
            run_attempts (suc i) cs (some e) (all_context && is_context_exceeded e.category) in
          (effects ++ later.0, later.1)
    ]

  -- The handler after its guards: no candidate answers 503.
  abbrev pub answer_request :
      Timing
      → (ℕ → Candidate F → Option (Provider F J))
      → (ℕ → ℕ)
      → Option (List (Candidate F))
      → List (Effect F) × Reply J
  answer_request timing registry started none = ([], rejected 503 "No routable healthy model found")
  answer_request timing registry started (some cs) =
      run_attempts timing registry started 0 cs none true
