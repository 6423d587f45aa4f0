-- ===== src/Proxy/Failover/Decisive.antt =====
-- Which candidate of src/proxy.py decides the answer, from what the providers do.
use mathlib.Core.Path.{subst}
use free_lunch.Providers.Errors.{ProviderError, is_context_exceeded, provider_error_status}
use free_lunch.Routing.Candidates.{Candidate, RoutingRequirements}
use free_lunch.Proxy.Attempts.{
  Event, Exception, provider_error, stop_iteration, other, Stream, ChatResult, fails, answers,
  Provider, Timing, Effect, marks_success, logs, Reply, answered, relays, rejected, uncaught,
  finish, retry,
}
use free_lunch.Proxy.Failover.{
  failure_log, success_log, open_stream, on_provider_error, on_exception, attempt, run_attempts,
}
use free_lunch.Proxy.Failover.Answers.{Verdict-cases, run_attempts-finish, run_attempts-retry}
use free_lunch.Prelude.{
  ℕ, suc, ◌+◌, ◌≡◌, ◌∙◌, sym, ap, Bool, true, false, ◌&&◌, Option, none, some, List, [], ◌∷◌, ◌++◌,
  arith, length, inl, inr,
}

-- An exception after which another candidate may be tried: all but the errors that are final.
abbrev pub may_pass : Exception → Bool
may_pass (provider_error e) = e.retryable
may_pass stop_iteration = true
may_pass (other text) = true

module _ {F J Msgs : Type 0} (req : RoutingRequirements Msgs) (timing : Timing)
    (registry : ℕ → Candidate F → Option (Provider F J)) (started : ℕ → ℕ) where
  -- The provider of attempt `i` fails with the exception, by its answer or before its first event.
  pub data Fails (i : ℕ) (c : Candidate F) (e : Exception) : Type 0 where
    chat_fails :
        (p : Provider F J)
        → registry i c ≡ some p
        → req.requires_streaming ≡ false
        → p.chat ≡ fails e
        → Fails i c e
    stream_fails :
        (p : Provider F J)
        → registry i c ≡ some p
        → req.requires_streaming ≡ true
        → open_stream timing (started i) p.stream ≡ inl e
        → Fails i c e

  -- What attempt `i` ends the request with.
  pub data Decides (i : ℕ) (c : Candidate F) : Reply J → Type 0 where
    chat_answers :
        (p : Provider F J) (r : ChatResult F J)
        → registry i c ≡ some p
        → req.requires_streaming ≡ false
        → p.chat ≡ answers r
        → Decides i c (answered r.payload)
    stream_opens :
        (p : Provider F J) (first : Event) (rest : Stream)
        → registry i c ≡ some p
        → req.requires_streaming ≡ true
        → open_stream timing (started i) p.stream ≡ inr (first, rest)
        → Decides i c (relays i first rest)
    is_final :
        (e : ProviderError)
        → Fails i c (provider_error e)
        → e.retryable ≡ false
        → Decides i c (rejected (provider_error_status e) e.message)
    is_unknown : registry i c ≡ none → Decides i c (uncaught c.provider_id)

  -- The attempts from number `i` on fail in a way that lets another candidate be tried.
  abbrev pub AllPass : ℕ → List (Candidate F) → Type 0
  AllPass i [] = Unit
  AllPass i (c ∷ cs) = ((e : Exception) × Fails i c e × (may_pass e ≡ true)) × AllPass (suc i) cs

  attempt-Fails :
      (i : ℕ) (c : Candidate F) (e : Exception)
      → Fails i c e
      → attempt req timing registry started i c ≡ on_exception req i c e
  unfolding attempt
  attempt-Fails i c e (chat_fails p known plain f) = simp (attempt, known, plain, f)
  attempt-Fails i c e (stream_fails p known streams f) = simp (attempt, known, streams, f)

  on_exception-passes :
      (i : ℕ) (c : Candidate F) (e : Exception)
      → may_pass e ≡ true
      → (effects : List (Effect F)) × (x : ProviderError) × (on_exception {J = J} req i c e
          ≡ retry effects x)
  unfolding on_exception on_provider_error
  on_exception-passes i c e h = elim (Verdict-cases (on_exception {J = J} req i c e)) [
    | inl (effects, reply, v) ↦ absurd (passes-retry e effects reply h v)
    | inr r ↦ r
  ]
    where
      passes-retry :
          (e : Exception) (effects : List (Effect F)) (reply : Reply J)
          → may_pass e ≡ true
          → on_exception {J = J} req i c e ≡ finish effects reply
          → ⊥
      passes-retry (provider_error x) effects reply h v = ground (arith, h, v)
      passes-retry stop_iteration effects reply h v = ground (arith, v)
      passes-retry (other text) effects reply h v = ground (arith, v)

  attempt-passes :
      (i : ℕ) (c : Candidate F) (e : Exception)
      → Fails i c e
      → may_pass e ≡ true
      → (effects : List (Effect F)) × (x : ProviderError) × (attempt req timing registry started i c
          ≡ retry effects x)
  attempt-passes i c e f h =
      let (effects, x, v) = on_exception-passes i c e h in (effects, x, attempt-Fails i c e f ∙ v)

  on_exception-final :
      (i : ℕ) (c : Candidate F) (e : ProviderError)
      → e.retryable ≡ false
      → (effects : List (Effect F)) × (on_exception {J = J} req i c (provider_error e)
          ≡ finish effects (rejected (provider_error_status e) e.message))
  unfolding on_exception on_provider_error
  on_exception-final i c e h = (logs (failure_log req i c e) ∷ [], ground (arith, h))

  attempt-Decides :
      (i : ℕ) (c : Candidate F) (reply : Reply J)
      → Decides i c reply
      → (effects : List (Effect F)) × (attempt req timing registry started i c
          ≡ finish effects reply)
  unfolding attempt
  attempt-Decides i c _ (chat_answers p r known plain a) = (
    marks_success c.id r.latency_ms r.ttfb_ms ∷ logs (success_log req i c r) ∷ [],
    simp (attempt, known, plain, a),
  )
  attempt-Decides i c _ (stream_opens p first rest known streams a) =
      ([], simp (attempt, known, streams, a))
  attempt-Decides i c _ (is_final e f h) =
      let (effects, v) = on_exception-final i c e h in
      (effects, attempt-Fails i c (provider_error e) f ∙ v)
  attempt-Decides i c _ (is_unknown unknown) = ([], simp (attempt, unknown))

  -- The run up to a candidate that decides: what it answers, and that the candidates after it make no
  -- difference, from any attempt number and with any errors before.
  decided_from :
      (i : ℕ) (before after : List (Candidate F)) (c : Candidate F) (reply : Reply J)
      (last : Option ProviderError) (ctx : Bool)
      → AllPass i before
      → Decides (length before + i) c reply
      → ((run_attempts req timing registry started i (before ++ c ∷ after) last ctx).1 ≡ reply)
        × (run_attempts req timing registry started i (before ++ c ∷ after) last ctx
            ≡ run_attempts req timing registry started i (before ++ c ∷ []) last ctx)
  unfolding run_attempts
  decided_from i [] after c reply last ctx h d =
      let z : 0 + i ≡ i = omega arith in
      let (effects, v) = attempt-Decides i c reply (subst (λ k. Decides k c reply) z d) in
      let here = λ (rest : List (Candidate F)).
        run_attempts-finish req timing registry started i c rest effects reply last ctx v in
      (ap (λ (p : List (Effect F) × Reply J). p.1) (here after), here after ∙ sym (here []))
  decided_from i (b ∷ before) after c reply last ctx h d =
      let n : suc (length before) + i ≡ length before + suc i = omega arith in
      let (e, f, passes) = h.0 in
      let (effects, x, v) = attempt-passes i b e f passes in
      let step = λ (rest : List (Candidate F)).
        run_attempts-retry req timing registry started i b rest effects x last ctx v in
      let later =
        decided_from (suc i) before after c reply (some x) (ctx && is_context_exceeded x.category)
          h.1 (subst (λ k. Decides k c reply) n d) in
      (
        ap (λ (p : List (Effect F) × Reply J). p.1) (step (before ++ c ∷ after)) ∙ later.0,
        step (before ++ c ∷ after)
            ∙ ap (λ (p : List (Effect F) × Reply J). (effects ++ p.0, p.1)) later.1
            ∙ sym (step (before ++ c ∷ [])),
      )

  -- The first candidate whose provider answers, opens its stream, fails with an error that is final or is
  -- unknown decides the reply: the payload, the stream, the status and message of the error, or the
  -- exception. The candidates before it fail with an error that may be retried, with a stream that ends
  -- before its first event or with another exception, and those after it change neither the reply nor what
  -- is marked and logged.
  pub first_decisive_attempt_answers :
      (before after : List (Candidate F)) (c : Candidate F) (reply : Reply J)
      → AllPass 0 before
      → Decides (length before) c reply
      → ((run_attempts req timing registry started 0 (before ++ c ∷ after) none true).1 ≡ reply)
        × (run_attempts req timing registry started 0 (before ++ c ∷ after) none true
            ≡ run_attempts req timing registry started 0 (before ++ c ∷ []) none true)
  first_decisive_attempt_answers before after c reply h d =
      let z : length before ≡ length before + 0 = omega arith in
      decided_from 0 before after c reply none true h (subst (λ k. Decides k c reply) z d)
