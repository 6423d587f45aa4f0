-- ===== src/Proxy/Failover/Tests.antt =====
-- Requests with two candidates, and the theorems at them: the first model is overloaded, or too
-- small for the request; the second answers.
use free_lunch.Prelude.{
  ℕ, String, ◌≡◌, refl, true, false, Option, none, some, [], ◌∷◌, inl, str_eq, if◌then◌else◌,
}
use free_lunch.Prelude.Int.{ℤ, pos}
use free_lunch.Prelude.Sort.{sort_desc}
use free_lunch.Floats.{thousandths, tuple_lt}
use free_lunch.Database.Models.{Table, new_row}
use free_lunch.Providers.Errors.{Category, ProviderError, retryable_error}
use free_lunch.Routing.{
  serialize_candidate, effective_requirements, is_eligible, pick_candidates, preference_score,
}
use free_lunch.Routing.Candidates.{Candidate, RoutingRequirements}
use free_lunch.Routing.Eligible.{Serves}
use free_lunch.Proxy.Failover.{attempt, run_attempts, failure_log}
use free_lunch.Proxy.Attempts.{
  provider_error, fails, answers, ended, opens, Provider, Timing, ChatResult, answered, rejected,
  logs,
}
use free_lunch.Proxy.Failover.Answers.{AllRetry, all_failed_answer}
use free_lunch.Proxy.Failover.Decisive.{chat_fails, chat_answers, first_decisive_attempt_answers}
use free_lunch.Proxy.Failover.Marks.{marked_models_serve}

abbrev table : Table ℤ
table =
    record (new_row (pos 0) "p/one" "p" "one") { composite_score = pos 2 }
    ∷ record (new_row (pos 0) "q/two" "q" "two") { composite_score = pos 1 }
    ∷ []

abbrev one : Candidate ℤ
one = serialize_candidate (record (new_row (pos 0) "p/one" "p" "one") { composite_score = pos 2 })

abbrev two : Candidate ℤ
two = serialize_candidate (record (new_row (pos 0) "q/two" "q" "two") { composite_score = pos 1 })

abbrev req : RoutingRequirements ℕ
req = record {
  requested_model = none;
  requires_tools = false;
  requires_vision = false;
  requires_streaming = false;
  requires_structured_output = false;
  requires_system_messages = false;
  min_context_window = 0;
  min_output_tokens = 0;
  token_estimation = none;
}

abbrev timing : Timing
timing = record { idle = 60_000; total = 600_000; max_event = 1_048_576 }

abbrev started : ℕ → ℕ
started i = i

abbrev busy : ProviderError
busy = retryable_error "slow down" Category.rate_limited (some 429) none

abbrev too_small : ProviderError
too_small = retryable_error "too many tokens" Category.context_exceeded (some 400) none

abbrev reply : ChatResult ℤ String
reply = record {
  payload = "hello";
  latency_ms = some (pos 5);
  ttfb_ms = none;
  prompt_tokens = some 3;
  completion_tokens = some 1;
  total_tokens = some 4;
}

-- The first provider fails with the error, the second one answers.
abbrev first_fails : ProviderError → ℕ → Candidate ℤ → Option (Provider ℤ String)
first_fails e i c = some (record {
  chat = if str_eq c.provider_id "p" then fails (provider_error e) else answers reply;
  stream = opens 0 ended;
})

abbrev both_fail : ℕ → Candidate ℤ → Option (Provider ℤ String)
both_fail i c = some (record { chat = fails (provider_error too_small); stream = opens 0 ended })

first_decisive_attempt_answers_example :
    ((run_attempts req timing (first_fails busy) started 0 (one ∷ two ∷ one ∷ []) none true).1
      ≡ answered "hello")
    × (run_attempts req timing (first_fails busy) started 0 (one ∷ two ∷ one ∷ []) none true
        ≡ run_attempts req timing (first_fails busy) started 0 (one ∷ two ∷ []) none true)
first_decisive_attempt_answers_example =
    first_decisive_attempt_answers req timing (first_fails busy) started (one ∷ []) (one ∷ []) two
      (answered "hello") ((provider_error busy, chat_fails _ refl refl refl, refl), tt)
      (chat_answers _ reply refl refl refl)

all_failed_answer_example :
    (run_attempts req timing both_fail started 0 (one ∷ two ∷ []) none true).1
    ≡ rejected 400 "too many tokens"
unfolding attempt AllRetry
all_failed_answer_example =
    all_failed_answer req timing both_fail started one (two ∷ []) too_small (too_small ∷ []) (
      (logs (failure_log req 0 one too_small) ∷ [], refl),
      ((logs (failure_log req 1 two too_small) ∷ [], refl), tt),
    )

abbrev plain : ℕ → String → String → ℕ
plain n family hint = n

marked_models_serve_example :
    (c : Candidate ℤ) × Serves plain 100 table (effective_requirements req none) c
    × (c.id ≡ "p/one")
unfolding run_attempts pick_candidates is_eligible sort_desc tuple_lt preference_score
marked_models_serve_example =
    marked_models_serve plain timing (first_fails busy) started 100 table req none none (pos 3)
      (one ∷ two ∷ []) "p/one" "slow down" none none refl (inl (inl refl))
