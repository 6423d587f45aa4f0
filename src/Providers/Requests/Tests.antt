-- ===== src/Providers/Requests/Tests.antt =====
-- Requests of src/providers/openai_compatible.py against a server that fails first.
use free_lunch.Prelude.Int.{pos}
use free_lunch.Providers.EventStream.{closed}
use free_lunch.Providers.Errors.{categorize_openai_compatible_error}
use free_lunch.Providers.Requests.{
  Decoder, Client, Attempt, answers, no_answer_in_time, returned, extract_error_details,
  raise_for_response, try_upstream, retry, request_with_retries,
}
use free_lunch.Prelude.{ℕ, zero, suc, ◌≡◌, refl, none, List, [], ◌∷◌}

-- Bodies that are no JSON.
abbrev no_json : Decoder
no_json = record {
  loads = λ b. none;
  plain_text = λ b. "down";
  str = λ v. "";
  show = λ n. "";
  lower = λ s. s;
}

abbrev three_tries : Client
three_tries = record { name = "nim"; max_response_bytes = 4; max_retries = pos 3 }

abbrev answer_with : ℕ → List (List ℕ) → Attempt
answer_with status chunks =
    answers (record { status = status; declared = none; chunks = chunks; ending = closed })

-- No answer, then an error, then a response.
abbrev better_later : ℕ → Attempt
better_later zero = no_answer_in_time
better_later (suc zero) = answer_with 503 ((1 ∷ []) ∷ [])
better_later (suc (suc n)) = answer_with 200 ((1 ∷ []) ∷ (2 ∷ 3 ∷ []) ∷ [])

third_time :
    request_with_retries no_json three_tries better_later ≡ (3, returned 200 (1 ∷ 2 ∷ 3 ∷ []))
unfolding request_with_retries retry try_upstream raise_for_response extract_error_details
    categorize_openai_compatible_error
third_time = refl
