-- ===== src/Health/Marks/Tests.antt =====
-- The theorems on marks at concrete inputs, with scores in thousandths.
use free_lunch.Prelude.{ℕ, String, List, ◌≡◌, refl, false, none, some, [], ◌∷◌}
use free_lunch.Prelude.Int.{ℤ, pos}
use free_lunch.Floats.{thousandths}
use free_lunch.Settings.{defaults}
use free_lunch.Database.Models.{Model, Table, new_row, find_model}
use free_lunch.Health.Marks.Backoff.{fail_all, HasFailed, fail_all-HasFailed}
use free_lunch.Database.Writes.{Write, record_success, upsert_model}
use free_lunch.Routing.{serialize_candidate}
use free_lunch.Routing.Candidates.{Candidate, RoutingRequirements}

abbrev row : Model ℤ
row = new_row (pos 0) "p/a" "p" "a"

abbrev table : Table ℤ
table = row ∷ new_row (pos 0) "p/b" "p" "b" ∷ []

abbrev anything : RoutingRequirements ℕ
anything = record {
  requested_model = none;
  requires_tools = false;
  requires_vision = false;
  requires_streaming = false;
  requires_structured_output = false;
  requires_system_messages = false;
  min_context_window = 0;
  min_output_tokens = 0;
  token_estimation = none;
}

fail_all-HasFailed_example :
    (m' : Model ℤ) × (find_model "p/a" (fail_all defaults (10 ∷ 20 ∷ 30 ∷ []) "p/a" "timeout" table)
      ≡ some m')
    × HasFailed defaults 3 30 row m'
fail_all-HasFailed_example =
    fail_all-HasFailed defaults (10 ∷ 20 ∷ []) 30 "p/a" "timeout" row table refl

-- The statements that run meanwhile: the other model succeeds, and this one is listed again.
abbrev meanwhile : List (Write ℤ)
meanwhile = record_success "p/b" 20 none none none ∷ upsert_model row ∷ []

abbrev estimate : ℕ → String → String → ℕ
estimate n family hint = n

abbrev second : Candidate ℤ
second = serialize_candidate (new_row (pos 0) "p/b" "p" "b")
