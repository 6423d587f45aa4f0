-- ===== src/Routing/Tests.antt =====
-- Runs of src/routing.py, and its theorems at concrete inputs, with scores in thousandths.
use mathlib.Core.Bool.{false≢true}
use mathlib.Core.List.{Perm}
use free_lunch.Prelude.{
  ℕ, ◌≤◌, String, ◌≡◌, ◌≢◌, refl, true, false, Option, none, some, List, [], ◌∷◌, arith, take, All,
  any, eq_iff, inl, inr, map,
}
use free_lunch.Prelude.Int.{ℤ, pos}
use free_lunch.Prelude.Sort.{sort_desc}
use free_lunch.Floats.{thousandths, tuple_lt}
use free_lunch.Database.Models.{Model, Table, new_row}
use free_lunch.Routing.{
  is_eligible, serialize_candidate, effective_requirements, order_candidates, place_fallback,
  pick_candidates, preference_score,
}
use free_lunch.Routing.Candidates.{
  Preference, RoutingPreferences, RoutingRequirements, Candidate, has_id, slice_to,
}
use free_lunch.Routing.Eligible.{CanServe, is_eligible→CanServe, Serves, pick_candidates-Serves}
use free_lunch.Routing.Complete.{pick_candidates_complete}
use free_lunch.Routing.Order.{order_candidates-perm}
use free_lunch.Routing.Fallback.{fallback_tried}

abbrev fast : Model ℤ
fast = record (new_row (pos 0) "p/fast" "p" "fast") {
  composite_score = pos 60000;
  avg_ttfb_ms = some (pos 200000);
  supports_tools = true;
}

abbrev wide : Model ℤ
wide = record (new_row (pos 0) "p/wide" "p" "wide") {
  composite_score = pos 70000;
  context_window = some 128000;
  supports_tools = true;
}

abbrev cooling : Model ℤ
cooling = record (new_row (pos 0) "p/cooling" "p" "cooling") {
  composite_score = pos 90000;
  cooldown_until = some 100;
  supports_tools = true;
}

abbrev table : Table ℤ
table = fast ∷ wide ∷ cooling ∷ []

abbrev req : RoutingRequirements ℕ
req = record {
  requested_model = none;
  requires_tools = true;
  requires_vision = false;
  requires_streaming = false;
  requires_structured_output = false;
  requires_system_messages = true;
  min_context_window = 0;
  min_output_tokens = 0;
  token_estimation = some 900;
}

abbrev quick : Option RoutingPreferences
quick = some (record {
  preference = Preference.latency;
  max_latency_ms = some 5000;
  min_context_tokens = none;
})

-- The estimate of a request is its message length, for every tokenizer.
abbrev plain : ℕ → String → String → ℕ
plain n family hint = n

abbrev ids : Option (List (Candidate ℤ)) → List String
ids none = []
ids (some cs) = map (λ c. c.id) cs

-- The better score is still cooling down; the fallback takes the second place.
picked : ids (pick_candidates plain 100 table req none (some "p/fast") (pos 1)) ≡ "p/fast" ∷ []
unfolding pick_candidates is_eligible sort_desc tuple_lt preference_score
picked = refl

pick_candidates-Serves_example :
    All
      (Serves plain 100 table (effective_requirements req quick))
      (map serialize_candidate (fast ∷ wide ∷ []))
unfolding pick_candidates is_eligible sort_desc tuple_lt preference_score
pick_candidates-Serves_example = pick_candidates-Serves plain 100 table req quick none (pos 3) refl

wide-CanServe : CanServe 100 (effective_requirements req quick) wide
unfolding is_eligible
wide-CanServe = is_eligible→CanServe 100 (effective_requirements req quick) wide refl

pick_candidates_complete_example : pick_candidates plain 100 table req quick none (pos 3) ≢ none
pick_candidates_complete_example =
    pick_candidates_complete plain 100 table req quick none (pos 3) wide (inr (inl refl))
      wide-CanServe (λ msgs e. ground arith)

abbrev both : List (Candidate ℤ)
both = map serialize_candidate (fast ∷ wide ∷ [])

order_candidates-perm_example : Perm (order_candidates quick (some "wide") both) both
order_candidates-perm_example = order_candidates-perm quick (some "wide") both (refl, (refl, tt))

fallback_tried_example :
    (any (has_id "p/fast") (slice_to (pos 2) (place_fallback (some "p/fast") (pos 2) both both))
      ≡ true)
    × (1 ≤ 2 → take 1 (place_fallback (some "p/fast") (pos 2) both both) ≡ take 1 both)
fallback_tried_example =
    fallback_tried "p/fast" 1 both both (λ e. false≢true ((eq_iff "p/fast" "").1 e))
      (λ e. ground arith)
