-- ===== src/Routing.antt =====
-- src/routing.py: the candidates of a request, in the order in which they are tried.
-- The token estimate of src/tokens.py rests on tokenizers that are not under src/: a parameter.
-- `ORDER BY composite_score DESC` leaves ties open; the model keeps the rows' order on ties.
pub mod Candidates
pub mod Eligible
pub mod Complete
pub mod Order
pub mod Fallback
mod Tests
use free_lunch.Routing.Candidates.{
  Preference, balanced, quality, latency, context, reliability, RoutingPreferences,
  RoutingRequirements, Candidate, raise_to, min_context, slice_to, before_last, ends_with,
  remove_suffix, has_id, is_named, is_nonempty, match_explicit_model, explicit_first, find,
}
use Prim.Native.Nat.{max as max_ℕ}
use Prim.Native.String
use Prim.Native.Char.{Char}
use free_lunch.Prelude.{
  ℕ, zero, suc, ◌+◌, ◌-◌, String, Bool, true, false, not, ◌&&◌, ◌||◌, Option, none, some, List, [],
  ◌∷◌, ◌++◌, str_eq, ltb, leb, if◌then◌else◌, length, take, drop, select, any, or_else, map,
}
use free_lunch.Prelude.Int.{ℤ, pos, negsuc}
use free_lunch.Prelude.Sort.{sort_desc}
use free_lunch.Floats.{Floats, zero_f, float, max_f, or_f, tuple_lt}
use free_lunch.Database.Models.{Model, Table}

module _ {F Msgs : Type 0} where
  -- The `WHERE` clause. A comparison with NULL does not hold.
  unfoldable pub is_eligible : ℕ → RoutingRequirements Msgs → Model F → Bool
  is_eligible now req m =
      m.is_active
      && (m.is_healthy
          && ((elim m.cooldown_until [ none ↦ true | some t ↦ ltb t now ])
              && ((not req.requires_tools || m.supports_tools)
                  && ((not req.requires_vision || m.supports_vision)
                      && ((not req.requires_streaming || m.supports_streaming)
                          && ((not req.requires_structured_output || m.supports_structured_output)
                              && ((not req.requires_system_messages || m.supports_system_messages)
                                  && ((elim m.context_window [
                                    | none ↦ false
                                    | some w ↦ leb req.min_context_window w
                                  ])
                                      && (elim m.max_output_tokens [
                                        | none ↦ true
                                        | some w ↦ leb req.min_output_tokens w
                                      ])))))))))

module _ {Msgs : Type 0} where
  -- The requirements with the context that the preferences ask for.
  abbrev pub effective_requirements :
      RoutingRequirements Msgs → Option RoutingPreferences → RoutingRequirements Msgs
  effective_requirements req prefs = record req {
    min_context_window = raise_to req.min_context_window (min_context prefs);
  }

module _ {F : Type 0} ⦃fl : Floats F⦄ where
  -- `_serialize_candidate`: a missing number reads as 0.
  abbrev pub serialize_candidate : Model F → Candidate F
  serialize_candidate m = record {
    id = m.id;
    provider_id = m.provider_id;
    provider_model_id = m.provider_model_id;
    composite_score = m.composite_score;
    avg_latency_ms = or_else m.avg_latency_ms zero_f;
    avg_ttfb_ms = or_else m.avg_ttfb_ms zero_f;
    context_window = or_else m.context_window 0;
    consecutive_failures = m.consecutive_failures;
    backoff_level = m.backoff_level;
    tokenizer_family = m.tokenizer_family;
  }

  abbrev pub lower_score : Model F → Model F → Bool
  lower_score a b = fl.lt a.composite_score b.composite_score

  -- `_preference_score`, the bonus of each preference: `base` holds the two adjustments before it.
  unfoldable pub preference_bonus : Preference → F → Candidate F → F → F
  preference_bonus p base c latency_ms =
      let window = float c.context_window in
      let failures = float (c.consecutive_failures + c.backoff_level) in
      let speed = max_f (float 0) (fl.sub (float 5000) latency_ms) in
      elim p [
        | quality ↦ fl.add base (fl.mul c.composite_score (fl.decimal 20 2))
        | latency ↦ fl.add base (fl.div speed (float 100))
        | context ↦ fl.add base (fl.div window (float 1000))
        | reliability ↦ fl.add (fl.sub base (fl.mul failures (float 15))) (fl.div speed (float 500))
        | balanced ↦
            fl.sub (fl.add (fl.add base (fl.div speed (float 500))) (fl.div window (float 10000)))
              (fl.mul failures (float 2))
      ]

  unfoldable pub latency_penalty : Option ℕ → F → F
  latency_penalty none latency_ms = zero_f
  latency_penalty (some most) latency_ms =
      if fl.lt (float most) latency_ms then fl.sub zero_f (float 25) else zero_f

  unfoldable pub context_bonus : Option ℕ → F → F → F
  context_bonus none window bonus = bonus
  context_bonus (some least) window bonus =
      if not (fl.lt window (float least)) then fl.add bonus (float 10) else bonus

  unfoldable pub preference_score : Option RoutingPreferences → Candidate F → List F
  unfolding preference_bonus latency_penalty context_bonus
  preference_score none c = c.composite_score ∷ zero_f ∷ zero_f ∷ zero_f ∷ []
  preference_score (some prefs) c =
      let latency_ms = or_f c.avg_ttfb_ms (or_f c.avg_latency_ms (float 999999)) in
      let window = float c.context_window in
      let base =
        context_bonus prefs.min_context_tokens window
          (latency_penalty prefs.max_latency_ms latency_ms) in
      fl.add c.composite_score (preference_bonus prefs.preference base c latency_ms)
      ∷ c.composite_score
      ∷ fl.neg latency_ms
      ∷ window
      ∷ []

  abbrev pub lower_preference : Option RoutingPreferences → Candidate F → Candidate F → Bool
  lower_preference prefs a b = tuple_lt fl.lt (preference_score prefs a) (preference_score prefs b)

  unfoldable pub by_preference : Option RoutingPreferences → List (Candidate F) → List (Candidate F)
  by_preference prefs cs = sort_desc (lower_preference prefs) cs

  unfoldable pub order_candidates :
      Option RoutingPreferences → Option String → List (Candidate F) → List (Candidate F)
  unfolding match_explicit_model by_preference
  order_candidates prefs requested cs =
      let name = or_else requested "auto" in
      let explicit = match_explicit_model cs name in
      if str_eq name "auto" || str_eq name ""
      then by_preference prefs cs
      else if is_nonempty explicit
      then explicit_first explicit cs
      else by_preference prefs cs

module _ {F : Type 0} where
  -- Puts the fallback model into the last place that is tried, unless it is tried anyway.
  unfoldable pub place_fallback :
      Option String → ℤ → List (Candidate F) → List (Candidate F) → List (Candidate F)
  unfolding slice_to
  place_fallback none limit cs ordered = ordered
  place_fallback (some k) limit cs ordered = elim (find k cs) [
    | none ↦ ordered
    | some fallback ↦
        if str_eq k "" || any (has_id k) (slice_to limit ordered)
        then ordered
        else take (before_last limit) ordered ++ (fallback ∷ drop (before_last limit) ordered)
  ]

module _ {F Msgs : Type 0} ⦃fl : Floats F⦄ where
  unfoldable pub load_eligible_candidates :
      ℕ → Table F → RoutingRequirements Msgs → List (Candidate F)
  load_eligible_candidates now table req =
      map serialize_candidate (sort_desc lower_score (select (is_eligible now req) table))

module _ {F Msgs : Type 0} ⦃fl : Floats F⦄ (estimate : Msgs → String → String → ℕ) where
  -- The tokens that a candidate must hold, at least `min_context_window`.
  abbrev pub required_tokens : RoutingRequirements Msgs → Msgs → Candidate F → ℕ
  required_tokens req msgs c =
      max_ℕ req.min_context_window
        (estimate msgs (or_else c.tokenizer_family "") c.provider_model_id)

  unfoldable pub filter_candidates_by_tokenizer_estimate :
      List (Candidate F) → RoutingRequirements Msgs → List (Candidate F)
  filter_candidates_by_tokenizer_estimate cs req = elim req.token_estimation [
    | none ↦ cs
    | some msgs ↦ select (λ c. leb (required_tokens req msgs c) c.context_window) cs
  ]

  -- The candidates that can serve the request, before they are ordered.
  unfoldable pub eligible :
      ℕ → Table F → RoutingRequirements Msgs → Option RoutingPreferences → List (Candidate F)
  unfolding filter_candidates_by_tokenizer_estimate load_eligible_candidates
  eligible now table req prefs =
      let effective = effective_requirements req prefs in
      filter_candidates_by_tokenizer_estimate (load_eligible_candidates now table effective)
        effective

  -- `pick_candidates`; `none` is `NoHealthyModelsError`.
  unfoldable pub pick_candidates :
      ℕ
      → Table F
      → RoutingRequirements Msgs
      → Option RoutingPreferences
      → Option String
      → ℤ
      → Option (List (Candidate F))
  unfolding eligible order_candidates place_fallback slice_to
  pick_candidates now table req prefs fallback limit =
      let cs = eligible now table req prefs in
      if is_nonempty cs
      then some (
          slice_to limit
            (place_fallback fallback limit cs (order_candidates prefs req.requested_model cs)))
      else none
