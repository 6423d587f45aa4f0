-- ===== src/Routing/Complete.antt =====
-- src/routing.py refuses a request only if no stored model can serve it.
use free_lunch.Prelude.{
  ℕ, ◌≤◌, String, ◌≡◌, ◌≢◌, refl, true, Option, none, some, List, [], ◌∷◌, arith, leb, le→leb,
  select, Option-cases, inl, inr,
}
use free_lunch.Prelude.Int.{ℤ}
use free_lunch.Prelude.Sort.{sort_desc}
use free_lunch.Prelude.Members.{In, In-select, In-sort_desc, In-map}
use free_lunch.Floats.{Floats}
use free_lunch.Database.Models.{Model, Table}
use free_lunch.Routing.{
  serialize_candidate, is_eligible, lower_score, load_eligible_candidates, required_tokens,
  filter_candidates_by_tokenizer_estimate, effective_requirements, eligible, pick_candidates,
}
use free_lunch.Routing.Candidates.{RoutingPreferences, RoutingRequirements, Candidate, is_nonempty}
use free_lunch.Routing.Eligible.{CanServe, CanServe→is_eligible}

module _ {F Msgs : Type 0} ⦃fl : Floats F⦄ (estimate : Msgs → String → String → ℕ) where
  In-filter :
      (req : RoutingRequirements Msgs) (c : Candidate F) (cs : List (Candidate F))
      → In c cs
      → ((msgs : Msgs)
          → req.token_estimation ≡ some msgs
          → required_tokens estimate req msgs c ≤ c.context_window)
      → In c (filter_candidates_by_tokenizer_estimate estimate cs req)
  In-filter req c cs m fits = elim (Option-cases req.token_estimation) [
    | inl e ↦
        unfold filter_candidates_by_tokenizer_estimate in
        rw (e, filter_candidates_by_tokenizer_estimate) m
    | inr (msgs, e) ↦
        unfold filter_candidates_by_tokenizer_estimate in
        rw (e, filter_candidates_by_tokenizer_estimate)
          (In-select (λ d. leb (required_tokens estimate req msgs d) d.context_window) c cs m
            (le→leb _ _ (fits msgs e)))
  ]

  In-nonempty : (c : Candidate F) (cs : List (Candidate F)) → In c cs → is_nonempty cs ≡ true
  In-nonempty c [] m = absurd m
  In-nonempty c (d ∷ cs) m = refl

  -- If a stored model can serve the request with its preferences and holds the estimated tokens,
  -- then the request is not refused.
  pub pick_candidates_complete :
      (now : ℕ) (table : Table F) (req : RoutingRequirements Msgs)
      (prefs : Option RoutingPreferences) (fallback : Option String) (limit : ℤ) (m : Model F)
      → In m table
      → CanServe now (effective_requirements req prefs) m
      → ((msgs : Msgs)
          → req.token_estimation ≡ some msgs
          → required_tokens estimate (effective_requirements req prefs) msgs (serialize_candidate m)
            ≤ (serialize_candidate m).context_window)
      → pick_candidates estimate now table req prefs fallback limit ≢ none
  unfolding pick_candidates
  pick_candidates_complete now table req prefs fallback limit m stored able fits =
      let req' = effective_requirements req prefs in
      let c = serialize_candidate m in
      let kept = select (is_eligible now req') table in
      let loaded : In c (load_eligible_candidates now table req') =
        unfold load_eligible_candidates in
        In-map serialize_candidate m (sort_desc lower_score kept) (
          In-sort_desc lower_score m kept (
            In-select (is_eligible now req') m table stored
              (CanServe→is_eligible now req' m able))) in
      let found : In c (eligible estimate now table req prefs) =
        unfold eligible in In-filter req' c (load_eligible_candidates now table req') loaded fits in
      ground (arith, In-nonempty c (eligible estimate now table req prefs) found)
