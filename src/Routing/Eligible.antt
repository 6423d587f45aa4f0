-- ===== src/Routing/Eligible.antt =====
-- Which models src/routing.py lets a request reach: those that can serve it, and all of those.
use free_lunch.Prelude.{
  ℕ, ◌≤◌, ◌<◌, String, ◌≡◌, refl, Bool, true, Option, none, some, List, [], ◌∷◌, arith, leb, take,
  drop, select, any, All, All-take, All-append, All-drop, All-map, Bool-cases, Option-cases, inl,
  inr, or_else, str_eq,
}
use mathlib.Core.Path.{subst}
use free_lunch.Prelude.{not}
use free_lunch.Prelude.Int.{ℤ, pos, negsuc}
use free_lunch.Prelude.Sort.{sort_desc, sort_desc-All}
use free_lunch.Prelude.Members.{In, All-In, select-All, map-All}
use free_lunch.Floats.{Floats}
use free_lunch.Database.Models.{Model, Table}
use free_lunch.Routing.{
  serialize_candidate, is_eligible, lower_score, load_eligible_candidates, required_tokens,
  filter_candidates_by_tokenizer_estimate, by_preference, lower_preference, order_candidates,
  place_fallback, effective_requirements, eligible, pick_candidates,
}
use free_lunch.Routing.Candidates.{
  RoutingPreferences, RoutingRequirements, Candidate, slice_to, before_last, match_explicit_model,
  find, has_id, remove_suffix, is_named,
}

module _ {F Msgs : Type 0} where
  -- What the gateway promises of a model that a request is sent to.
  pub record CanServe (now : ℕ) (req : RoutingRequirements Msgs) (m : Model F) : Type 0 where
    pub active : m.is_active ≡ true
    pub healthy : m.is_healthy ≡ true
    pub cooled_down : (t : ℕ) → m.cooldown_until ≡ some t → t < now
    pub tools : req.requires_tools ≡ true → m.supports_tools ≡ true
    pub vision : req.requires_vision ≡ true → m.supports_vision ≡ true
    pub streaming : req.requires_streaming ≡ true → m.supports_streaming ≡ true
    pub structured : req.requires_structured_output ≡ true → m.supports_structured_output ≡ true
    pub system : req.requires_system_messages ≡ true → m.supports_system_messages ≡ true
    pub window : (w : ℕ) × (m.context_window ≡ some w) × (req.min_context_window ≤ w)
    pub output : (w : ℕ) → m.max_output_tokens ≡ some w → req.min_output_tokens ≤ w

  pub is_eligible→CanServe :
      (now : ℕ) (req : RoutingRequirements Msgs) (m : Model F)
      → is_eligible now req m ≡ true
      → CanServe now req m
  unfolding is_eligible
  is_eligible→CanServe now req m h = record {
    active = ground arith;
    healthy = ground arith;
    cooled_down = λ t e. ground arith;
    tools = λ r. ground arith;
    vision = λ r. ground arith;
    streaming = λ r. ground arith;
    structured = λ r. ground arith;
    system = λ r. ground arith;
    window = ground arith;
    output = λ w e. ground arith;
  }

  pub CanServe→is_eligible :
      (now : ℕ) (req : RoutingRequirements Msgs) (m : Model F)
      → CanServe now req m
      → is_eligible now req m ≡ true
  unfolding is_eligible
  CanServe→is_eligible now req m s =
      let (w, known, wide) = s.window in
      elim (Option-cases m.cooldown_until) [
        | inl c ↦ elim (Option-cases m.max_output_tokens) [
          | inl o ↦ ground arith
          | inr (k, o) ↦ ground (arith, s.output k o)
        ]
        | inr (t, c) ↦ elim (Option-cases m.max_output_tokens) [
          | inl o ↦ ground (arith, s.cooled_down t c)
          | inr (k, o) ↦ ground (arith, s.cooled_down t c, s.output k o)
        ]
      ]

module _ {F Msgs : Type 0} ⦃fl : Floats F⦄ (estimate : Msgs → String → String → ℕ) where
  -- A candidate stands for a row of the table that can serve the request and holds its tokens.
  pub record Serves (now : ℕ) (table : Table F) (req : RoutingRequirements Msgs) (c : Candidate F)
      : Type 0 where
    pub row : Model F
    pub stored : In row table
    pub able : CanServe now req row
    pub copied : c ≡ serialize_candidate row
    pub fits :
        (msgs : Msgs)
        → req.token_estimation ≡ some msgs
        → required_tokens estimate req msgs c ≤ c.context_window

  unfiltered :
      (now : ℕ) (table : Table F) (req : RoutingRequirements Msgs)
      → All
          (λ c. (m : Model F) × In m table × CanServe now req m × (c ≡ serialize_candidate m))
          (load_eligible_candidates now table req)
  unfolding load_eligible_candidates
  unfiltered now table req =
      map-All serialize_candidate _ (sort_desc lower_score (select (is_eligible now req) table)) (
        sort_desc-All lower_score _ (select (is_eligible now req) table) (
          All-map _ _ (select (is_eligible now req) table)
            (λ m h. (m, h.1, is_eligible→CanServe now req m h.0, refl))
            (select-All (is_eligible now req) (λ m. In m table) table (All-In table))))

  -- The filter keeps what held of the candidates, and adds that the tokens fit.
  filter-All :
      (P : Candidate F → Type 0) (req : RoutingRequirements Msgs) (cs : List (Candidate F))
      → All P cs
      → All
          (λ c.
            P c
            × ((msgs : Msgs)
                → req.token_estimation ≡ some msgs
                → required_tokens estimate req msgs c ≤ c.context_window))
          (filter_candidates_by_tokenizer_estimate estimate cs req)
  unfolding filter_candidates_by_tokenizer_estimate
  filter-All P req cs h = elim (Option-cases req.token_estimation) [
    | inl e ↦
        rw (e, filter_candidates_by_tokenizer_estimate)
          (All-map _ _ cs (λ c p. (p, λ msgs q. cc)) h)
    | inr (msgs, e) ↦
        rw (e, filter_candidates_by_tokenizer_estimate)
          (All-map _ _ (select (λ c. leb (required_tokens estimate req msgs c) c.context_window) cs)
            (λ c p. (p.1, λ msgs' q. ground arith))
            (select-All (λ c. leb (required_tokens estimate req msgs c) c.context_window) P cs h))
  ]

  pub eligible-Serves :
      (now : ℕ) (table : Table F) (req : RoutingRequirements Msgs)
      (prefs : Option RoutingPreferences)
      → All
          (Serves now table (effective_requirements req prefs))
          (eligible estimate now table req prefs)
  unfolding eligible
  eligible-Serves now table req prefs =
      let req' = effective_requirements req prefs in
      let loaded = load_eligible_candidates now table req' in
      All-map _ _ (filter_candidates_by_tokenizer_estimate estimate loaded req')
        (λ c h. record { row = h.0.0; stored = h.0.1; able = h.0.2; copied = h.0.3; fits = h.1 })
        (filter-All _ req' loaded (unfiltered now table req'))

module _ {F : Type 0} ⦃fl : Floats F⦄ (P : Candidate F → Type 0) where
  slice_to-All : (limit : ℤ) (cs : List (Candidate F)) → All P cs → All P (slice_to limit cs)
  unfolding slice_to
  slice_to-All (pos n) cs h = All-take P n cs h
  slice_to-All (negsuc n) cs h = All-take P _ cs h

  find-All :
      (k : String) (c : Candidate F) (cs : List (Candidate F)) → All P cs → find k cs ≡ some c → P c
  find-All k c [] h e = absurd (ground arith)
  find-All k c (d ∷ cs) h e = elim (Bool-cases (str_eq d.id k)) [
    | inl q ↦ let same : d ≡ c = ground arith in subst P same h.0
    | inr q ↦ find-All k c cs h.1 (rw q at e)
  ]

  selected-All : (p : Candidate F → Bool) (cs : List (Candidate F)) → All P cs → All P (select p cs)
  selected-All p cs h = All-map _ _ (select p cs) (λ c q. q.1) (select-All p P cs h)

  match-All :
      (cs : List (Candidate F)) (name : String) → All P cs → All P (match_explicit_model cs name)
  unfolding match_explicit_model
  match-All cs name h = ground (
    arith,
    selected-All (is_named name) cs h,
    selected-All (is_named (remove_suffix name ":free")) cs h,
  )

  order_candidates-All :
      (prefs : Option RoutingPreferences) (requested : Option String) (cs : List (Candidate F))
      → All P cs
      → All P (order_candidates prefs requested cs)
  unfolding order_candidates by_preference
  order_candidates-All prefs requested cs h =
      let explicit = match_explicit_model cs (or_else requested "auto") in
      ground (
        arith,
        sort_desc-All (lower_preference prefs) P cs h,
        All-append P explicit (select (λ c. not (any (has_id c.id) explicit)) cs)
            (match-All cs (or_else requested "auto") h)
            (selected-All (λ c. not (any (has_id c.id) explicit)) cs h),
      )

  place_fallback-All :
      (fallback : Option String) (limit : ℤ) (cs ordered : List (Candidate F))
      → All P cs
      → All P ordered
      → All P (place_fallback fallback limit cs ordered)
  unfolding place_fallback
  place_fallback-All none limit cs ordered h k = k
  place_fallback-All (some name) limit cs ordered h k = elim (Option-cases (find name cs)) [
    | inl e ↦ rw (e, place_fallback) k
    | inr (c, e) ↦ ground (
      arith,
      All-append P (take (before_last limit) ordered) (c ∷ drop (before_last limit) ordered)
          (All-take P (before_last limit) ordered k)
          (find-All name c cs h e, All-drop P (before_last limit) ordered k),
    )
  ]

module _ {F Msgs : Type 0} ⦃fl : Floats F⦄ (estimate : Msgs → String → String → ℕ) where
  -- Every candidate that is tried stands for a stored model that is active and healthy, whose
  -- cooldown has ended, which has the capabilities and the context that the request and its preferences
  -- ask for, whose limit of the output, if it has one, is not below what is asked for, and whose context
  -- holds the estimated tokens.
  pub pick_candidates-Serves :
      (now : ℕ) (table : Table F) (req : RoutingRequirements Msgs)
      (prefs : Option RoutingPreferences) (fallback : Option String) (limit : ℤ)
      {cs : List (Candidate F)}
      → pick_candidates estimate now table req prefs fallback limit ≡ some cs
      → All (Serves estimate now table (effective_requirements req prefs)) cs
  unfolding pick_candidates
  pick_candidates-Serves now table req prefs fallback limit {cs} h =
      let P = Serves estimate now table (effective_requirements req prefs) in
      let found = eligible estimate now table req prefs in
      let ordered = order_candidates prefs req.requested_model found in
      let placed = place_fallback fallback limit found ordered in
      let fine = eligible-Serves estimate now table req prefs in
      let same : slice_to limit placed ≡ cs = ground arith in
      subst (All P) same (
        slice_to-All P limit placed (
          place_fallback-All P fallback limit found ordered fine
            (order_candidates-All P prefs req.requested_model found fine)))
