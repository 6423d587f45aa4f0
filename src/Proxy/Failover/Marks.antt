-- ===== src/Proxy/Failover/Marks.antt =====
-- Which models src/proxy.py marks as failed or as successful, and why.
use mathlib.Core.Path.{subst}
use free_lunch.Prelude.{
  ℕ, suc, String, ◌≡◌, refl, Bool, true, false, ◌&&◌, Option, none, some, List, [], ◌∷◌, ◌++◌,
  arith, inl, inr, ◌⊎◌,
}
use free_lunch.Prelude.Int.{ℤ}
use free_lunch.Prelude.Members.{In, All-elim}
use free_lunch.Floats.{Floats}
use free_lunch.Database.Models.{Table}
use free_lunch.Providers.Errors.{ProviderError, is_context_exceeded}
use free_lunch.Routing.{effective_requirements, pick_candidates}
use free_lunch.Routing.Candidates.{Candidate, RoutingRequirements, RoutingPreferences}
use free_lunch.Routing.Eligible.{Serves, pick_candidates-Serves}
use free_lunch.Proxy.Failover.{
  on_provider_error, on_exception, attempt, run_attempts, exhausted, answer_request,
}
use free_lunch.Proxy.Attempts.{
  Provider, Timing, Effect, marks_success, marks_failure, Reply, finish, retry,
}
use free_lunch.Proxy.Failover.Answers.{Verdict-cases, run_attempts-finish, run_attempts-retry}

pub In-append_cases : {A : Type 0} (a : A) (xs ys : List A) → In a (xs ++ ys) → In a xs ⊎ In a ys
In-append_cases a [] ys m = inr m
In-append_cases a (x ∷ xs) ys (inl e) = inl (inl e)
In-append_cases a (x ∷ xs) ys (inr m) = ground (arith, In-append_cases a xs ys m)

module _ {F J Msgs : Type 0} (req : RoutingRequirements Msgs) (timing : Timing)
    (registry : ℕ → Candidate F → Option (Provider F J)) (started : ℕ → ℕ) where
  -- An attempt of one of the candidates at the model failed for another reason than the context,
  -- and the gateway went on.
  pub record Failed (id : String) (cs : List (Candidate F)) : Type 0 where
    pub candidate : Candidate F
    pub tried : In candidate cs
    pub same_id : candidate.id ≡ id
    pub number : ℕ
    pub effects : List (Effect F)
    pub error : ProviderError
    pub failed : attempt req timing registry started number candidate ≡ retry effects error
    pub other_reason : is_context_exceeded error.category ≡ false

  retry_marks :
      (i : ℕ) (c : Candidate F) (effects : List (Effect F)) (e : ProviderError) (id text : String)
      → attempt req timing registry started i c ≡ retry effects e
      → In (marks_failure id text) effects
      → (c.id ≡ id) × (is_context_exceeded e.category ≡ false)
  unfolding attempt on_exception on_provider_error
  retry_marks i c effects e id text h m = ground arith

  finish_marks_no_failure :
      (i : ℕ) (c : Candidate F) (effects : List (Effect F)) (reply : Reply J) (id text : String)
      → attempt req timing registry started i c ≡ finish effects reply
      → In (marks_failure id text) effects
      → ⊥
  unfolding attempt on_exception on_provider_error
  finish_marks_no_failure i c effects reply id text h m = ground arith

  wider :
      (id : String) (c : Candidate F) (cs : List (Candidate F)) → Failed id cs → Failed id (c ∷ cs)
  wider id c cs f = record {
    candidate = f.candidate;
    tried = inr f.tried;
    same_id = f.same_id;
    number = f.number;
    effects = f.effects;
    error = f.error;
    failed = f.failed;
    other_reason = f.other_reason;
  }

  -- A model is marked as failed only if an attempt at it failed for another reason than that its
  -- context was exceeded, and not by an error that ends the request.
  pub marks_failure-Failed :
      (i : ℕ) (cs : List (Candidate F)) (last : Option ProviderError) (ctx : Bool)
      (id text : String)
      → In (marks_failure id text) (run_attempts req timing registry started i cs last ctx).0
      → Failed id cs
  unfolding run_attempts exhausted
  marks_failure-Failed i [] last ctx id text m = absurd m
  marks_failure-Failed i (c ∷ cs) last ctx id text m =
      elim (Verdict-cases (attempt req timing registry started i c)) [
        | inl (effects, reply, e) ↦ absurd (
            finish_marks_no_failure i c effects reply id text e (
              subst (λ p. In (marks_failure id text) p.0)
                (run_attempts-finish req timing registry started i c cs effects reply last ctx e)
                m))
        | inr (effects, x, e) ↦
            elim (In-append_cases (marks_failure id text) effects _ (
              subst (λ p. In (marks_failure id text) p.0)
                (run_attempts-retry req timing registry started i c cs effects x last ctx e) m)) [
                  | inl here ↦
                      let (same, other) = retry_marks i c effects x id text e here in
                      record {
                        candidate = c;
                        tried = inl refl;
                        same_id = same;
                        number = i;
                        effects = effects;
                        error = x;
                        failed = e;
                        other_reason = other;
                      }
                  | inr there ↦ wider id c cs (
                      marks_failure-Failed (suc i) cs (some x)
                        (ctx && is_context_exceeded x.category) id text there)
                ]
      ]

  retry_no_success :
      (i : ℕ) (c : Candidate F) (effects : List (Effect F)) (e : ProviderError) (id : String)
      (latency ttfb : Option F)
      → attempt req timing registry started i c ≡ retry effects e
      → In (marks_success id latency ttfb) effects
      → ⊥
  unfolding attempt on_exception on_provider_error
  retry_no_success i c effects e id latency ttfb h m = ground arith

  finish_success_id :
      (i : ℕ) (c : Candidate F) (effects : List (Effect F)) (reply : Reply J) (id : String)
      (latency ttfb : Option F)
      → attempt req timing registry started i c ≡ finish effects reply
      → In (marks_success id latency ttfb) effects
      → c.id ≡ id
  unfolding attempt on_exception on_provider_error
  finish_success_id i c effects reply id latency ttfb h m = ground arith

  -- Every mark is on a model that is among the candidates.
  pub marked_success_among :
      (i : ℕ) (cs : List (Candidate F)) (last : Option ProviderError) (ctx : Bool) (id : String)
      (latency ttfb : Option F)
      → In
          (marks_success id latency ttfb)
          (run_attempts req timing registry started i cs last ctx).0
      → (c : Candidate F) × In c cs × (c.id ≡ id)
  unfolding run_attempts exhausted
  marked_success_among i [] last ctx id latency ttfb m = absurd m
  marked_success_among i (c ∷ cs) last ctx id latency ttfb m =
      elim (Verdict-cases (attempt req timing registry started i c)) [
        | inl (effects, reply, e) ↦ (
          c,
          inl refl,
          finish_success_id i c effects reply id latency ttfb e (
              subst (λ p. In (marks_success id latency ttfb) p.0)
                (run_attempts-finish req timing registry started i c cs effects reply last ctx e)
                m),
        )
        | inr (effects, x, e) ↦
            elim (In-append_cases (marks_success id latency ttfb) effects _ (
              subst (λ p. In (marks_success id latency ttfb) p.0)
                (run_attempts-retry req timing registry started i c cs effects x last ctx e) m)) [
                  | inl here ↦ absurd (retry_no_success i c effects x id latency ttfb e here)
                  | inr there ↦
                      let (d, n, same) =
                        marked_success_among (suc i) cs (some x)
                          (ctx && is_context_exceeded x.category) id latency ttfb there in
                      (d, inr n, same)
                ]
      ]

module _ {F J Msgs : Type 0} ⦃fl : Floats F⦄ (estimate : Msgs → String → String → ℕ)
    (timing : Timing) (registry : ℕ → Candidate F → Option (Provider F J)) (started : ℕ → ℕ) where
  -- A request with its candidates from the table marks, as failed or as successful, only models of the
  -- table that can serve it.
  pub marked_models_serve :
      (now : ℕ) (table : Table F) (req : RoutingRequirements Msgs)
      (prefs : Option RoutingPreferences) (fallback : Option String) (limit : ℤ)
      (cs : List (Candidate F)) (id text : String) (latency ttfb : Option F)
      → pick_candidates estimate now table req prefs fallback limit ≡ some cs
      → In (marks_failure id text) (answer_request req timing registry started (some cs)).0
        ⊎ In
            (marks_success id latency ttfb)
            (answer_request req timing registry started (some cs)).0
      → (c : Candidate F) × Serves estimate now table (effective_requirements req prefs) c
        × (c.id ≡ id)
  marked_models_serve now table req prefs fallback limit cs id text latency ttfb h (inl m) =
      let f = marks_failure-Failed req timing registry started 0 cs none true id text m in
      (
        f.candidate,
        All-elim _ f.candidate cs
            (pick_candidates-Serves estimate now table req prefs fallback limit h) f.tried,
        f.same_id,
      )
  marked_models_serve now table req prefs fallback limit cs id text latency ttfb h (inr m) =
      let (c, n, same) =
        marked_success_among req timing registry started 0 cs none true id latency ttfb m in
      (
        c,
        All-elim _ c cs (pick_candidates-Serves estimate now table req prefs fallback limit h) n,
        same,
      )
