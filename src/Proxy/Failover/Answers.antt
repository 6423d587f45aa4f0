-- ===== src/Proxy/Failover/Answers.antt =====
-- What the client of src/proxy.py gets, and what is logged, when candidates fail one after the other.
use free_lunch.Prelude.{
  ℕ, suc, ◌+◌, ◌≤◌, ◌≡◌, refl, Bool, true, ◌&&◌, Option, none, some, List, [], ◌∷◌, ◌++◌, arith,
  if◌then◌else◌, length, inl, inr, ◌⊎◌,
}
use free_lunch.Providers.Errors.{ProviderError, is_context_exceeded}
use free_lunch.Routing.Candidates.{Candidate, RoutingRequirements}
use free_lunch.Proxy.Failover.{on_provider_error, on_exception, attempt, exhausted, run_attempts}
use free_lunch.Proxy.Attempts.{
  Provider, Timing, Effect, marks_success, logs, Reply, answered, rejected, Verdict, finish, retry,
}

module _ {F : Type 0} where
  abbrev pub is_log : Effect F → ℕ
  is_log (logs l) = 1
  is_log e = 0

  abbrev pub is_success : Effect F → ℕ
  is_success (marks_success id latency ttfb) = 1
  is_success e = 0

  abbrev pub count : (Effect F → ℕ) → List (Effect F) → ℕ
  count f [] = 0
  count f (e ∷ es) = f e + count f es

  count-append :
      (f : Effect F → ℕ) (xs ys : List (Effect F)) → count f (xs ++ ys) ≡ count f xs + count f ys
  count-append f [] ys = omega arith
  count-append f (x ∷ xs) ys = omega (arith, count-append f xs ys)

abbrev pub is_answered : {J : Type 0} → Reply J → ℕ
is_answered (answered j) = 1
is_answered r = 0

-- Whether every error is that the context was exceeded, and the last of some errors.
abbrev pub all_context : List ProviderError → Bool
all_context [] = true
all_context (e ∷ es) = is_context_exceeded e.category && all_context es

abbrev pub last_error : ProviderError → List ProviderError → ProviderError
last_error e [] = e
last_error e (x ∷ es) = last_error x es

pub Verdict-cases :
    {F J : Type 0} (v : Verdict F J)
    → ((effects : List (Effect F)) × (reply : Reply J) × (v ≡ finish effects reply))
      ⊎ ((effects : List (Effect F)) × (e : ProviderError) × (v ≡ retry effects e))
Verdict-cases (finish effects reply) = inl (effects, reply, refl)
Verdict-cases (retry effects e) = inr (effects, e, refl)

module _ {F J Msgs : Type 0} (req : RoutingRequirements Msgs) (timing : Timing)
    (registry : ℕ → Candidate F → Option (Provider F J)) (started : ℕ → ℕ) where
  -- The attempts from number `i` on all fail, with these errors, and may be repeated elsewhere.
  unfoldable pub AllRetry : ℕ → List (Candidate F) → List ProviderError → Type 0
  AllRetry i [] [] = Unit
  AllRetry i [] (e ∷ es) = ⊥
  AllRetry i (c ∷ cs) [] = ⊥
  AllRetry i (c ∷ cs) (e ∷ es) =
      ((effects : List (Effect F)) × (attempt req timing registry started i c ≡ retry effects e))
      × AllRetry (suc i) cs es

  pub run_attempts-finish :
      (i : ℕ) (c : Candidate F) (cs : List (Candidate F)) (effects : List (Effect F))
      (reply : Reply J) (last : Option ProviderError) (ctx : Bool)
      → attempt req timing registry started i c ≡ finish effects reply
      → run_attempts req timing registry started i (c ∷ cs) last ctx ≡ (effects, reply)
  unfolding run_attempts
  run_attempts-finish i c cs effects reply last ctx h = rw (h, run_attempts) refl

  pub run_attempts-retry :
      (i : ℕ) (c : Candidate F) (cs : List (Candidate F)) (effects : List (Effect F))
      (e : ProviderError) (last : Option ProviderError) (ctx : Bool)
      → attempt req timing registry started i c ≡ retry effects e
      → run_attempts req timing registry started i (c ∷ cs) last ctx ≡ (
        effects
            ++ (run_attempts req timing registry started
                (suc i)
                cs
                (some e)
                (ctx && is_context_exceeded e.category)).0,
        (run_attempts req timing registry started
            (suc i)
            cs
            (some e)
            (ctx && is_context_exceeded e.category)).1,
      )
  unfolding run_attempts
  run_attempts-retry i c cs effects e last ctx h = rw (h, run_attempts) refl

  exhausted_from :
      (i : ℕ) (cs : List (Candidate F)) (e : ProviderError) (errors : List ProviderError)
      (ctx : Bool)
      → AllRetry i cs errors
      → (run_attempts req timing registry started i cs (some e) ctx).1 ≡ (
          if is_context_exceeded (last_error e errors).category && (ctx && all_context errors)
          then rejected 400 (last_error e errors).message
          else rejected 502 (last_error e errors).message)
  unfolding AllRetry run_attempts exhausted
  exhausted_from i [] e [] ctx h = ground arith
  exhausted_from i [] e (x ∷ errors) ctx h = absurd h
  exhausted_from i (c ∷ cs) e [] ctx h = absurd h
  exhausted_from i (c ∷ cs) e (x ∷ errors) ctx h =
      rw (run_attempts-retry i c cs h.0.0 x (some e) ctx h.0.1) (
        ground
          (arith, exhausted_from (suc i) cs x errors (ctx && is_context_exceeded x.category) h.1))

  last_is_context :
      (e : ProviderError) (errors : List ProviderError)
      → is_context_exceeded e.category ≡ true
      → all_context errors ≡ true
      → is_context_exceeded (last_error e errors).category ≡ true
  last_is_context e [] h k = h
  last_is_context e (x ∷ errors) h k = ground (arith, last_is_context x errors)

  -- If all attempts fail with errors that let the gateway try the next candidate, the answer has the
  -- last error's message, and status 400 if each candidate's context was exceeded, 502 otherwise.
  pub all_failed_answer :
      (c : Candidate F) (cs : List (Candidate F)) (e : ProviderError) (errors : List ProviderError)
      → AllRetry 0 (c ∷ cs) (e ∷ errors)
      → (run_attempts req timing registry started 0 (c ∷ cs) none true).1
        ≡ rejected (if all_context (e ∷ errors) then 400 else 502) (last_error e errors).message
  unfolding AllRetry run_attempts
  all_failed_answer c cs e errors h = rw (run_attempts-retry 0 c cs h.0.0 e none true h.0.1) (
      ground (
        arith,
        exhausted_from 1 cs e errors (true && is_context_exceeded e.category) h.1,
        last_is_context e errors,
      ))

  -- Each attempt writes at most one row of the log, and marks a success exactly if it answers.
  count_attempt-finish :
      (i : ℕ) (c : Candidate F) (effects : List (Effect F)) (reply : Reply J)
      → attempt req timing registry started i c ≡ finish effects reply
      → (count is_log effects ≤ 1) × (count is_success effects ≡ is_answered reply)
  unfolding attempt on_exception on_provider_error
  count_attempt-finish i c effects reply h = ground arith

  count_attempt-retry :
      (i : ℕ) (c : Candidate F) (effects : List (Effect F)) (e : ProviderError)
      → attempt req timing registry started i c ≡ retry effects e
      → (count is_log effects ≡ 1) × (count is_success effects ≡ 0)
  unfolding attempt on_exception on_provider_error
  count_attempt-retry i c effects e h = ground arith

  -- A request logs at most one row for each candidate, and marks one success if the answer is a
  -- provider's payload and none otherwise.
  pub count_effects :
      (i : ℕ) (cs : List (Candidate F)) (last : Option ProviderError) (ctx : Bool)
      → (count is_log (run_attempts req timing registry started i cs last ctx).0 ≤ length cs)
        × (count is_success (run_attempts req timing registry started i cs last ctx).0
            ≡ is_answered (run_attempts req timing registry started i cs last ctx).1)
  unfolding run_attempts exhausted
  count_effects i [] last ctx = ground arith
  count_effects i (c ∷ cs) last ctx =
      elim (Verdict-cases (attempt req timing registry started i c)) [
        | inl (effects, reply, e) ↦
            rw (run_attempts-finish i c cs effects reply last ctx e)
              (ground (arith, count_attempt-finish i c effects reply e))
        | inr (effects, x, e) ↦ rw (run_attempts-retry i c cs effects x last ctx e) (
            ground (
              arith,
              count_attempt-retry i c effects x e,
              count-append is_log effects
                  (run_attempts req timing registry started (suc i) cs (some x)
                    (ctx && is_context_exceeded x.category)).0,
              count-append is_success effects
                  (run_attempts req timing registry started (suc i) cs (some x)
                    (ctx && is_context_exceeded x.category)).0,
              count_effects (suc i) cs (some x) (ctx && is_context_exceeded x.category),
            ))
      ]
