-- ===== src/Providers/Requests/Attempts.antt =====
-- The attempts of `_request_with_retries` of src/providers/openai_compatible.py.
use mathlib.Core.Path.{subst}
use free_lunch.Prelude.Int.{ℤ, pos, negsuc, max_ℤ}
use free_lunch.Providers.EventStream.{Closing, closed, timed_out, broken}
use free_lunch.Providers.Errors.{ProviderError}
use free_lunch.Providers.Requests.{
  Decoder, Upstream, Client, Attempt, answers, no_answer_in_time, no_connection, Tried, returned,
  caught, let_through, raise_for_response, read_body, accept, ended, raised_error, oversized,
  is_declared_too_long, try_upstream, try_once, retry, request_with_retries,
}
use free_lunch.Prelude.{
  ℕ, zero, suc, ◌+◌, ◌≤◌, ◌<◌, ◌≡◌, ◌⊎◌, refl, sym, ap, Bool, true, false, some, List, [], ◌∷◌,
  arith, leb, if_keeps, length, length-append, Option-cases, Bool-cases, inl, inr,
}

max_ℤ-pos : (n : ℤ) → 1 ≤ max_ℤ n 1
max_ℤ-pos (pos n) = omega arith
max_ℤ-pos (negsuc n) = omega arith

abbrev pub is_caught : Tried → Bool
is_caught (returned status body) = false
is_caught (caught e) = true
is_caught (let_through e) = false

module _ (r : Decoder) (client : Client) where
  module _ (network : ℕ → Attempt) where
    -- The first `n` attempts all ended with an error that is caught.
    abbrev pub AllCaught : ℕ → Type 0
    AllCaught zero = Unit
    AllCaught (suc n) = (is_caught (try_once r client (network n)) ≡ true) × AllCaught n

    -- `n` attempts, `bound` at most: all but the last were caught, and what comes out is what the last
    -- one gave, which is an error that is caught only where no attempt is left.
    abbrev pub IsRun : ℕ → ℕ × Tried → Type 0
    IsRun bound run =
        (m : ℕ) × (run.0 ≡ suc m)
        × (run.0 ≤ bound)
        × AllCaught m
        × (run.1 ≡ try_once r client (network m))
        × ((is_caught run.1 ≡ false) ⊎ (run.0 ≡ bound))

    -- What the loop does with an attempt's result.
    abbrev after : ℕ → ℕ → Tried → ℕ × Tried
    after left n (returned status body) = (suc n, returned status body)
    after left n (caught e) = retry r client network left (suc n) e
    after left n (let_through e) = (suc n, let_through e)

    after-IsRun :
        (bound left n : ℕ) (t : Tried)
        → AllCaught n
        → suc left + n ≡ bound
        → t ≡ try_once r client (network n)
        → ((e : ProviderError) → t ≡ caught e → IsRun bound (retry r client network left (suc n) e))
        → IsRun bound (after left n t)
    after-IsRun bound left n (returned status body) h k e next =
        (n, refl, omega (arith, k), h, e, inl refl)
    after-IsRun bound left n (caught x) h k e next = next x refl
    after-IsRun bound left n (let_through x) h k e next =
        (n, refl, omega (arith, k), h, e, inl refl)

    retry-IsRun :
        (bound left n : ℕ) (last : ProviderError)
        → AllCaught n
        → try_once r client (network n) ≡ caught last
        → left + suc n ≡ bound
        → IsRun bound (retry r client network left (suc n) last)
    unfolding retry
    retry-IsRun bound zero n last h e k =
        (n, refl, omega (arith, k), h, sym e, inr (omega (arith, k)))
    retry-IsRun bound (suc left) n last h e k =
        after-IsRun bound left (suc n) (try_once r client (network (suc n))) (ap is_caught e, h)
          (omega (arith, k)) refl
          (λ x f. retry-IsRun bound left (suc n) x (ap is_caught e, h) f (omega (arith, k)))

    from_start :
        (bound : ℕ) (last : ProviderError)
        → 1 ≤ bound
        → IsRun bound (retry r client network bound 0 last)
    unfolding retry
    from_start zero last h = ground (arith, h)
    from_start (suc left) last h =
        after-IsRun (suc left) left 0 (try_once r client (network 0)) tt (omega arith) refl
          (λ x f. retry-IsRun (suc left) left 0 x tt f (omega arith))

    pub request_with_retries-IsRun :
        IsRun (max_ℤ client.max_retries 1) (request_with_retries r client network)
    unfolding request_with_retries retry
    request_with_retries-IsRun =
        from_start (max_ℤ client.max_retries 1) _ (max_ℤ-pos client.max_retries)

  -- A response is no error and no longer than the limit; an error that is raised at the end may be
  -- retried, and one that is let through may not.
  abbrev pub IsSound : Tried → Type 0
  IsSound (returned status body) = (status < 400) × (length body ≤ client.max_response_bytes)
  IsSound (caught e) = e.retryable ≡ true
  IsSound (let_through e) = e.retryable ≡ false

  read_body-length :
      (size : ℕ) (chunks : List (List ℕ)) (body : List ℕ)
      → size ≤ client.max_response_bytes
      → read_body client.max_response_bytes size chunks ≡ some body
      → size + length body ≤ client.max_response_bytes
  read_body-length size [] body k h = ground (arith, h, k)
  read_body-length size (c ∷ cs) body k h =
      elim (Option-cases (read_body client.max_response_bytes (size + length c) cs)) [
        | inl e ↦ ground (arith, h, e)
        | inr (bs, e) ↦
            ground (arith, h, e, read_body-length (size + length c) cs bs, length-append c bs)
      ]

  raised_error-IsSound : (e : ProviderError) → IsSound (raised_error e)
  raised_error-IsSound e = elim (Bool-cases e.retryable) [
    | inl h ↦ rw (h) refl
    | inr h ↦ rw (h) refl
  ]

  accept-IsSound :
      (status : ℕ) (body : List ℕ)
      → length body ≤ client.max_response_bytes
      → IsSound (accept r client status body)
  accept-IsSound status body h = elim (Bool-cases (leb 400 status)) [
    | inl e ↦ rw (e) (raised_error-IsSound (raise_for_response r client status body))
    | inr e ↦ rw (e) (ground (arith, e), h)
  ]

  ended-IsSound :
      (u : Upstream) (body : List ℕ) (how : Closing)
      → length body ≤ client.max_response_bytes
      → IsSound (ended r client u.status body how)
  ended-IsSound u body closed h = accept-IsSound u.status body h
  ended-IsSound u body timed_out h = refl
  ended-IsSound u body broken h = refl

  try_once-IsSound : (a : Attempt) → IsSound (try_once r client a)
  unfolding try_upstream
  try_once-IsSound no_answer_in_time = refl
  try_once-IsSound no_connection = refl
  try_once-IsSound (answers u) =
      if_keeps IsSound (is_declared_too_long client.max_response_bytes u.declared)
        (caught oversized) _ refl
        (elim (Option-cases (read_body client.max_response_bytes 0 u.chunks)) [
          | inl e ↦ rw (e) refl
          | inr (body, e) ↦
              rw (e) (
                ended-IsSound u body u.ending
                  (ground (arith, read_body-length 0 u.chunks body _ e)))
        ])

  -- A request's response is no error and no longer than the limit; an error that is raised after the
  -- last attempt may be retried, and one that ends the attempts early may not.
  pub request_with_retries-IsSound :
      (network : ℕ → Attempt) → IsSound (request_with_retries r client network).1
  request_with_retries-IsSound network =
      let (m, e, k, h, t, l) = request_with_retries-IsRun network in
      subst IsSound (sym t) (try_once-IsSound (network m))
