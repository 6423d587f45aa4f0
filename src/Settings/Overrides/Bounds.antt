-- ===== src/Settings/Overrides/Bounds.antt =====
-- Overrides keep the settings of src/config.py within the bounds that the other parts rely on.
use mathlib.Core.Path.{subst}
use mathlib.Core.Option.{some-injective}
use free_lunch.Prelude.{
  ℕ, ◌≤◌, String, ◌≡◌, Bool, some, List, [], ◌∷◌, arith, if_keeps, Option-cases, inl, inr, All,
}
use free_lunch.Prelude.Int.{ℤ, pos, negsuc, max_ℤ}
use free_lunch.Json.{Json, truth}
use free_lunch.Dict.{Dict, lookup, insert}
use free_lunch.Settings.{Settings}
use free_lunch.Settings.Overrides.{
  Conversions, int_of, Setter, sets_int, sets_bool, sets_text, setters, set_value, run_setters,
  provider_between, set_probe_enabled, run_provider_keys, apply_overrides,
}

-- Intervals, limits and thresholds that must not be zero.
unfoldable pub IsBounded : Settings → Type 0
IsBounded s =
    (1 ≤ s.discovery_interval_minutes)
    × (1 ≤ s.ranking_interval_minutes)
    × (1 ≤ max_ℤ s.health_probe_interval_minutes 0)
    × (1 ≤ max_ℤ s.health_probe_timeout_seconds 0)
    × (1 ≤ s.health_probe_concurrency)
    × (1 ≤ s.health_stale_after_minutes)
    × (1 ≤ s.health_consecutive_failures_threshold)
    × (1 ≤ s.health_cooldown_minutes)
    × (1 ≤ s.health_probe_max_tokens)
    × (1 ≤ s.logging_request_log_retention_days)

-- The assignment of a setter keeps the bounds, whatever value it is given.
KeepsBounds : Setter → Type 0
KeepsBounds (sets_int f) = (z : ℤ) (s : Settings) → IsBounded s → IsBounded (f z s)
KeepsBounds (sets_bool f) = (b : Bool) (s : Settings) → IsBounded s → IsBounded (f b s)
KeepsBounds (sets_text f) = (t : String) (s : Settings) → IsBounded s → IsBounded (f t s)

one_le-max_ℤ : (z : ℤ) → 1 ≤ max_ℤ z 1
one_le-max_ℤ (pos n) = omega arith
one_le-max_ℤ (negsuc n) = omega arith

setters-KeepBounds : All (λ f. KeepsBounds f.1) setters
unfolding KeepsBounds IsBounded
setters-KeepBounds = (
  λ z s h. ground (arith, one_le-max_ℤ z),
  (
    λ z s h. ground (arith, one_le-max_ℤ z),
    (
      λ z s h. ground (arith, one_le-max_ℤ z),
      (
        λ v s h. h,
        (
          λ z s h. ground (arith, one_le-max_ℤ z),
          (
            λ z s h. ground (arith, one_le-max_ℤ z),
            (
              λ z s h. ground (arith, one_le-max_ℤ z),
              (
                λ z s h. ground (arith, one_le-max_ℤ z),
                (
                  λ z s h. ground (arith, one_le-max_ℤ z),
                  (
                    λ z s h. ground (arith, one_le-max_ℤ z),
                    (
                      λ z s h. ground (arith, one_le-max_ℤ z),
                      (
                        λ z s h. ground (arith, one_le-max_ℤ z),
                        (
                          λ z s h. ground (arith, one_le-max_ℤ z),
                          (
                            λ z s h. ground (arith, one_le-max_ℤ z),
                            (
                              λ z s h. ground (arith, one_le-max_ℤ z),
                              (
                                λ v s h. h,
                                (
                                  λ z s h. ground (arith, one_le-max_ℤ z),
                                  (λ v s h. h, (λ v s h. h, tt)),
                                ),
                              ),
                            ),
                          ),
                        ),
                      ),
                    ),
                  ),
                ),
              ),
            ),
          ),
        ),
      ),
    ),
  ),
)

budget-IsBounded :
    (s : Settings) (d : Dict ℕ)
    → IsBounded s
    → IsBounded (record s { health_daily_request_budget_by_provider = d })
unfolding IsBounded
budget-IsBounded s d h = h

module _ (conv : Conversions) where
  set_value-IsBounded :
      (f : Setter) (v : Json) (s u : Settings)
      → KeepsBounds f
      → IsBounded s
      → set_value conv f v s ≡ some u
      → IsBounded u
  unfolding set_value KeepsBounds
  set_value-IsBounded (sets_int f) v s u k h e = elim (Option-cases (int_of conv v)) [
    | inl n ↦ ground (arith, n, e)
    | inr (z, n) ↦ let same : f z s ≡ u = ground (arith, n, e) in subst IsBounded same (k z s h)
  ]
  set_value-IsBounded (sets_bool f) v s u k h e =
      subst IsBounded (some-injective _ u e) (k (truth v) s h)
  set_value-IsBounded (sets_text f) v s u k h e =
      subst IsBounded (some-injective _ u e) (k (conv.str v) s h)

  run_setters-IsBounded :
      (fs : List (String × Setter)) (overrides : Dict Json) (s : Settings)
      → All (λ f. KeepsBounds f.1) fs
      → IsBounded s
      → IsBounded (run_setters conv fs overrides s).0
  unfolding run_setters
  run_setters-IsBounded [] overrides s k h = h
  run_setters-IsBounded ((key, f) ∷ fs) overrides s k h =
      elim (Option-cases (lookup key overrides)) [
        | inl e ↦ rw (e, run_setters) (run_setters-IsBounded fs overrides s k.1 h)
        | inr (v, e) ↦ elim (Option-cases (set_value conv f v s)) [
          | inl n ↦ rw (e, n, run_setters) h
          | inr (u, n) ↦
              rw (e, n, run_setters)
                (run_setters-IsBounded fs overrides u k.1 (set_value-IsBounded f v s u k.0 h n))
        ]
      ]

  module _ (strip : String → String) where
    set_probe_enabled-IsBounded :
        (id : String) (b : Bool) (s : Settings) → IsBounded s → IsBounded (set_probe_enabled id b s)
    unfolding IsBounded
    set_probe_enabled-IsBounded id b s h = ground arith

    run_provider_keys-IsBounded :
        (overrides : Dict Json) (s : Settings)
        → IsBounded s
        → IsBounded (run_provider_keys conv strip overrides s).0
    unfolding run_provider_keys
    run_provider_keys-IsBounded [] s h = h
    run_provider_keys-IsBounded ((k, v) ∷ rest) s h =
        elim (Option-cases (provider_between strip "providers." ".active_probe_enabled" k)) [
          | inr (id, e) ↦
              rw (e, run_provider_keys)
                (run_provider_keys-IsBounded rest (set_probe_enabled id (truth v) s)
                  (set_probe_enabled-IsBounded id (truth v) s h))
          | inl e ↦
              elim (Option-cases
                (provider_between strip "health.daily_request_budget_by_provider." "" k)) [
                  | inl n ↦ rw (e, n, run_provider_keys) (run_provider_keys-IsBounded rest s h)
                  | inr (id, n) ↦ elim (Option-cases (int_of conv v)) [
                    | inl m ↦ rw (e, n, m, run_provider_keys) h
                    | inr (z, m) ↦
                        rw (e, n, m, run_provider_keys)
                          (run_provider_keys-IsBounded rest
                            (record s {
                              health_daily_request_budget_by_provider =
                                  insert id (max_ℤ z 0) s.health_daily_request_budget_by_provider;
                            })
                            (budget-IsBounded s _ h))
                  ]
                ]
        ]

    -- Whatever is stored as overrides, also if one of them raises, the three intervals, the time and the
    -- tokens of a probe, the concurrency, the age of a stale model, the threshold of failures, the cooldown
    -- and the retention stay at least 1, if they were before.
    pub apply_overrides-IsBounded :
        (overrides : Dict Json) (s : Settings)
        → IsBounded s
        → IsBounded (apply_overrides conv strip overrides s).0
    unfolding apply_overrides
    apply_overrides-IsBounded overrides s h =
        let first = run_setters-IsBounded setters overrides s setters-KeepBounds h in
        if_keeps {A = Settings × Bool} (λ p. IsBounded p.0) (run_setters conv setters overrides s).1
          _ _ first
          (run_provider_keys-IsBounded overrides (run_setters conv setters overrides s).0 first)
