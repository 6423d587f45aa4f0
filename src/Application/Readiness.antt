-- ===== src/Application/Readiness.antt =====
-- What the readiness of src/main.py says of the table, and of the requests that src/routing.py takes.
use free_lunch.Dict.{Dict}
use free_lunch.Floats.{Floats}
use free_lunch.Database.Models.{Model, Table}
use free_lunch.Database.Activation.{is_runtime_enabled}
use free_lunch.Database.Activation.Providers.{ActiveOnly, apply_provider_runtime_state-enabled}
use free_lunch.Application.{is_routable, recompute_readiness}
use free_lunch.Prelude.Int.{ℤ}
use free_lunch.Prelude.Members.{In}
use free_lunch.Routing.{effective_requirements, eligible, pick_candidates}
use free_lunch.Routing.Candidates.{RoutingPreferences, RoutingRequirements, Candidate, is_nonempty}
use free_lunch.Routing.Eligible.{Serves, eligible-Serves}
use free_lunch.Prelude.{
  ℕ, String, ◌≡◌, ◌⊎◌, refl, Bool, true, false, Option, none, List, [], ◌∷◌, arith, ltb, lt→ltb,
  select, length, str_eq, All, Bool-cases, inl, inr,
}

module _ {F : Type 0} where
  routable_counted :
      (m : Model F) (rows : Table F)
      → In m rows
      → is_routable m ≡ true
      → ltb 0 (length (select is_routable rows)) ≡ true
  routable_counted m [] h r = absurd h
  routable_counted m (x ∷ xs) (inl e) r = rw (← e, r) (lt→ltb _ _ (omega arith))
  routable_counted m (x ∷ xs) (inr h) r = ground (arith, routable_counted m xs h r)

  -- The first routable row.
  routable_row :
      (rows : Table F)
      → ltb 0 (length (select is_routable rows)) ≡ true
      → (m : Model F) × In m rows × (is_routable m ≡ true)
  routable_row [] h = absurd (ground (arith, h))
  routable_row (x ∷ xs) h = elim (Bool-cases (is_routable x)) [
    | inl e ↦ (x, inl refl, e)
    | inr e ↦ let (m, i, r) = routable_row xs (ground (arith, h, e)) in (m, inr i, r)
  ]

module _ {F Msgs : Type 0} ⦃fl : Floats F⦄ (estimate : Msgs → String → String → ℕ) where
  -- A row that can serve is routable, so a request that finds a candidate finds a routable row.
  candidate-routable :
      (now : ℕ) (rows : Table F) (req : RoutingRequirements Msgs) (c : Candidate F)
      → Serves estimate now rows req c
      → ltb 0 (length (select is_routable rows)) ≡ true
  candidate-routable now rows req c s =
      routable_counted s.row rows s.stored (ground (arith, s.able.active, s.able.healthy))

  some_candidate :
      (now : ℕ) (rows : Table F) (req : RoutingRequirements Msgs) (cs : List (Candidate F))
      → All (Serves estimate now rows req) cs
      → is_nonempty cs ≡ true
      → ltb 0 (length (select is_routable rows)) ≡ true
  some_candidate now rows req [] h e = absurd (ground (arith, e))
  some_candidate now rows req (c ∷ cs) h e = candidate-routable now rows req c h.0

  unready-refuses :
      (now : ℕ) (rows : Table F) (req : RoutingRequirements Msgs)
      (prefs : Option RoutingPreferences) (fallback : Option String) (limit : ℤ)
      → ltb 0 (length (select is_routable rows)) ≡ false
      → pick_candidates estimate now rows req prefs fallback limit ≡ none
  unfolding pick_candidates
  unready-refuses now rows req prefs fallback limit h =
      elim (Bool-cases (is_nonempty (eligible estimate now rows req prefs))) [
        | inr e ↦ ground (arith, e)
        | inl e ↦ absurd (
            ground (
              arith,
              h,
              some_candidate now rows (effective_requirements req prefs)
                  (eligible estimate now rows req prefs)
                  (eligible-Serves estimate now rows req prefs) e,
            ))
      ]

  module _ (strip : String → String) (runtime : Dict Bool) (configured : List String) where
    -- What holds after readiness was computed.
    pub record IsReadiness (after : Table F × Bool) : Type 0 where
      pub enabled :
          ActiveOnly
            (λ q. (is_runtime_enabled runtime q ≡ true) ⊎ (str_eq (strip q) "" ≡ true))
            after.0
      pub routable :
          after.1 ≡ true
          → (m : Model F) × In m after.0 × (m.is_healthy ≡ true) × (m.is_active ≡ true)
      pub refuses :
          after.1 ≡ false
          → (now : ℕ) (req : RoutingRequirements Msgs) (prefs : Option RoutingPreferences)
            (fallback : Option String) (limit : ℤ)
          → pick_candidates estimate now after.0 req prefs fallback limit ≡ none

    -- Once readiness was computed, each active row has a provider that the registry has enabled for
    -- inference, or one whose name is blank; if the gateway is ready then some row is healthy and active,
    -- and if it is not then every request is refused.
    pub recompute_readiness-IsReadiness :
        (table : Table F) → IsReadiness (recompute_readiness strip runtime configured table)
    unfolding recompute_readiness
    recompute_readiness-IsReadiness table = record {
      enabled = apply_provider_runtime_state-enabled strip runtime configured table;
      routable =
          λ h. let (m, i, r) = routable_row _ h in (m, i, ground (arith, r), ground (arith, r));
      refuses = λ h now req prefs fallback limit. unready-refuses now _ req prefs fallback limit h;
    }
