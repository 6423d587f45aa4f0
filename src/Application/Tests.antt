-- ===== src/Application/Tests.antt =====
-- The readiness of src/main.py for a table whose only row has a provider that is not enabled.
use free_lunch.Prelude.{ℕ, ◌≡◌, refl, false, [], ◌∷◌}
use free_lunch.Prelude.Int.{ℤ, pos}
use free_lunch.Floats.{thousandths}
use free_lunch.Database.Models.{Table, new_row}
use free_lunch.Database.Writes.{apply_write, flush}
use free_lunch.Database.Activation.{
  active_providers, disabled_providers, apply_provider_runtime_state,
}
use free_lunch.Application.{recompute_readiness}
use free_lunch.Application.Readiness.{IsReadiness, recompute_readiness-IsReadiness}

abbrev table : Table ℤ
table = new_row (pos 0) "p/a" "p" "a" ∷ []

not_ready : (recompute_readiness (λ s. s) [] [] table).1 ≡ false
unfolding recompute_readiness apply_provider_runtime_state disabled_providers active_providers flush
    apply_write
not_ready = refl

recompute_readiness-IsReadiness_example :
    IsReadiness (λ (n : ℕ) family hint. n) (λ s. s) [] [] (recompute_readiness (λ s. s) [] [] table)
recompute_readiness-IsReadiness_example =
    recompute_readiness-IsReadiness (λ (n : ℕ) family hint. n) (λ s. s) [] [] table
