-- ===== src/Database/Activation.antt =====
-- Which rows stay active: `set_model_active` and `mark_models_not_seen` of src/db.py, and
-- `apply_provider_runtime_state` of src/main.py, whose list of providers is a sorted set there; a
-- provider that is named twice is only deactivated twice here.
pub mod Providers
mod Tests
use free_lunch.Prelude.{
  String, Bool, false, not, List, [], ◌∷◌, ◌++◌, str_eq, select, map, or_else, if◌then◌else◌,
}
use free_lunch.Dict.{Dict, lookup}
use free_lunch.Database.Models.{Model, Table}
use free_lunch.Database.Writes.{Write, set_active, deactivate_unseen, deactivate_provider}

abbrev pub is_runtime_enabled : Dict Bool → String → Bool
is_runtime_enabled runtime p = or_else (lookup p runtime) false

abbrev pub keys : Dict Bool → List String
keys d = map (λ e. e.0) d

module _ {F : Type 0} where
  unfoldable pub set_model_active : String → Bool → List (Write F)
  set_model_active id b = set_active id b ∷ []

  unfoldable pub mark_models_not_seen : String → List String → List (Write F)
  mark_models_not_seen provider seen = deactivate_unseen provider seen ∷ []

  -- The providers of the active rows.
  unfoldable pub active_providers : Table F → List String
  active_providers [] = []
  active_providers (m ∷ ms) =
      let rest = active_providers ms in if m.is_active then m.provider_id ∷ rest else rest

  -- `configured` are the known providers whose inference is enabled, and `strip` is `str.strip`.
  unfoldable pub disabled_providers :
      (String → String) → Dict Bool → List String → Table F → List String
  unfolding active_providers
  disabled_providers strip runtime configured table =
      select (λ p. not (is_runtime_enabled runtime p))
        (select (λ p. not (str_eq (strip p) "")) (active_providers table)
          ++ keys runtime
          ++ configured)

  -- The statements are run before the function returns.
  unfoldable pub apply_provider_runtime_state :
      (String → String) → Dict Bool → List String → Table F → List (Write F)
  unfolding disabled_providers
  apply_provider_runtime_state strip runtime configured table =
      map deactivate_provider (disabled_providers strip runtime configured table)
