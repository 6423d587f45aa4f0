-- ===== src/Application.antt =====
-- `recompute_readiness` of src/main.py. The statements of `apply_provider_runtime_state` are run before
-- the rows are counted.
pub mod Readiness
mod Tests
use free_lunch.Dict.{Dict}
use free_lunch.Floats.{Floats}
use free_lunch.Database.Models.{Model, Table}
use free_lunch.Database.Writes.{flush}
use free_lunch.Database.Activation.{apply_provider_runtime_state}
use free_lunch.Prelude.{String, Bool, ◌&&◌, List, ltb, select, length}

abbrev pub is_routable : {F : Type 0} → Model F → Bool
is_routable m = m.is_healthy && m.is_active

module _ {F : Type 0} ⦃fl : Floats F⦄ (strip : String → String) (runtime : Dict Bool)
    (configured : List String) where
  -- The table after the deactivations, and `app.state.ready`.
  unfoldable pub recompute_readiness : Table F → Table F × Bool
  unfolding apply_provider_runtime_state flush
  recompute_readiness table =
      let rows = flush (apply_provider_runtime_state strip runtime configured table) table in
      (rows, ltb 0 (length (select is_routable rows)))
