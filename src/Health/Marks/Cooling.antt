-- ===== src/Health/Marks/Cooling.antt =====
-- A model of src/health.py that cools down, whatever else is written meanwhile.
use free_lunch.Settings.{Settings}
use free_lunch.Floats.{Floats}
use free_lunch.Database.Models.{Model, Table, find_model}
use free_lunch.Database.Writes.{Write, record_failure, record_success}
use free_lunch.Prelude.{ℕ, String, ◌≡◌, true, false, some, str_eq, is_some, All}

module _ {F : Type 0} (id : String) where
  -- A statement that is no mark of the model.
  unfoldable pub IsNoMark : Write F → Type 0
  IsNoMark w = elim w [
    | record_failure k now error backoff cooldown threshold ↦ str_eq k id ≡ false
    | record_success k now probed latency ttfb ↦ str_eq k id ≡ false
    | _ ↦ Unit
  ]

module _ {F : Type 0} ⦃fl : Floats F⦄ (id : String) (until : ℕ) where
  -- A row of the model has this cooldown.
  abbrev pub IsCooling : Model F → Type 0
  IsCooling m = str_eq m.id id ≡ true → m.cooldown_until ≡ some until

  -- Each row of the model has it, and there is one.
  abbrev pub AreCooling : Table F → Type 0
  AreCooling t = All IsCooling t × (is_some (find_model id t) ≡ true)
