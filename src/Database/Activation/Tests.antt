-- ===== src/Database/Activation/Tests.antt =====
-- Two providers, of which the registry has enabled one.
use free_lunch.Prelude.{String, ◌≡◌, Bool, true, false, [], ◌∷◌, refl, map}
use free_lunch.Prelude.Int.{ℤ, pos}
use free_lunch.Dict.{Dict}
use free_lunch.Floats.{thousandths}
use free_lunch.Database.Models.{Table, new_row}
use free_lunch.Database.Writes.{apply_write, flush}
use free_lunch.Database.Activation.{apply_provider_runtime_state}

abbrev table : Table ℤ
table = new_row (pos 0) "p/a" "p" "a" ∷ new_row (pos 0) "q/b" "q" "b" ∷ []

abbrev runtime : Dict Bool
runtime = ("p", true) ∷ ("q", false) ∷ []

abbrev same : String → String
same s = s

-- The statements for the two rows and one more provider, of which only `p` runs.
others_go :
    map
      (λ m. m.is_active)
      (flush (apply_provider_runtime_state same runtime ("q" ∷ []) table) table)
    ≡ true ∷ false ∷ []
unfolding flush apply_provider_runtime_state apply_write
others_go = refl
