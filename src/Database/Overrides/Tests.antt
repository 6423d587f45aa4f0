-- ===== src/Database/Overrides/Tests.antt =====
-- An override of src/db.py whose text is also a number of JSON.
use free_lunch.Prelude.{String, ◌≡◌, ◌↔◌, refl, false, Option, some, [], ◌∷◌, str_eq, if◌then◌else◌}
use free_lunch.Prelude.Int.{pos}
use free_lunch.Dict.{lookup}
use free_lunch.Json.{Json, whole, text}
use free_lunch.Database.Overrides.{run_override, set_override, get_overrides}
use free_lunch.Database.Overrides.Read.{IsReadable, get-set_override}

-- Only a few values, of which "5" is the JSON of a number.
abbrev dumps : Json → String
dumps v = elim v [ text s ↦ "'5'" | w ↦ "5" ]

abbrev loads : String → Option Json
loads s = if str_eq s "5" then some (whole (pos 5)) else some (text "5")

get-set_override_example :
    ((lookup "k"
          (get_overrides dumps loads (run_override (set_override dumps loads "k" (text "5") 3) []))
        ≡ some (text "5"))
      ↔ IsReadable dumps loads (text "5"))
    × ((j : String)
        → str_eq "k" j ≡ false
        → lookup j (
            get_overrides dumps loads (run_override (set_override dumps loads "k" (text "5") 3) []))
          ≡ lookup j (get_overrides dumps loads []))
get-set_override_example = get-set_override dumps loads "k" (text "5") 3 [] refl

comes_back_as_number :
    get_overrides dumps loads (run_override (set_override dumps loads "k" (text "5") 3) [])
    ≡ ("k", whole (pos 5)) ∷ []
unfolding get_overrides run_override set_override
comes_back_as_number = refl
