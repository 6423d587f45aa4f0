-- ===== src/Settings/Tests.antt =====
-- Overrides of which one raises, and the bounds at them.
use free_lunch.Prelude.{String, ◌≡◌, refl, true, none, [], ◌∷◌, arith}
use free_lunch.Prelude.Int.{negsuc}
use free_lunch.Json.{Json, whole, text}
use free_lunch.Dict.{Dict}
use free_lunch.Settings.{defaults}
use free_lunch.Settings.Overrides.{Conversions, apply_overrides}
use free_lunch.Settings.Overrides.Bounds.{IsBounded, apply_overrides-IsBounded}

-- No text and no float is a number.
abbrev no_number : Conversions
no_number = record { int_of_text = λ s. none; int_of_float = λ s. none; str = λ v. "0" }

abbrev same : String → String
same s = s

abbrev stored : Dict Json
stored =
    ("health.cooldown_minutes", whole (negsuc 4)) ∷ ("ranking.interval_minutes", text "soon") ∷ []

-- The second setting raises before the first one, which comes later in the code, is applied.
raises : apply_overrides no_number same stored defaults ≡ (defaults, true)
unfolding apply_overrides
raises = refl

defaults-IsBounded : IsBounded defaults
unfolding IsBounded
defaults-IsBounded = omega arith

apply_overrides-IsBounded_example : IsBounded (apply_overrides no_number same stored defaults).0
apply_overrides-IsBounded_example =
    apply_overrides-IsBounded no_number same stored defaults defaults-IsBounded
