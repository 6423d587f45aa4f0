-- ===== src/Providers/Errors/Tests.antt =====
-- The categories at a concrete error, and a run for each of two answers.
use free_lunch.Prelude.{String, ◌≡◌, refl, true, false, none, some}
use free_lunch.Providers.Errors.{Category, categorize_openai_compatible_error}

abbrev same : String → String
same s = s

too_long :
    categorize_openai_compatible_error same (some 400) none "input is too long here"
    ≡ (Category.context_exceeded, true)
unfolding categorize_openai_compatible_error
too_long = refl

no_model :
    categorize_openai_compatible_error same (some 404) none "no such model"
    ≡ (Category.invalid_request, false)
unfolding categorize_openai_compatible_error
no_model = refl
