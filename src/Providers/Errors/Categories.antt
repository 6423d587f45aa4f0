-- ===== src/Providers/Errors/Categories.antt =====
-- What the categories of src/providers/openai_compatible.py decide.
use free_lunch.Prelude.{ℕ, String, ◌≡◌, refl, Bool, true, false, Option, none, some, if_keeps, leb}
use free_lunch.Providers.Errors.{
  Category, is_retryable_category, categorize_openai_compatible_error, by_status,
}

-- The Boolean of a categorization says whether its category is retryable.
Agrees : Category × Bool → Type 0
Agrees p = p.1 ≡ is_retryable_category p.0

by_status-Agrees : (status : Option ℕ) → Agrees (by_status status)
unfolding is_retryable_category Agrees
by_status-Agrees none = refl
by_status-Agrees (some n) =
    if_keeps {A = Category × Bool} (λ p. p.1 ≡ is_retryable_category p.0) (leb 500 n)
      (Category.provider_unavailable, true) (Category.invalid_request, false) refl refl

category-Agrees : (c : Category) → Agrees (c, is_retryable_category c)
unfolding Agrees
category-Agrees c = refl

module _ (lower : String → String) where
  categorize-Agrees :
      (status : Option ℕ) (code : Option String) (message : String)
      → Agrees (categorize_openai_compatible_error lower status code message)
  unfolding categorize_openai_compatible_error is_retryable_category
  categorize-Agrees status code message =
      if_keeps Agrees _ _ _ (category-Agrees Category.context_exceeded) (
        if_keeps Agrees _ _ _ (category-Agrees Category.rate_limited) (
          if_keeps Agrees _ _ _ (category-Agrees Category.auth_error) (
            if_keeps Agrees _ _ _ (category-Agrees Category.invalid_request) (
              if_keeps Agrees _ _ _ (category-Agrees Category.provider_unavailable)
                (by_status-Agrees status)))))

  -- An error is retried exactly if its category is one of the retryable ones, whatever the status,
  -- the code and the message.
  pub retryable_iff_category :
      (status : Option ℕ) (code : Option String) (message : String)
      → (categorize_openai_compatible_error lower status code message).1
        ≡ is_retryable_category (categorize_openai_compatible_error lower status code message).0
  unfolding Agrees
  retryable_iff_category status code message = categorize-Agrees status code message
