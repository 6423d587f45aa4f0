-- ===== src/Tokens/Estimate/Tests.antt =====
-- The estimate of src/tokens.py for one message with an image.
use free_lunch.Json.{text, list, object, no_items, item, Fields, no_fields, field}
use free_lunch.Tokens.Estimate.{Counting, is_image, request_contains_vision}
use free_lunch.Prelude.{◌≡◌, refl, true, none, List, [], ◌∷◌}

-- A text costs one token, and the buffer adds none.
abbrev one_each : Counting
one_each = record {
  exact = λ s. none;
  heuristic = λ s. 1;
  dumps = λ v. "json";
  str = λ v. elim v [ text s ↦ s | w ↦ "value" ];
  lower = λ s. s;
  buffered = λ n. n;
}

abbrev picture : List Fields
picture =
    field "content"
      (list (item (text "see") (item (object (field "image_url" (text "u") no_fields)) no_items)))
      no_fields
    ∷ []

sees_it : request_contains_vision one_each picture ≡ true
unfolding request_contains_vision is_image
sees_it = refl
