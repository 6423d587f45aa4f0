-- ===== src/Tokens/Estimate/Vision.antt =====
-- The images of a request in src/tokens.py: seen where they are counted.
use free_lunch.Json.{
  Json, null, flag, whole, fraction, text, list, object, Items, no_items, item, Fields, get,
}
use free_lunch.Tokens.Estimate.{
  Counting, is_image, is_image_part, object_tokens, part_tokens, parts_tokens, content_tokens,
  message_tokens, any_image, content_has_image, request_contains_vision, estimate_required_tokens,
}
use free_lunch.Prelude.{
  ℕ, ◌+◌, ◌*◌, ◌≤◌, ◌≡◌, refl, Option, none, some, List, [], ◌∷◌, arith, ltb, if◌then◌else◌, total,
  length,
}

-- The image parts of a content, and of all messages.
unfoldable pub images_of_parts : Counting → Items → ℕ
images_of_parts t no_items = 0
images_of_parts t (item v vs) = (if is_image_part t v then 1 else 0) + images_of_parts t vs

unfoldable pub images_of : Counting → Option Json → ℕ
unfolding images_of_parts
images_of t none = 0
images_of t (some v) = elim v [
  | list parts ↦ images_of_parts t parts
  | object d ↦ if is_image t d then 1 else 0
  | _ ↦ 0
]

object_tokens-image :
    (t : Counting) (d : Fields) → (if is_image t d then 1 else 0) * 256 ≤ object_tokens t d
unfolding object_tokens
object_tokens-image t d = ground arith

part_tokens-image :
    (t : Counting) (v : Json) → (if is_image_part t v then 1 else 0) * 256 ≤ part_tokens t v
unfolding part_tokens
part_tokens-image t (object d) = object_tokens-image t d
part_tokens-image t null = omega arith
part_tokens-image t (flag b) = omega arith
part_tokens-image t (whole z) = omega arith
part_tokens-image t (fraction b s) = omega arith
part_tokens-image t (text s) = omega arith
part_tokens-image t (list xs) = omega arith

parts_tokens-images : (t : Counting) (vs : Items) → images_of_parts t vs * 256 ≤ parts_tokens t vs
unfolding images_of_parts parts_tokens
parts_tokens-images t no_items = omega arith
parts_tokens-images t (item v vs) = ground (arith, part_tokens-image t v, parts_tokens-images t vs)

content_tokens-images : (t : Counting) (v : Option Json) → images_of t v * 256 ≤ content_tokens t v
unfolding images_of content_tokens
content_tokens-images t none = omega arith
content_tokens-images t (some null) = omega arith
content_tokens-images t (some (flag b)) = omega arith
content_tokens-images t (some (whole z)) = omega arith
content_tokens-images t (some (fraction b s)) = omega arith
content_tokens-images t (some (text s)) = omega arith
content_tokens-images t (some (list vs)) = parts_tokens-images t vs
content_tokens-images t (some (object d)) = object_tokens-image t d

any_image_iff : (t : Counting) (vs : Items) → any_image t vs ≡ ltb 0 (images_of_parts t vs)
unfolding images_of_parts
any_image_iff t no_items = refl
any_image_iff t (item v vs) = ground (arith, any_image_iff t vs)

-- The image parts of a request.
abbrev pub images : Counting → List Fields → ℕ
images t messages = total (λ d. images_of t (get "content" d)) messages

content_has_image_iff :
    (t : Counting) (v : Option Json) → content_has_image t v ≡ ltb 0 (images_of t v)
unfolding images_of
content_has_image_iff t none = refl
content_has_image_iff t (some null) = refl
content_has_image_iff t (some (flag b)) = refl
content_has_image_iff t (some (whole z)) = refl
content_has_image_iff t (some (fraction b s)) = refl
content_has_image_iff t (some (text s)) = refl
content_has_image_iff t (some (list vs)) = any_image_iff t vs
content_has_image_iff t (some (object d)) = ground arith

request_contains_vision_iff :
    (t : Counting) (ms : List Fields) → request_contains_vision t ms ≡ ltb 0 (images t ms)
unfolding request_contains_vision
request_contains_vision_iff t [] = refl
request_contains_vision_iff t (d ∷ ms) =
    ground (arith, content_has_image_iff t (get "content" d), request_contains_vision_iff t ms)

messages-images :
    (t : Counting) (ms : List Fields)
    → 6 * length ms + images t ms * 256 ≤ total (message_tokens t) ms
unfolding message_tokens
messages-images t [] = omega arith
messages-images t (d ∷ ms) =
    ground (arith, content_tokens-images t (get "content" d), messages-images t ms)

-- A request is said to contain vision just where one of its contents has an image, and its estimate is
-- at least 16, 6 for each message and 256 for each image, where the safety buffer lowers no number.
pub vision-estimate :
    (t : Counting) (ms : List Fields) (tools format : Option Json)
    → ((n : ℕ) → n ≤ t.buffered n)
    → (request_contains_vision t ms ≡ ltb 0 (images t ms))
      × (16 + 6 * length ms + images t ms * 256 ≤ estimate_required_tokens t ms tools format)
unfolding estimate_required_tokens
vision-estimate t ms tools format h =
    (request_contains_vision_iff t ms, omega (arith, h _, messages-images t ms))
