-- ===== src/Providers/Errors/Payload.antt =====
-- `provider_error_from_error_payload` of src/providers/base.py. Its argument `categorize_error`, `str`,
-- `str.isdigit` and `int` are parameters, and `int` is `none` where it raises. A negative status counts as
-- 0, which has the same category.
use mathlib.Core.Path.{subst}
use free_lunch.Prelude.Int.{max_ℤ}
use free_lunch.Json.{Json, flag, whole, text, object, Fields, truth, is_null, value_of}
use free_lunch.Health.Marks.{clip}
use free_lunch.Providers.Errors.{
  Category, is_retryable_category, ProviderError, retryable_error, fatal_error,
}
use free_lunch.Prelude.{
  ℕ, zero, suc, ◌≤◌, ◌≡◌, refl, sym, arith, String, Bool, Option, none, some, if◌then◌else◌,
  Bool-cases, Option-cases, inl, inr,
}

pub record PayloadReading : Type 0 where
  pub str : Json → String
  pub categorize_error : Option ℕ → Option String → String → Category × Bool
  pub is_digit : String → Bool
  pub int_of_text : String → Option ℕ

-- What is read: no error, an error, or an exception.
pub data Reading : Type 0 where
  no_error : Reading
  an_error : ProviderError → Reading
  raises : Reading

-- A value as a status, and the other readings where it is neither a number nor a text of digits.
abbrev pub status_or : PayloadReading → Json → Option (Option ℕ) → Option (Option ℕ)
status_or r v others = elim v [
  | flag b ↦ some (some (if b then 1 else 0))
  | whole z ↦ some (some (max_ℤ z 0))
  | text s ↦
      if r.is_digit s
      then elim (r.int_of_text s) [ none ↦ none | some n ↦ some (some n) ]
      else others
  | _ ↦ others
]

-- `str(code) if code is not None else None`
abbrev pub code_text : PayloadReading → Json → Option String
code_text r v = if is_null (some v) then none else some (r.str v)

-- The message, or the default where it is false.
abbrev pub message_or : PayloadReading → Fields → String → String
message_or r d default =
    clip 500 (if truth (value_of "message" d) then r.str (value_of "message" d) else default)

abbrev pub categorized : PayloadReading → Option ℕ → Option String → String → ProviderError
categorized r status code message =
    let c = r.categorize_error status code message in
    if c.1 then retryable_error message c.0 status code else fatal_error message c.0 status code

abbrev pub read_error : PayloadReading → String → Fields → Reading
read_error r default d =
    elim (status_or r (value_of "status_code" d) (status_or r (value_of "code" d) (some none))) [
      | none ↦ raises
      | some status ↦
          an_error (categorized r status (code_text r (value_of "code" d)) (message_or r d default))
    ]

unfoldable pub error_from_payload : PayloadReading → String → Json → Reading
unfolding clip
error_from_payload r default payload = elim payload [
  | object d ↦ elim (value_of "error" d) [ object e ↦ read_error r default e | _ ↦ no_error ]
  | _ ↦ no_error
]

-- The second component says whether the category is a retryable one.
abbrev pub AreAgreed : PayloadReading → Type 0
AreAgreed r =
    (status : Option ℕ) (code : Option String) (message : String)
    → (r.categorize_error status code message).1
      ≡ is_retryable_category (r.categorize_error status code message).0

categorized-retryable :
    (r : PayloadReading) (status : Option ℕ) (code : Option String) (message : String)
    → AreAgreed r
    → (categorized r status code message).retryable
      ≡ is_retryable_category (categorized r status code message).category
categorized-retryable r status code message agreed =
    elim (Bool-cases (r.categorize_error status code message).1) [
      | inl e ↦ ground (arith, e, agreed status code message)
      | inr e ↦ ground (arith, e, agreed status code message)
    ]

-- The number of characters of a text.
unfoldable pub characters : String → ℕ
characters String.[] = 0
characters (String.◌∷◌ c s) = suc (characters s)

clip-characters : (n : ℕ) (s : String) → characters (clip n s) ≤ n
unfolding clip characters
clip-characters zero s = omega arith
clip-characters (suc n) String.[] = omega arith
clip-characters (suc n) (String.◌∷◌ c s) = omega (arith, clip-characters n s)

-- An error is retryable as its category says, and its message is not long.
pub record IsSound (e : ProviderError) : Type 0 where
  pub agrees : e.retryable ≡ is_retryable_category e.category
  pub short : characters e.message ≤ 500

categorized-message :
    (r : PayloadReading) (status : Option ℕ) (code : Option String) (message : String)
    → (categorized r status code message).message ≡ message
categorized-message r status code message =
    elim (Bool-cases (r.categorize_error status code message).1) [
      | inl e ↦ ground (arith, e)
      | inr e ↦ ground (arith, e)
    ]

read_error-IsSound :
    (r : PayloadReading) (default : String) (d : Fields) (e : ProviderError)
    → AreAgreed r
    → read_error r default d ≡ an_error e
    → IsSound e
read_error-IsSound r default d e agreed h =
    elim (Option-cases
      (status_or r (value_of "status_code" d) (status_or r (value_of "code" d) (some none)))) [
        | inl n ↦ absurd (ground (arith, h, n))
        | inr (status, n) ↦
            let code = code_text r (value_of "code" d) in
            let message = message_or r d default in
            let same : categorized r status code message ≡ e = ground (arith, h, n) in
            subst IsSound same (record {
              agrees = categorized-retryable r status code message agreed;
              short =
                  subst (λ s. characters s ≤ 500) (sym (categorized-message r status code message))
                    (clip-characters 500 _);
            })
      ]

-- An error that is read from a payload may be retried exactly if its category is a retryable one, its
-- message has at most 500 characters, and the payload is an object with an object under `error`, where the
-- categories of the adapter agree with what it says may be retried.
pub error_from_payload-IsSound :
    (r : PayloadReading) (default : String) (payload : Json) (e : ProviderError)
    → AreAgreed r
    → error_from_payload r default payload ≡ an_error e
    → IsSound e × ((d f : Fields) × (payload ≡ object d) × (value_of "error" d ≡ object f))
unfolding error_from_payload
error_from_payload-IsSound r default (object d) e agreed h = go (value_of "error" d) refl
  where
    go :
        (v : Json)
        → value_of "error" d ≡ v
        → IsSound e × ((g f : Fields) × (object d ≡ object g) × (value_of "error" g ≡ object f))
    go (object f) same =
        (read_error-IsSound r default f e agreed (ground (arith, h, same)), (d, f, refl, same))
    go v same = absurd (ground (arith, h, same))
error_from_payload-IsSound r default v e agreed h = absurd (ground (arith, h))
