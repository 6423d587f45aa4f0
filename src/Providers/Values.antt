-- ===== src/Providers/Values.antt =====
-- The readings of a row of a list of models in src/providers/openai_compatible.py. A key with dots is the
-- list of its parts. `str`, `str.strip`, `str.lower`, `str.isdigit` and `int` are parameters; `none` is the
-- ValueError or OverflowError of `int`.
use mathlib.Core.Option
use free_lunch.Prelude.Int.{pos, negsuc}
use free_lunch.Json.{
  Json, null, flag, whole, fraction, text, list, object, Items, Fields, no_fields, field,
  is_nonzero, truth, value_of, to_list,
}
use free_lunch.Prelude.{
  ℕ, String, Bool, true, false, Option, none, some, List, [], ◌∷◌, ◌++◌, map, str_eq, if◌then◌else◌,
  any,
}

pub record RowReading : Type 0 where
  pub str : Json → String
  pub strip : String → String
  pub lower : String → String
  pub is_digit : String → Bool
  pub int_of_text : String → Option ℕ
  pub at_least_zero : String → Bool
  pub int_of_float : String → Option ℕ

-- `_nested_get`, with None for what is missing.
abbrev pub nested_get : List String → Json → Json
nested_get [] v = v
nested_get (k ∷ ks) v = elim v [ object d ↦ nested_get ks (value_of k d) | _ ↦ null ]

-- The members of an object that are true, as lower-case names.
abbrev pub true_names : RowReading → Fields → List String
true_names r no_fields = []
true_names r (field k v d) = let rest = true_names r d in if truth v then r.lower k ∷ rest else rest

abbrev pub lower_items : RowReading → Items → List String
lower_items r vs = map (λ v. r.lower (r.str v)) (to_list vs)

abbrev pub names_under : RowReading → Json → List String
names_under r v = elim v [ object d ↦ true_names r d | list vs ↦ lower_items r vs | _ ↦ [] ]

abbrev pub listed_under : RowReading → Json → List String
listed_under r v = elim v [ list vs ↦ lower_items r vs | _ ↦ [] ]

abbrev pub join_names : (Json → List String) → Fields → List (List String) → List String
join_names f d [] = []
join_names f d (k ∷ ks) = f (nested_get k (object d)) ++ join_names f d ks

unfoldable pub extract_capabilities : RowReading → Fields → List String
extract_capabilities r d = join_names (names_under r) d (
    ("supported_parameters" ∷ [])
    ∷ ("capabilities" ∷ [])
    ∷ ("supported_features" ∷ [])
    ∷ ("features" ∷ [])
    ∷ [])

unfoldable pub extract_input_modalities : RowReading → Fields → List String
extract_input_modalities r d = join_names (listed_under r) d (
    ("input_modalities" ∷ [])
    ∷ ("modalities" ∷ [])
    ∷ ("supported_modalities" ∷ [])
    ∷ ("architecture" ∷ "input_modalities" ∷ [])
    ∷ [])

-- `any(value in names for value in wanted)`
abbrev pub has_any : List String → List String → Bool
has_any names wanted = any (λ w. any (str_eq w) names) wanted

unfoldable pub coerce_int : RowReading → Json → Option (Option ℕ)
coerce_int r null = some none
coerce_int r (flag b) = some none
coerce_int r (whole (pos n)) = some (some n)
coerce_int r (whole (negsuc n)) = some none
coerce_int r (fraction b s) =
    if r.at_least_zero s then Option.map some (r.int_of_float s) else some none
coerce_int r (text s) =
    if r.is_digit (r.strip s) then Option.map some (r.int_of_text (r.strip s)) else some none
coerce_int r (list vs) = some none
coerce_int r (object d) = some none

-- The first key whose value is a number.
unfoldable pub extract_int : RowReading → Fields → List (List String) → Option (Option ℕ)
unfolding coerce_int
extract_int r d [] = some none
extract_int r d (k ∷ ks) = elim (coerce_int r (nested_get k (object d))) [
  | none ↦ none
  | some found ↦ elim found [ none ↦ extract_int r d ks | some n ↦ some (some n) ]
]

-- The first key whose value has a text that is not blank.
unfoldable pub extract_str : RowReading → Fields → List (List String) → Option String
extract_str r d [] = none
extract_str r d (k ∷ ks) =
    let rest = extract_str r d ks in
    elim (nested_get k (object d)) [
      | null ↦ rest
      | v ↦ let out = r.strip (r.str v) in if str_eq out "" then rest else some out
    ]

abbrev is_yes : String → Bool
is_yes s = any (str_eq s) ("1" ∷ "true" ∷ "yes" ∷ "on" ∷ [])

abbrev is_no : String → Bool
is_no s = any (str_eq s) ("0" ∷ "false" ∷ "no" ∷ "off" ∷ [])

abbrev pub bool_of_json : RowReading → Json → Option Bool
bool_of_json r v = elim v [
  | flag b ↦ some b
  | whole z ↦ some (is_nonzero z)
  | text s ↦
      let normalized = r.lower (r.strip s) in
      if is_yes normalized then some true else if is_no normalized then some false else none
  | _ ↦ none
]

unfoldable pub extract_bool : RowReading → Fields → List String → Option Bool
extract_bool r d [] = none
extract_bool r d (k ∷ ks) = elim (bool_of_json r (nested_get (k ∷ []) (object d))) [
  | some b ↦ some b
  | none ↦ extract_bool r d ks
]
