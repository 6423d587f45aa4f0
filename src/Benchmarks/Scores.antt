-- ===== src/Benchmarks/Scores.antt =====
-- The scores that src/benchmarks.py collects by normalized name: `_safe_float`, the columns of an
-- Open LLM row, and `_update_score`. `str.lower`, `str.strip`, `str(value)` and `float(text)` are parameters.
pub mod Best
mod Tests
use Prim.Native.Char.{char}
use Prim.Native.String
use free_lunch.Floats.{Floats, zero_f, eq_f, float}
use free_lunch.Dict.{Dict, lookup, insert}
use free_lunch.Benchmarks.Names.{normalize_model_name}
use free_lunch.Prelude.{
  String, Bool, not, Option, none, some, List, [], ◌∷◌, str_eq, if◌then◌else◌, or_else,
}

-- A value of a JSON row. `other` is a list or an object, and says whether it has an element.
pub data Cell (F : Type 0) : Type 0 where
  null : Cell F
  word : String → Cell F
  number : F → Cell F
  flag : Bool → Cell F
  other : Bool → Cell F

-- The texts' operations of Python that the rows are read with.
pub record Texts (F : Type 0) : Type 0 where
  pub lower : String → String
  pub strip : String → String
  pub str : Cell F → String
  pub to_float : String → Option F
  pub has : String → String → Bool

-- A row that the dataset server sends.
abbrev pub Row : Type 0 → Type 0
Row F = Dict (Cell F)

-- The column's name, an arrow and a variation selector at its end.
abbrev average_up : String
average_up = String.◌++◌ "Average ⬆" (String.◌∷◌ (char 65039 tt) "")

module _ {F : Type 0} ⦃fl : Floats F⦄ where
  abbrev pub is_true : Cell F → Bool
  is_true null = Bool.false
  is_true (word s) = not (str_eq s "")
  is_true (number x) = not (eq_f x zero_f)
  is_true (flag b) = b
  is_true (other b) = b

  abbrev pub safe_float : Texts F → Option (Cell F) → Option F
  safe_float t none = none
  safe_float t (some null) = none
  safe_float t (some (word s)) = if str_eq s "" then none else t.to_float s
  safe_float t (some (number x)) = some x
  safe_float t (some (flag b)) = some (if b then float 1 else float 0)
  safe_float t (some (other b)) = none

  -- `row.get(a) or row.get(b) or … or ""`
  abbrev pub first_true : Row F → List String → Cell F
  first_true row [] = word ""
  first_true row (k ∷ ks) =
      let rest = first_true row ks in
      let c = or_else (lookup k row) null in if is_true c then c else rest

  abbrev pub open_llm_model_name : Texts F → Row F → String
  open_llm_model_name t row =
      t.str (first_true row ("fullname" ∷ "eval_name" ∷ "model" ∷ "Model" ∷ []))

  -- The first of these columns that holds a number.
  abbrev pub first_float : Texts F → Row F → List String → Option F
  first_float t row [] = none
  first_float t row (k ∷ ks) = elim (safe_float t (lookup k row)) [
    | none ↦ first_float t row ks
    | some x ↦ some x
  ]

  -- The first column whose key speaks of an average and that holds a number.
  abbrev pub average_column : Texts F → Row F → Option F
  average_column t [] = none
  average_column t ((k, c) ∷ row) =
      let rest = average_column t row in
      if t.has "average" (t.lower (t.strip k))
      then elim (safe_float t (some c)) [ none ↦ rest | some x ↦ some x ]
      else rest

  abbrev pub open_llm_average_score : Texts F → Row F → Option F
  open_llm_average_score t row =
      elim (first_float t row (average_up ∷ "Average" ∷ "average" ∷ [])) [
        | none ↦ average_column t row
        | some x ↦ some x
      ]

  -- A score is stored unless one as good is.
  abbrev pub put_better : String → F → Dict F → Dict F
  put_better k x scores = elim (lookup k scores) [
    | none ↦ insert k x scores
    | some previous ↦ if fl.lt previous x then insert k x scores else scores
  ]

  abbrev pub update_score : Texts F → String → Option F → Dict F → Dict F
  update_score t name score scores =
      let k = normalize_model_name t.lower name in
      if str_eq k "" then scores else elim score [ none ↦ scores | some x ↦ put_better k x scores ]

  -- The rows of one page; `none` is a row that is no object.
  unfoldable pub update_page : Texts F → List (Option (Row F)) → Dict F → Dict F
  update_page t [] scores = scores
  update_page t (none ∷ rows) scores = update_page t rows scores
  update_page t (some row ∷ rows) scores =
      update_page t rows
        (update_score t (open_llm_model_name t row) (open_llm_average_score t row) scores)
