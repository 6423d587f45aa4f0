-- ===== src/Benchmarks/Names.antt =====
-- `normalize_model_name` of src/benchmarks.py. The pattern `[^a-z0-9]+` replaced by a space and a
-- split at white space leave the runs of letters and digits. `str.lower` is a parameter.
pub mod Again
mod Tests
use Prim.Native.String
use Prim.Native.Char.{Char, code}
use free_lunch.Prelude.{
  ℕ, String, Bool, true, false, not, ◌&&◌, ◌||◌, List, [], ◌∷◌, str_eq, leb, if◌then◌else◌, any,
  select,
}

-- `[a-z0-9]`
unfoldable pub is_plain : Char → Bool
is_plain c = (leb 97 (code c) && leb (code c) 122) || (leb 48 (code c) && leb (code c) 57)

-- A run put before others, if it is not empty.
abbrev pub put_run : String → List String → List String
put_run w ws = if str_eq w "" then ws else w ∷ ws

-- The run at the start of a text, which may be empty, and the runs after it.
unfoldable pub split_runs : String → String × List String
unfolding is_plain
split_runs String.[] = (String.[], [])
split_runs (String.◌∷◌ c s) =
    let rest = split_runs s in
    if is_plain c then (String.◌∷◌ c rest.0, rest.1) else (String.[], put_run rest.0 rest.1)

unfoldable pub runs : String → List String
unfolding split_runs
runs s = put_run (split_runs s).0 (split_runs s).1

-- `_NOISE_TOKENS`
abbrev pub is_noise : String → Bool
is_noise t = any (str_eq t) ("free" ∷ "instruct" ∷ "chat" ∷ "preview" ∷ [])

-- `" ".join(tokens)`
unfoldable pub join : List String → String
join [] = ""
join (t ∷ ts) = elim ts [ [] ↦ t | u ∷ us ↦ String.◌++◌ t (String.◌++◌ " " (join ts)) ]

unfoldable pub normalize_model_name : (String → String) → String → String
unfolding runs join
normalize_model_name lower name = join (select (λ t. not (is_noise t)) (runs (lower name)))
