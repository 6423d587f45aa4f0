-- ===== src/Tokens/Repos/Patterns.antt =====
-- The patterns and tables of src/tokens.py for the names of repositories, written out.
use Prim.Native.String
use Prim.Native.Char.{Char, code}
use package.text.Mathlib.Text.{find?}
use free_lunch.Dict.{Dict}
use free_lunch.Prelude.{
  ℕ, ◌+◌, String, Bool, true, false, not, ◌&&◌, ◌||◌, Option, none, some, List, [], ◌∷◌, ◌++◌,
  str_eq, leb, ◌==◌, if◌then◌else◌, any, map, is_some,
}

abbrev pub one : Char → String
one c = String.◌∷◌ c String.[]

abbrev pub all_chars : (Char → Bool) → String → Bool
all_chars p String.[] = true
all_chars p (String.◌∷◌ c s) = p c && all_chars p s

abbrev pub count_chars : String → ℕ
count_chars String.[] = 0
count_chars (String.◌∷◌ c s) = count_chars s + 1

-- `[a-z]`
abbrev pub is_small : Char → Bool
is_small c = leb 97 (code c) && leb (code c) 122

-- `[A-Za-z0-9]`
abbrev pub is_alnum : Char → Bool
is_alnum c =
    is_small c || ((leb 65 (code c) && leb (code c) 90) || (leb 48 (code c) && leb (code c) 57))

-- `[A-Za-z0-9._-]`
unfoldable pub is_repo_char : Char → Bool
is_repo_char c = is_alnum c || ((code c == 46) || ((code c == 95) || (code c == 45)))

-- `_MODEL_HINT_SUFFIX_RE.sub("", hint)` for a hint that does not end in a newline.
unfoldable pub remove_hint_suffix : String → String
remove_hint_suffix String.[] = String.[]
remove_hint_suffix (String.◌∷◌ c s) =
    let rest = remove_hint_suffix s in
    if (code c == 58) && (not (str_eq s "") && all_chars is_repo_char s)
    then String.[]
    else String.◌∷◌ c rest

-- `s.split(separator, 1)` where the separator is there
unfoldable pub split_at : String → String → Option (String × String)
split_at k String.[] = none
split_at k (String.◌∷◌ c s) =
    let rest = split_at k s in
    if str_eq (one c) k
    then some (String.[], s)
    else elim rest [ none ↦ none | some p ↦ some (String.◌∷◌ c p.0, p.1) ]

-- `"-".join(f(token) for token in s.split("-"))`, where `token` is read so far.
unfoldable pub map_tokens : (String → String) → String → String → String
map_tokens f token String.[] = f token
map_tokens f token (String.◌∷◌ c s) =
    let ended = map_tokens f "" s in
    let longer = map_tokens f (String.◌++◌ token (one c)) s in
    if code c == 45 then String.◌++◌ (f token) (String.◌∷◌ c ended) else longer

-- The digits at the start of a text, and what follows.
unfoldable pub span_digits : (Char → Bool) → String → String × String
span_digits d String.[] = (String.[], String.[])
span_digits d (String.◌∷◌ c s) =
    let rest = span_digits d s in
    if d c then (String.◌∷◌ c rest.0, rest.1) else (String.[], String.◌∷◌ c s)

-- `_KNOWN_REPO_TOKEN_CASE`
abbrev pub known_repo_token_case : Dict String
known_repo_token_case =
    ("llama", "Llama")
    ∷ ("meta", "Meta")
    ∷ ("mistral", "Mistral")
    ∷ ("mixtral", "Mixtral")
    ∷ ("qwen", "Qwen")
    ∷ ("gemma", "Gemma")
    ∷ ("glm", "GLM")
    ∷ ("deepseek", "DeepSeek")
    ∷ ("instruct", "Instruct")
    ∷ ("chat", "Chat")
    ∷ ("coder", "Coder")
    ∷ ("math", "Math")
    ∷ ("base", "Base")
    ∷ ("small", "Small")
    ∷ ("medium", "Medium")
    ∷ ("large", "Large")
    ∷ ("vision", "Vision")
    ∷ ("fp8", "FP8")
    ∷ ("vl", "VL")
    ∷ []

-- `_KNOWN_ORG_CASE`
abbrev pub known_org_case : Dict String
known_org_case =
    ("qwen", "Qwen")
    ∷ ("deepseek", "deepseek-ai")
    ∷ ("stepfun", "stepfun-ai")
    ∷ ("z-ai", "zai-org")
    ∷ []

-- `_KNOWN_ORG_ALIASES`
abbrev pub known_org_aliases : Dict (List String)
known_org_aliases =
    ("cohere", "CohereLabs" ∷ "CohereForAI" ∷ [])
    ∷ ("coherelabs", "cohere" ∷ "CohereForAI" ∷ [])
    ∷ ("cohereforai", "cohere" ∷ "CohereLabs" ∷ [])
    ∷ ("deepseek-ai", "deepseek" ∷ [])
    ∷ ("deepseek", "deepseek-ai" ∷ [])
    ∷ ("meta", "meta-llama" ∷ [])
    ∷ ("mistral", "mistralai" ∷ [])
    ∷ ("stepfun-ai", "stepfun" ∷ [])
    ∷ ("stepfun", "stepfun-ai" ∷ [])
    ∷ ("zai-org", "z-ai" ∷ [])
    ∷ ("z-ai", "zai-org" ∷ [])
    ∷ []

-- `xs.append(x)` unless it is there
abbrev pub add_new : String → List String → List String
add_new x xs = if any (str_eq x) xs then xs else xs ++ (x ∷ [])

abbrev pub add_each : List String → List String → List String
add_each [] xs = xs
add_each (y ∷ ys) xs = add_each ys (add_new y xs)

-- The groups whose condition holds, one after the other.
abbrev pub chosen : List (Bool × List String) → List String
chosen [] = []
chosen ((b, xs) ∷ groups) = (if b then xs else []) ++ chosen groups

abbrev pub contains : String → String → Bool
contains part s = is_some (find? s part)

-- `{prefix}{suffix}` for each of the suffixes
abbrev pub with_suffixes : String → List String → List String
with_suffixes s suffixes = map (String.◌++◌ s) suffixes

abbrev pub starts_alnum : String → Bool
starts_alnum String.[] = false
starts_alnum (String.◌∷◌ c s) = is_alnum c

abbrev pub ends_alnum : String → Bool
ends_alnum String.[] = false
ends_alnum (String.◌∷◌ c s) = if str_eq s "" then is_alnum c else ends_alnum s

unfoldable pub is_safe_hf_repo_component : String → Bool
is_safe_hf_repo_component s =
    all_chars is_repo_char s
    && (starts_alnum s
        && (ends_alnum s
            && (leb (count_chars s) 96 && (not (contains ".." s) && not (contains "--" s)))))
