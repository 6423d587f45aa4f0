-- ===== src/Tokens/Repos.antt =====
-- The names under which src/tokens.py asks the Hugging Face Hub for a tokenizer. `str.lower`, `str.upper`,
-- `str.strip`, `str.isalpha` and the class `\d` are parameters; the patterns are written out.
pub mod Patterns
pub mod Characters
pub mod Safe
pub mod Pairs
mod Tests
use free_lunch.Tokens.Repos.Patterns.{
  one, all_chars, count_chars, is_small, remove_hint_suffix, split_at, map_tokens, span_digits,
  known_repo_token_case, known_org_case, known_org_aliases, add_new, add_each, chosen, contains,
  with_suffixes, is_safe_hf_repo_component,
}
use Prim.Native.String
use Prim.Native.Char.{Char, code}
use text.Mathlib.Text.{starts_with}
use free_lunch.Dict.{lookup}
use free_lunch.Proxy.Events.{drop_chars}
use free_lunch.Routing.Candidates.{ends_with, remove_suffix}
use free_lunch.Prelude.{
  ◌+◌, String, Bool, false, not, ◌&&◌, ◌||◌, Option, none, some, List, [], ◌∷◌, str_eq, leb, ◌==◌,
  if◌then◌else◌, any, or_else, map,
}

pub record Texts : Type 0 where
  pub lower : String → String
  pub upper : String → String
  pub strip : String → String
  pub is_alpha : Char → Bool
  pub is_digit : Char → Bool

module _ (t : Texts) where
  -- `[a-z]\d+[a-z]?` on a text in lower case
  abbrev pub is_letter_number : String → Bool
  is_letter_number String.[] = false
  is_letter_number (String.◌∷◌ c s) =
      let cut = span_digits t.is_digit s in
      is_small c
      && (not (str_eq cut.0 "") && (all_chars is_small cut.1 && leb (count_chars cut.1) 1))

  -- `v\d.*`
  abbrev pub is_version : String → Bool
  is_version String.[] = false
  is_version (String.◌∷◌ c s) = (code c == 118) && (elim s [
    | String.[] ↦ false
    | String.◌∷◌ d rest ↦ t.is_digit d && all_chars (λ x. not (code x == 10)) rest
  ])

  -- `s[0].upper() + s[1:]`
  abbrev pub upper_first : String → String
  upper_first String.[] = String.[]
  upper_first (String.◌∷◌ c s) = String.◌++◌ (t.upper (one c)) s

  -- The first character and the letter after the digits in upper case.
  abbrev pub upper_letters : String → String
  upper_letters String.[] = String.[]
  upper_letters (String.◌∷◌ c s) =
      let cut = span_digits t.is_digit s in
      String.◌++◌ (t.upper (one c))
        (if str_eq cut.1 "" then s else String.◌++◌ cut.0 (t.upper cut.1))

  abbrev pub starts_alpha : String → Bool
  starts_alpha String.[] = false
  starts_alpha (String.◌∷◌ c s) = t.is_alpha c

  -- A token whose lower case is known by no name.
  unfoldable pub normalize_unknown : String → String → String
  unfolding span_digits
  normalize_unknown low token =
      let cut = span_digits t.is_digit low in
      if not (str_eq cut.0 "") && (not (str_eq cut.1 "") && all_chars is_small cut.1)
      then String.◌++◌ cut.0 (t.upper cut.1)
      else if is_letter_number low
      then upper_letters low
      else if is_version low
      then upper_first low
      else if starts_alpha token
      then upper_first token
      else token

  unfoldable pub normalize_repo_token : String → String
  unfolding normalize_unknown
  normalize_repo_token token =
      if str_eq token ""
      then token
      else or_else (lookup (t.lower token) known_repo_token_case)
          (normalize_unknown (t.lower token) token)

  -- `"-".join(_normalize_repo_token(token) for token in repo.split("-"))`
  unfoldable pub canonical_repo : String → String
  unfolding map_tokens normalize_repo_token
  canonical_repo repo = map_tokens normalize_repo_token "" repo

  abbrev pub canonical_org : String → String
  canonical_org org = or_else (lookup (t.lower org) known_org_case) org

  unfoldable pub canonicalize_repo_id : String → String
  unfolding split_at canonical_repo
  canonicalize_repo_id repo_id = elim (split_at "/" repo_id) [
    | none ↦ repo_id
    | some p ↦ String.◌++◌ (canonical_org p.0) (String.◌++◌ "/" (canonical_repo p.1))
  ]

  -- Appends the stripped texts that are not blank and not there yet.
  abbrev pub add_stripped : List String → List String → List String
  add_stripped [] xs = xs
  add_stripped (y ∷ ys) xs =
      add_stripped ys (if str_eq (t.strip y) "" then xs else add_new (t.strip y) xs)

  unfoldable pub candidate_org_names : String → List String
  candidate_org_names org =
      add_stripped (org ∷ canonical_org org ∷ or_else (lookup (t.lower org) known_org_aliases) [])
        []

  -- `NVIDIA-Nemotron-Nano-VL-{middle}`
  abbrev pub reordered : String → String
  reordered canon =
      String.◌++◌ "NVIDIA-Nemotron-Nano-VL-" (remove_suffix (drop_chars 14 canon) "-VL")

  -- The names of a vendor's models, each group with its condition, from the vendor's name in lower case,
  -- the canonical and the given name.
  abbrev pub vendor_groups : String → String → String → List (Bool × List String)
  vendor_groups low canon repo =
      (str_eq low "meta-llama" && starts_with canon "Llama-", String.◌++◌ "Meta-" canon ∷ [])
      ∷ (
        str_eq low "stepfun-ai"
            && (starts_with canon "Step-"
                && not (ends_with canon "-FP8" || ends_with canon "-BF16")),
        with_suffixes canon ("-FP8" ∷ "-BF16" ∷ []),
      )
      ∷ (
        str_eq low "mistralai" && str_eq canon "Mistral-Small-3.1-24B-Instruct",
        with_suffixes canon ("-2503" ∷ []),
      )
      ∷ (
        str_eq low "nvidia" && starts_with canon "Nemotron",
        with_suffixes (String.◌++◌ "NVIDIA-" canon)
            ("" ∷ "-BF16" ∷ "-FP8" ∷ "-NVFP4" ∷ "-Base" ∷ []),
      )
      ∷ (
        str_eq low "nvidia"
            && (starts_with canon "Nemotron"
                && (starts_with canon "Nemotron-Nano-" && ends_with canon "-VL")),
        with_suffixes (reordered canon) ("" ∷ "-BF16" ∷ "-FP8" ∷ "-NVFP4" ∷ []),
      )
      ∷ (str_eq low "zai-org" && str_eq canon "GLM-4.5-Air", with_suffixes canon ("-FP8" ∷ []))
      ∷ (
        any (str_eq low) ("cohere" ∷ "coherelabs" ∷ "cohereforai" ∷ [])
            && starts_with (t.lower repo) "command-",
        String.◌++◌ "c4ai-" (t.lower repo) ∷ [],
      )
      ∷ []

  unfoldable pub vendor_names : String → String → String → List String
  unfolding ends_with remove_suffix drop_chars
  vendor_names low canon repo = chosen (vendor_groups low canon repo)

  unfoldable pub candidate_repo_names : String → String → List String
  unfolding canonical_repo vendor_names
  candidate_repo_names org repo =
      let canon = canonical_repo repo in
      add_each (vendor_names (t.lower org) canon repo) (add_stripped (repo ∷ canon ∷ []) [])

  -- The two spellings of the whole, of which one without a slash is passed over.
  abbrev pub add_ids : List String → List String → List String
  add_ids [] xs = xs
  add_ids (y ∷ ys) xs = add_ids ys (
      if str_eq (t.strip y) "" || not (contains "/" (t.strip y))
      then xs
      else add_new (t.strip y) xs)

  abbrev pub ids_under : String → List String → List String
  ids_under org repos = map (λ r. String.◌++◌ org (String.◌++◌ "/" r)) repos

  abbrev pub add_orgs : String → List String → List String → List String
  add_orgs repo [] xs = xs
  add_orgs repo (org ∷ orgs) xs =
      add_orgs repo orgs (add_stripped (ids_under org (candidate_repo_names org repo)) xs)

  unfoldable pub candidate_hf_repo_ids : Option String → List String
  unfolding remove_hint_suffix split_at canonicalize_repo_id candidate_org_names
      candidate_repo_names is_safe_hf_repo_component
  candidate_hf_repo_ids model_hint =
      let hint = t.strip (or_else model_hint "") in
      let sanitized = remove_hint_suffix hint in
      if str_eq hint "" || not (contains "/" hint) then [] else elim (split_at "/" sanitized) [
        | none ↦ []
        | some p ↦
            if contains "/" p.1 || contains "\\" sanitized
            then []
            else if not (is_safe_hf_repo_component p.0) || not (is_safe_hf_repo_component p.1)
            then []
            else add_orgs p.1 (candidate_org_names p.0)
                (add_ids (sanitized ∷ canonicalize_repo_id sanitized ∷ []) [])
      ]
