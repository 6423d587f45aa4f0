-- ===== src/Routing/Candidates.antt =====
-- The requests and candidates of src/routing.py, and what finds a candidate by its name.
-- A negative `min_context_window` or `min_output_tokens` admits what 0 admits, so both are naturals.
use Prim.Native.Nat.{max as max_ℕ}
use free_lunch.Prelude.{
  ℕ, ◌+◌, ◌-◌, String, Bool, true, false, not, ◌||◌, Option, none, some, List, [], ◌∷◌, ◌++◌,
  str_eq, if◌then◌else◌, length, take, select, any,
}
use free_lunch.Prelude.Int.{ℤ, pos, negsuc}

pub data Preference : Type 0 where
  balanced quality latency context reliability : Preference

pub record RoutingPreferences : Type 0 where
  pub preference : Preference
  pub max_latency_ms : Option ℕ
  pub min_context_tokens : Option ℕ

-- What the estimate is computed from (`token_estimation_*`) is of a type `Msgs`.
pub record RoutingRequirements (Msgs : Type 0) : Type 0 where
  pub requested_model : Option String
  pub requires_tools : Bool
  pub requires_vision : Bool
  pub requires_streaming : Bool
  pub requires_structured_output : Bool
  pub requires_system_messages : Bool
  pub min_context_window : ℕ
  pub min_output_tokens : ℕ
  pub token_estimation : Option Msgs

pub record Candidate (F : Type 0) : Type 0 where
  pub id : String
  pub provider_id : String
  pub provider_model_id : String
  pub composite_score : F
  pub avg_latency_ms : F
  pub avg_ttfb_ms : F
  pub context_window : ℕ
  pub consecutive_failures : ℕ
  pub backoff_level : ℕ
  pub tokenizer_family : Option String

-- `max(value, least)` with an optional least value
abbrev pub raise_to : ℕ → Option ℕ → ℕ
raise_to n none = n
raise_to n (some least) = max_ℕ n least

abbrev pub min_context : Option RoutingPreferences → Option ℕ
min_context none = none
min_context (some p) = p.min_context_tokens

-- `xs[:n]` at a Python integer
unfoldable pub slice_to : {A : Type 0} → ℤ → List A → List A
slice_to (pos n) xs = take n xs
slice_to (negsuc n) xs = take (length xs - (n + 1)) xs

-- `max(limit - 1, 0)`
abbrev pub before_last : ℤ → ℕ
before_last (pos n) = n - 1
before_last (negsuc n) = 0

-- `s.endswith(suffix)`
unfoldable pub ends_with : String → String → Bool
ends_with String.[] suffix = str_eq String.[] suffix
ends_with (String.◌∷◌ c s) suffix = str_eq (String.◌∷◌ c s) suffix || ends_with s suffix

-- `s.removesuffix(suffix)` for a suffix that is not empty
unfoldable pub remove_suffix : String → String → String
remove_suffix String.[] suffix = String.[]
remove_suffix (String.◌∷◌ c s) suffix =
    if str_eq (String.◌∷◌ c s) suffix then String.[] else String.◌∷◌ c (remove_suffix s suffix)

module _ {F : Type 0} where
  abbrev pub has_id : String → Candidate F → Bool
  has_id k c = str_eq c.id k

  -- `c["id"] == name or c["provider_model_id"] == name`
  abbrev pub is_named : String → Candidate F → Bool
  is_named name c = str_eq c.id name || str_eq c.provider_model_id name

  abbrev pub is_nonempty : List (Candidate F) → Bool
  is_nonempty [] = false
  is_nonempty (c ∷ cs) = true

  unfoldable pub match_explicit_model : List (Candidate F) → String → List (Candidate F)
  match_explicit_model cs requested =
      let exact = select (is_named requested) cs in
      if is_nonempty exact
      then exact
      else if ends_with requested ":free"
      then select (is_named (remove_suffix requested ":free")) cs
      else []

  -- `explicit` and then the candidates whose id is not among its ids.
  abbrev pub explicit_first : List (Candidate F) → List (Candidate F) → List (Candidate F)
  explicit_first explicit cs = explicit ++ select (λ c. not (any (has_id c.id) explicit)) cs

  -- `next((c for c in cs if c["id"] == k), None)`
  abbrev pub find : String → List (Candidate F) → Option (Candidate F)
  find k [] = none
  find k (c ∷ cs) = if has_id k c then some c else find k cs
