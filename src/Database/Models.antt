-- ===== src/Database/Models.antt =====
-- The `models` table of src/db.py. `REAL` columns hold a float of type `F`; the 0/1 columns are
-- Booleans; an ISO timestamp is its instant in seconds, which orders as the text does.
use free_lunch.Prelude.{
  ℕ, String, ◌≡◌, Bool, true, false, Option, none, some, List, [], ◌∷◌, arith, str_eq, eq_iff,
  if◌then◌else◌,
}

pub record Model (F : Type 0) : Type 0 where
  pub id : String
  pub name : String
  pub provider_id : String
  pub endpoint_id : Option String
  pub provider_model_id : String
  pub provider_base_url : String
  pub provider_api_key_env : String
  pub provider_options_json : Option String
  pub context_window : Option ℕ
  pub max_output_tokens : Option ℕ
  pub tokenizer_family : Option String
  pub supports_tools : Bool
  pub supports_streaming : Bool
  pub supports_vision : Bool
  pub supports_structured_output : Bool
  pub supports_system_messages : Bool
  pub chatbot_arena_elo : Option F
  pub open_llm_score : Option F
  pub provider_rank : Option ℕ
  pub openrouter_rank : Option ℕ
  pub is_healthy : Bool
  pub last_health_check : Option ℕ
  pub avg_latency_ms : Option F
  pub avg_ttfb_ms : Option F
  pub consecutive_failures : ℕ
  pub backoff_level : ℕ
  pub cooldown_until : Option ℕ
  pub last_error : Option String
  pub last_probe_at : Option ℕ
  pub last_success_at : Option ℕ
  pub last_failure_at : Option ℕ
  pub last_routed_at : Option ℕ
  pub composite_score : F
  pub score_updated_at : Option ℕ
  pub discovered_at : ℕ
  pub last_seen_at : ℕ
  pub is_active : Bool

abbrev pub Table : Type 0 → Type 0
Table F = List (Model F)

module _ {F : Type 0} where
  -- `SELECT … WHERE id=?`
  abbrev pub find_model : String → Table F → Option (Model F)
  find_model k [] = none
  find_model k (m ∷ ms) = if str_eq m.id k then some m else find_model k ms

  -- `UPDATE … WHERE …`
  abbrev pub update_where : (Model F → Bool) → (Model F → Model F) → Table F → Table F
  update_where p f [] = []
  update_where p f (m ∷ ms) = (if p m then f m else m) ∷ update_where p f ms

  abbrev pub has_id : String → Model F → Bool
  has_id k m = str_eq m.id k

  -- The primary key: no id is listed twice.
  abbrev pub HasUniqueIds : Table F → Type 0
  HasUniqueIds [] = Unit
  HasUniqueIds (m ∷ ms) = (find_model m.id ms ≡ none) × HasUniqueIds ms

  -- An update of one row by its id is seen by a read of that row and by no other read.
  pub find_model-update :
      (k j : String) (f : Model F → Model F) (ms : Table F)
      → ((m : Model F) → (f m).id ≡ m.id)
      → find_model j (update_where (has_id k) f ms) ≡ (
          if str_eq k j
          then elim (find_model j ms) [ none ↦ none | some m ↦ some (f m) ]
          else find_model j ms)
  find_model-update k j f [] h = ground arith
  find_model-update k j f (m ∷ ms) h =
      ground (arith, find_model-update k j f ms h, h m, eq_iff k j, eq_iff m.id k, eq_iff m.id j)

-- A row as `INSERT` leaves it when only the columns without a default are given.
abbrev pub new_row : {F : Type 0} → F → String → String → String → Model F
new_row zero id provider_id provider_model_id = record {
  id = id;
  name = id;
  provider_id = provider_id;
  endpoint_id = none;
  provider_model_id = provider_model_id;
  provider_base_url = "";
  provider_api_key_env = "";
  provider_options_json = none;
  context_window = some 4096;
  max_output_tokens = none;
  tokenizer_family = none;
  supports_tools = false;
  supports_streaming = true;
  supports_vision = false;
  supports_structured_output = false;
  supports_system_messages = true;
  chatbot_arena_elo = none;
  open_llm_score = none;
  provider_rank = none;
  openrouter_rank = none;
  is_healthy = true;
  last_health_check = none;
  avg_latency_ms = none;
  avg_ttfb_ms = none;
  consecutive_failures = 0;
  backoff_level = 0;
  cooldown_until = none;
  last_error = none;
  last_probe_at = none;
  last_success_at = none;
  last_failure_at = none;
  last_routed_at = none;
  composite_score = zero;
  score_updated_at = none;
  discovered_at = 0;
  last_seen_at = 0;
  is_active = true;
}
