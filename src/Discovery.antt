-- ===== src/Discovery.antt =====
-- src/discover.py: the metadata of a discovered model, and the run over the providers. Its parameters are
-- `str.lower`, the readings of a rank, the cache of src/db.py and what each provider answers.
pub mod Enriched
pub mod Seen
mod Tests
use Prim.Native.Char.{Char, code}
use Prim.Native.String
use free_lunch.Floats.{Floats, zero_f}
use free_lunch.Prelude.Int.{ℤ, pos, negsuc}
use free_lunch.Benchmarks.Names.{normalize_model_name}
use free_lunch.Benchmarks.Cache.{Scored}
use free_lunch.Database.Models.{Model, new_row}
use free_lunch.Database.Writes.{Write, upsert_model}
use free_lunch.Database.Activation.{mark_models_not_seen}
use free_lunch.Prelude.{
  ℕ, ◌+◌, String, Bool, true, false, ◌&&◌, ◌||◌, Option, none, some, List, [], ◌∷◌, ◌++◌, map, ltb,
  ◌==◌, str_eq, if◌then◌else◌, any, or_else, is_some, length,
}

-- The value under a rank's key: none, a truth value, a number, a text, or something else.
pub data RankValue (F : Type 0) : Type 0 where
  absent : RankValue F
  truth : Bool → RankValue F
  whole : ℤ → RankValue F
  fraction : F → RankValue F
  word : String → RankValue F
  other : RankValue F

-- The dictionary of a discovered model. A key that is missing is `none`, where a default takes its place.
pub record Found (F : Type 0) : Type 0 where
  pub id : String
  pub name : String
  pub provider_id : String
  pub provider_model_id : String
  pub provider_base_url : String
  pub provider_api_key_env : String
  pub endpoint_id : Option String
  pub provider_options_json : Option String
  pub context_window : Option (Option ℕ)
  pub max_output_tokens : Option ℕ
  pub supports_tools : Option Bool
  pub supports_streaming : Option Bool
  pub supports_vision : Option Bool
  pub supports_structured_output : Option Bool
  pub supports_system_messages : Option Bool
  pub tokenizer_family : Option String
  pub provider_rank : RankValue F
  pub openrouter_rank : RankValue F
  pub chatbot_arena_elo : Option F
  pub open_llm_score : Option F
  pub is_healthy : Option Bool

-- What Python's `int` makes of a float or a text, where it does not raise, and `str.lower`.
pub record Readings (F : Type 0) : Type 0 where
  pub int_of_float : F → Option ℤ
  pub int_of_text : String → Option ℤ
  pub lower : String → String

abbrev positive : Option ℤ → Option ℕ
positive none = none
positive (some (pos n)) = if ltb 0 n then some n else none
positive (some (negsuc n)) = none

-- `a` unless it is None
abbrev pub first_some {ℓ} : {A : Type ℓ} → Option A → Option A → Option A
first_some none b = b
first_some (some x) b = some x

-- Whether a text has a slash, and what follows the last one.
abbrev has_slash : String → Bool
has_slash String.[] = false
has_slash (String.◌∷◌ c s) = (code c == 47) || has_slash s

abbrev last_part : String → String
last_part String.[] = String.[]
last_part (String.◌∷◌ c s) =
    let rest = last_part s in
    if has_slash s then rest else (if code c == 47 then s else String.◌∷◌ c s)

-- `removesuffix(":free")`
abbrev remove_free : String → String
remove_free String.[] = String.[]
remove_free (String.◌∷◌ c s) =
    let rest = remove_free s in
    if str_eq (String.◌∷◌ c s) ":free" then String.[] else String.◌∷◌ c rest

module _ {F : Type 0} where
  abbrev pub with_scores : Found F → Option F × Option F → Found F
  with_scores f v = record f { chatbot_arena_elo = v.0; open_llm_score = v.1 }

  -- The loop over the keys, with the scores found so far.
  unfoldable pub fill_scores :
      (String → Option (Scored F)) → List String → Option F × Option F → Option F × Option F
  fill_scores cached [] v = v
  fill_scores cached (k ∷ ks) v = elim (cached k) [
    | none ↦ fill_scores cached ks v
    | some r ↦
        let w : Option F × Option F =
          (first_some v.0 r.chatbot_arena_elo, first_some v.1 r.open_llm_avg_score) in
        let rest = fill_scores cached ks w in if is_some w.0 && is_some w.1 then w else rest
  ]

module _ {F : Type 0} (read : Readings F) where
  -- `int` of an infinite float, which raises OverflowError here, is not modelled: no adapter gives one.
  abbrev pub coerce_rank : RankValue F → Option ℕ
  coerce_rank absent = none
  coerce_rank (truth b) = none
  coerce_rank (whole n) = positive (some n)
  coerce_rank (fraction x) = positive (read.int_of_float x)
  coerce_rank (word s) = positive (read.int_of_text s)
  coerce_rank other = none

  -- The rank at the provider, and the one at OpenRouter.
  abbrev pub resolve_rank_metadata : Found F → Option ℕ × Option ℕ
  resolve_rank_metadata f =
      let openrouter = coerce_rank f.openrouter_rank in
      let provider = first_some (coerce_rank f.provider_rank) openrouter in
      (
        provider,
        if str_eq f.provider_id "openrouter" then first_some openrouter provider else openrouter,
      )

  -- A key is added, if it is not empty or there already.
  abbrev pub add_key : String → List String → List String
  add_key candidate keys =
      let k = normalize_model_name read.lower candidate in
      if str_eq k "" || any (str_eq k) keys then keys else keys ++ k ∷ []

  abbrev pub add_keys : String → List String → List String
  add_keys raw keys =
      if str_eq raw ""
      then keys
      else let value = remove_free raw in
        if has_slash value
        then add_key (last_part value) (add_key value keys)
        else add_key value keys

  unfoldable pub benchmark_lookup_keys : Found F → List String
  benchmark_lookup_keys f = add_keys f.id (add_keys f.name (add_keys f.provider_model_id []))

  unfoldable pub apply_cached_benchmarks : (String → Option (Scored F)) → Found F → Found F
  apply_cached_benchmarks cached f =
      let found : Option F × Option F = (f.chatbot_arena_elo, f.open_llm_score) in
      let scores = fill_scores cached (benchmark_lookup_keys f) found in
      if is_some f.chatbot_arena_elo && is_some f.open_llm_score then f else with_scores f scores

module _ {F : Type 0} ⦃fl : Floats F⦄ (read : Readings F) where
  -- The row that is inserted, with the table's defaults in the columns that the statement leaves out.
  unfoldable pub discovered_row : ℕ → Found F → Model F
  discovered_row now f =
      let ranks : Option ℕ × Option ℕ = resolve_rank_metadata read f in
      record (new_row zero_f f.id f.provider_id f.provider_model_id) {
        name = f.name;
        provider_base_url = f.provider_base_url;
        provider_api_key_env = f.provider_api_key_env;
        endpoint_id = f.endpoint_id;
        provider_options_json = f.provider_options_json;
        context_window = or_else f.context_window (some 4096);
        max_output_tokens = f.max_output_tokens;
        supports_tools = or_else f.supports_tools false;
        supports_streaming = or_else f.supports_streaming true;
        supports_vision = or_else f.supports_vision false;
        supports_structured_output = or_else f.supports_structured_output false;
        supports_system_messages = or_else f.supports_system_messages true;
        tokenizer_family = f.tokenizer_family;
        provider_rank = ranks.0;
        openrouter_rank = ranks.1;
        chatbot_arena_elo = f.chatbot_arena_elo;
        open_llm_score = f.open_llm_score;
        is_healthy = or_else f.is_healthy true;
        discovered_at = now;
        last_seen_at = now;
        score_updated_at = some now;
      }

  unfoldable pub upsert_found : ℕ → (String → Option (Scored F)) → Found F → Write F
  unfolding discovered_row apply_cached_benchmarks
  upsert_found now cached f =
      upsert_model (discovered_row now (apply_cached_benchmarks read cached f))

  -- The statements of one provider's turn.
  unfoldable pub discover_provider :
      ℕ → (String → Option (Scored F)) → String → List (Found F) → List (Write F)
  unfolding upsert_found mark_models_not_seen
  discover_provider now cached provider found =
      map (upsert_found now cached) found ++ mark_models_not_seen provider (map (λ f. f.id) found)

  -- The statements of a run, and the number of models that it found. A provider comes with its name and
  -- its answer, or with none where it raises, which ends the run.
  unfoldable pub run_discovery :
      ℕ
      → (String → Option (Scored F))
      → List (String × Option (List (Found F)))
      → List (Write F) × Option ℕ
  unfolding discover_provider
  run_discovery now cached [] = ([], some 0)
  run_discovery now cached ((provider, none) ∷ ps) = ([], none)
  run_discovery now cached ((provider, some found) ∷ ps) =
      let rest = run_discovery now cached ps in
      (
        discover_provider now cached provider found ++ rest.0,
        elim rest.1 [ none ↦ none | some n ↦ some (length found + n) ],
      )
