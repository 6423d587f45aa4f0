-- ===== src/Discovery/Tests.antt =====
-- A turn of src/discover.py in which a provider names one model of two.
use free_lunch.Prelude.{Bool, String, ◌≡◌, refl, true, false, Option, none, some, [], ◌∷◌, map}
use free_lunch.Prelude.Int.{ℤ, pos}
use free_lunch.Floats.{thousandths}
use free_lunch.Benchmarks.Names.{normalize_model_name}
use free_lunch.Benchmarks.Cache.{Scored}
use free_lunch.Database.Models.{Table, new_row}
use free_lunch.Database.Writes.{apply_write, flush, upsert_row}
use free_lunch.Database.Activation.{mark_models_not_seen}
use free_lunch.Discovery.{
  Found, RankValue, Readings, benchmark_lookup_keys, fill_scores, apply_cached_benchmarks,
  with_scores, discovered_row, upsert_found, discover_provider,
}
use free_lunch.Discovery.Enriched.{own_first, cached_scores, apply_cached_benchmarks-first}
use free_lunch.Discovery.Seen.{IsSeen, discover_provider-IsSeen}

abbrev readings : Readings ℤ
readings = record { int_of_float = λ x. none; int_of_text = λ s. none; lower = λ s. s }

abbrev nothing_cached : String → Option (Scored ℤ)
nothing_cached k = none

abbrev all_cached : String → Option (Scored ℤ)
all_cached k = some (record {
  model_name = k;
  chatbot_arena_elo = some (pos 1200);
  open_llm_avg_score = none;
  fetched_at = 0;
})

abbrev phi : Found ℤ
phi = record {
  id = "p/phi:free";
  name = "Phi";
  provider_id = "p";
  provider_model_id = "phi:free";
  provider_base_url = "";
  provider_api_key_env = "";
  endpoint_id = none;
  provider_options_json = none;
  context_window = none;
  max_output_tokens = none;
  supports_tools = none;
  supports_streaming = none;
  supports_vision = none;
  supports_structured_output = none;
  supports_system_messages = none;
  tokenizer_family = none;
  provider_rank = RankValue.whole (pos 3);
  openrouter_rank = RankValue.absent;
  chatbot_arena_elo = none;
  open_llm_score = some (pos 5);
  is_healthy = none;
}

its_keys : benchmark_lookup_keys readings phi ≡ "phi" ∷ "hi" ∷ "p phi" ∷ []
unfolding benchmark_lookup_keys normalize_model_name
its_keys = refl

abbrev table : Table ℤ
table =
    record (new_row (pos 0) "p/phi:free" "p" "phi") { is_active = false; is_healthy = false }
    ∷ new_row (pos 0) "p/b" "p" "b"
    ∷ []

-- A row that was switched off, or marked as unhealthy, is active and healthy again.
switched_on :
    map {B = Bool × Bool}
      (λ m. (m.is_active, m.is_healthy))
      (flush (discover_provider readings 7 nothing_cached "p" (phi ∷ [])) table)
    ≡ (true, true) ∷ (false, true) ∷ []
unfolding flush discover_provider mark_models_not_seen upsert_found discovered_row
    apply_cached_benchmarks fill_scores benchmark_lookup_keys normalize_model_name apply_write
    upsert_row
switched_on = refl

apply_cached_benchmarks-first_example :
    apply_cached_benchmarks readings all_cached phi
    ≡ with_scores phi
        (own_first phi (cached_scores all_cached (benchmark_lookup_keys readings phi)))
apply_cached_benchmarks-first_example = apply_cached_benchmarks-first readings all_cached phi

discover_provider-IsSeen_example :
    IsSeen readings 7 nothing_cached "p"
      (phi ∷ [])
      (flush (discover_provider readings 7 nothing_cached "p" (phi ∷ [])) table)
discover_provider-IsSeen_example =
    discover_provider-IsSeen readings 7 nothing_cached "p" (phi ∷ []) table
