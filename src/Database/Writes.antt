-- ===== src/Database/Writes.antt =====
-- The statements on `models` that src/health.py, src/db.py and src/main.py hand to the writer
-- thread, and what each does when the thread runs it.
use free_lunch.Prelude.{
  ℕ, ◌+◌, String, Bool, true, false, not, ◌&&◌, Option, none, some, List, [], ◌∷◌, str_eq, leb,
  if◌then◌else◌, any,
}
use free_lunch.Floats.{Floats}
use free_lunch.Database.Models.{Model, Table, update_where, has_id}

pub data Write (F : Type 0) : Type 0 where
  -- id, now, error, backoff level, end of the cooldown, failure threshold
  record_failure : String → ℕ → String → ℕ → ℕ → ℕ → Write F
  -- id, now, time of the probe, latency, time to the first byte
  record_success : String → ℕ → Option ℕ → Option F → Option F → Write F
  set_active : String → Bool → Write F
  deactivate_unseen : String → List String → Write F
  deactivate_provider : String → Write F
  -- the row that is inserted
  upsert_model : Model F → Write F
  -- id, score, now
  set_score : String → F → ℕ → Write F

module _ {F : Type 0} ⦃fl : Floats F⦄ where
  -- ROLLING_METRIC_ALPHA
  abbrev pub alpha : F
  alpha = fl.decimal 3 1

  -- The `CASE` on an average: a missing value keeps it, the first value sets it.
  unfoldable pub rolling : Option F → Option F → Option F
  rolling none old = old
  rolling (some v) none = some v
  rolling (some v) (some old) =
      some (fl.add (fl.mul old (fl.sub (fl.decimal 1 0) alpha)) (fl.mul v alpha))

  -- The `SET` clause of `mark_failure`; the right-hand sides read the old row.
  unfoldable pub failed_row : ℕ → String → ℕ → ℕ → ℕ → Model F → Model F
  failed_row now error backoff cooldown threshold m = record m {
    consecutive_failures = m.consecutive_failures + 1;
    last_failure_at = some now;
    last_error = some error;
    backoff_level = backoff;
    cooldown_until = some cooldown;
    is_healthy = if leb threshold (m.consecutive_failures + 1) then false else m.is_healthy;
  }

  -- The `SET` clause of `mark_success`.
  unfoldable pub succeeded_row : ℕ → Option ℕ → Option F → Option F → Model F → Model F
  unfolding rolling
  succeeded_row now probed latency ttfb m = record m {
    consecutive_failures = 0;
    backoff_level = 0;
    cooldown_until = none;
    is_healthy = true;
    last_error = none;
    last_success_at = some now;
    last_routed_at = some now;
    last_health_check = some now;
    last_probe_at = elim probed [ none ↦ m.last_probe_at | some t ↦ some t ];
    avg_latency_ms = rolling latency m.avg_latency_ms;
    avg_ttfb_ms = rolling ttfb m.avg_ttfb_ms;
  }

  abbrev pub activated : Bool → Model F → Model F
  activated b m = record m { is_active = b }

  -- The `SET` clause of `recompute_ranking`.
  abbrev pub scored_row : F → ℕ → Model F → Model F
  scored_row score now m = record m { composite_score = score; score_updated_at = some now }

  -- The `ON CONFLICT(id) DO UPDATE SET` of src/discover.py.
  abbrev pub merged_row : Model F → Model F → Model F
  merged_row new m = record m {
    name = new.name;
    provider_id = new.provider_id;
    endpoint_id = new.endpoint_id;
    provider_model_id = new.provider_model_id;
    provider_base_url = new.provider_base_url;
    provider_api_key_env = new.provider_api_key_env;
    provider_options_json = new.provider_options_json;
    is_active = true;
    last_seen_at = new.last_seen_at;
    is_healthy = new.is_healthy;
    supports_tools = new.supports_tools;
    supports_streaming = new.supports_streaming;
    supports_vision = new.supports_vision;
    supports_structured_output = new.supports_structured_output;
    supports_system_messages = new.supports_system_messages;
    context_window = new.context_window;
    max_output_tokens = new.max_output_tokens;
    tokenizer_family = new.tokenizer_family;
    provider_rank = new.provider_rank;
    openrouter_rank = new.openrouter_rank;
    chatbot_arena_elo = new.chatbot_arena_elo;
    open_llm_score = new.open_llm_score;
  }

  unfoldable pub upsert_row : Model F → Table F → Table F
  upsert_row new [] = new ∷ []
  upsert_row new (m ∷ ms) =
      let rest = upsert_row new ms in if str_eq m.id new.id then merged_row new m ∷ ms else m ∷ rest

  unfoldable pub apply_write : Write F → Table F → Table F
  unfolding failed_row succeeded_row upsert_row
  apply_write (record_failure id now error backoff cooldown threshold) t =
      update_where (has_id id) (failed_row now error backoff cooldown threshold) t
  apply_write (record_success id now probed latency ttfb) t =
      update_where (has_id id) (succeeded_row now probed latency ttfb) t
  apply_write (set_active id b) t = update_where (has_id id) (activated b) t
  apply_write (deactivate_unseen provider seen) t =
      update_where (λ m. str_eq m.provider_id provider && not (any (str_eq m.id) seen))
        (activated false) t
  apply_write (deactivate_provider provider) t =
      update_where (λ m. str_eq m.provider_id provider && m.is_active) (activated false) t
  apply_write (upsert_model new) t = upsert_row new t
  apply_write (set_score id score now) t = update_where (has_id id) (scored_row score now) t

  -- The writer thread runs the queue in order.
  unfoldable pub flush : List (Write F) → Table F → Table F
  flush [] t = t
  flush (w ∷ ws) t = flush ws (apply_write w t)
