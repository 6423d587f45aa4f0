-- ===== src/Benchmarks/Cache.antt =====
-- The `leaderboard_cache` table of src/db.py, its reads and writes, and the part of
-- `refresh_leaderboard_cache` of src/benchmarks.py between the sources' results and the table. A time
-- is in seconds.
pub mod Merge
mod Tests
use free_lunch.Dict.{Dict, lookup, insert}
use free_lunch.Prelude.{
  ℕ, suc, ◌+◌, ◌*◌, String, Bool, true, false, ◌&&◌, Option, none, some, List, [], ◌∷◌, map, str_eq,
  leb, ltb, max, if◌then◌else◌, is_some, length, select, or_else,
}

pub record Scored (F : Type 0) : Type 0 where
  pub model_name : String
  pub chatbot_arena_elo : Option F
  pub open_llm_avg_score : Option F
  pub fetched_at : ℕ

-- A source as the settings have it: whether it is on, and for how many hours its entries are kept; and
-- what it answers, if it answers.
pub record SourceRun (F : Type 0) : Type 0 where
  pub enabled : Bool
  pub cache_hours : ℕ
  pub result : Option (Dict F)

module _ {F : Type 0} where
  -- `COALESCE(new, old)`
  abbrev pub coalesce : Option F → Option F → Option F
  coalesce none old = old
  coalesce (some x) old = some x

  -- The upsert, at the time `now`.
  unfoldable pub upsert_leaderboard_cache :
      ℕ → String → Option F → Option F → List (Scored F) → List (Scored F)
  upsert_leaderboard_cache now k arena llm [] =
      record {
        model_name = k;
        chatbot_arena_elo = arena;
        open_llm_avg_score = llm;
        fetched_at = now;
      }
      ∷ []
  upsert_leaderboard_cache now k arena llm (r ∷ rows) =
      let rest = upsert_leaderboard_cache now k arena llm rows in
      if str_eq r.model_name k
      then record {
        model_name = r.model_name;
        chatbot_arena_elo = coalesce arena r.chatbot_arena_elo;
        open_llm_avg_score = coalesce llm r.open_llm_avg_score;
        fetched_at = now;
      }
        ∷ rows
      else r ∷ rest

  -- `fetched_at >= now - hours`
  abbrev pub is_fresh : ℕ → ℕ → Scored F → Bool
  is_fresh now hours r = leb now (r.fetched_at + hours * 3600)

  unfoldable pub get_leaderboard_cache : ℕ → ℕ → String → List (Scored F) → Option (Scored F)
  get_leaderboard_cache now hours k [] = none
  get_leaderboard_cache now hours k (r ∷ rows) =
      if str_eq r.model_name k && is_fresh now hours r
      then some r
      else get_leaderboard_cache now hours k rows

  -- The column is a parameter, as in the query's text.
  abbrev pub count_cached_source_entries : (Scored F → Option F) → ℕ → ℕ → List (Scored F) → ℕ
  count_cached_source_entries column now hours rows =
      length (select (λ r. is_some (column r) && is_fresh now (max hours 1) r) rows)

  abbrev pub source_cache_ready : (Scored F → Option F) → ℕ → ℕ → List (Scored F) → Bool
  source_cache_ready column now hours rows =
      ltb 0 (count_cached_source_entries column now hours rows)

  -- What the refresh of one source gives: no scores where it is disabled, its entries are recent
  -- enough, or it fails.
  abbrev pub source_scores :
      Bool → ℕ → ℕ → (Scored F → Option F) → List (Scored F) → Option (Dict F) → Dict F
  source_scores enabled now hours column rows result =
      if enabled
      then (if source_cache_ready column now hours rows then [] else or_else result [])
      else []

  -- `merged.setdefault(key, {})[column] = score`, for each of a source's scores
  abbrev pub entry : String → Dict (Option F × Option F) → Option F × Option F
  entry k d = or_else (lookup k d) (none, none)

  unfoldable pub put_arena : Dict F → Dict (Option F × Option F) → Dict (Option F × Option F)
  put_arena [] d = d
  put_arena ((k, x) ∷ xs) d = put_arena xs (insert k (some x, (entry k d).1) d)

  unfoldable pub put_llm : Dict F → Dict (Option F × Option F) → Dict (Option F × Option F)
  put_llm [] d = d
  put_llm ((k, x) ∷ xs) d = put_llm xs (insert k ((entry k d).0, some x) d)

  unfoldable pub upsert_merged : ℕ → Dict (Option F × Option F) → List (Scored F) → List (Scored F)
  unfolding upsert_leaderboard_cache
  upsert_merged now [] rows = rows
  upsert_merged now ((k, v) ∷ d) rows =
      upsert_merged now d (upsert_leaderboard_cache now k v.0 v.1 rows)

  -- The scores of both sources put together and written: the table, and the number of entries.
  unfoldable pub write_scores : ℕ → Dict F → Dict F → List (Scored F) → List (Scored F) × ℕ
  unfolding put_arena put_llm upsert_merged
  write_scores now arena llm rows =
      let merged = put_llm llm (put_arena arena []) in
      (upsert_merged now merged rows, length merged)

  abbrev pub arena_scores : ℕ → SourceRun F → List (Scored F) → Dict F
  arena_scores now a rows =
      source_scores a.enabled now a.cache_hours (λ r. r.chatbot_arena_elo) rows a.result

  abbrev pub llm_scores : ℕ → SourceRun F → List (Scored F) → Dict F
  llm_scores now l rows =
      source_scores l.enabled now l.cache_hours (λ r. r.open_llm_avg_score) rows l.result

  unfoldable pub refresh_leaderboard_cache :
      ℕ → SourceRun F → SourceRun F → List (Scored F) → List (Scored F) × ℕ
  unfolding write_scores
  refresh_leaderboard_cache now a l rows =
      write_scores now (arena_scores now a rows) (llm_scores now l rows) rows
