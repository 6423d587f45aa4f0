-- ===== src/Benchmarks/Cache/Tests.antt =====
-- A refresh of the cache of src/benchmarks.py in which one source gives nothing.
use free_lunch.Dict.{Dict}
use free_lunch.Benchmarks.Cache.{
  Scored, upsert_leaderboard_cache, put_arena, put_llm, upsert_merged, refresh_leaderboard_cache,
  write_scores, SourceRun, get_leaderboard_cache,
}
use free_lunch.Benchmarks.Cache.Merge.{stored}
use free_lunch.Prelude.{◌≡◌, refl, true, none, some, [], ◌∷◌}
use free_lunch.Prelude.Int.{ℤ, pos}

abbrev old_row : Scored ℤ
old_row = record {
  model_name = "qwen";
  chatbot_arena_elo = some (pos 1200);
  open_llm_avg_score = some (pos 40);
  fetched_at = 100;
}

abbrev new_elo : Dict ℤ
new_elo = ("phi", pos 900) ∷ ("qwen", pos 1300) ∷ []

abbrev arena : SourceRun ℤ
arena = record { enabled = true; cache_hours = 24; result = some new_elo }

-- This source fails.
abbrev no_llm : SourceRun ℤ
no_llm = record { enabled = true; cache_hours = 24; result = none }

still_there :
    stored "qwen" (refresh_leaderboard_cache 90000 arena no_llm (old_row ∷ [])).0
    ≡ (some (pos 1300), some (pos 40))
unfolding refresh_leaderboard_cache write_scores put_arena put_llm upsert_merged
    upsert_leaderboard_cache stored
still_there = refl

too_old : get_leaderboard_cache 90000 24 "qwen" (old_row ∷ []) ≡ none
unfolding get_leaderboard_cache
too_old = refl
