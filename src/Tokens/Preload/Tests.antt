-- ===== src/Tokens/Preload/Tests.antt =====
-- A preload of src/tokens.py that succeeds, and one that comes too late.
use free_lunch.Tokens.Preload.{
  Preloads, no_preloads, PreloadAction, schedule, work_loads, work_ends, future_done, clear,
  result_of, load, load_hf_tokenizer, schedule_tokenizer_preload, tokenizer_future_done,
  act_preload, run_preloads,
}
use free_lunch.Tokens.Preload.Futures.{WasLoaded, tokenizer-kept}
use mathlib.Core.Option
use free_lunch.Prelude.{Option, ℕ, String, ◌≡◌, refl, Bool, true, false, some, List, [], ◌∷◌}

abbrev all_wanted : String → Bool
all_wanted hint = true

-- The first future ends, a second one takes its place before its callback, and the second's tokenizer is
-- kept.
abbrev loading : List (PreloadAction ℕ)
loading =
    load "m"
    ∷ work_ends 0
    ∷ schedule "m"
    ∷ future_done 0 "m" false
    ∷ work_loads 1 "m" 7
    ∷ work_ends 1
    ∷ future_done 1 "m" false
    ∷ []

abbrev loaded : Preloads ℕ
loaded = record {
  cache = ("m", 7) ∷ [];
  futures = [];
  loaded = (1, "m", 7) ∷ [];
  done = 1 ∷ 0 ∷ [];
  pending_callbacks = [];
  next = 2;
  executor = true;
}

loads : run_preloads all_wanted loading no_preloads ≡ some loaded
unfolding run_preloads act_preload schedule_tokenizer_preload load_hf_tokenizer
    tokenizer_future_done result_of
loads = refl

abbrev later : Preloads ℕ
later = record loaded { futures = ("n", 2) ∷ []; pending_callbacks = (2, "n") ∷ []; next = 3 }

goes_on : run_preloads all_wanted (schedule "m" ∷ schedule "n" ∷ []) loaded ≡ some later
unfolding run_preloads act_preload schedule_tokenizer_preload
goes_on = refl

-- The cache is cleared while a work is running, which then fills it again: its future is forgotten, but the
-- work writes the cache itself.
abbrev cleared : Option (Preloads ℕ)
cleared =
    run_preloads all_wanted
      (load "m" ∷ clear ∷ work_loads 0 "m" 5 ∷ work_ends 0 ∷ future_done 0 "m" false ∷ [])
      no_preloads

fills_cleared_cache : Option.map (λ p. p.cache) cleared ≡ some (("m", 5) ∷ [])
unfolding run_preloads act_preload schedule_tokenizer_preload load_hf_tokenizer
    tokenizer_future_done result_of
fills_cleared_cache = refl

tokenizer-kept_example :
    (t : ℕ) × ((load_hf_tokenizer all_wanted "m" later).1 ≡ some t)
    × WasLoaded "m" t later.loaded
    × ((schedule_tokenizer_preload all_wanted "m" later).1 ≡ false)
tokenizer-kept_example =
    tokenizer-kept all_wanted loading (schedule "m" ∷ schedule "n" ∷ []) "m" loaded later loads refl
      (refl, (refl, tt)) goes_on
