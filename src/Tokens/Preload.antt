-- ===== src/Tokens/Preload.antt =====
-- The tokenizers that src/tokens.py loads in the background: `_load_hf_tokenizer`,
-- `schedule_tokenizer_preload`, the work of a future in `_load_hf_tokenizer_blocking`,
-- `_tokenizer_future_done`, `shutdown_tokenizer_preloads` and `_clear_hf_tokenizer_cache`. A future is a
-- number; each action is one stretch under the lock, so a run is any order in which the threads may take it
-- (the two stretches of `_load_hf_tokenizer`, of which the first only reads, are one action). Which names are
-- worth a preload is a parameter, and a tokenizer is a value of any type.
pub mod Futures
mod Tests
use free_lunch.Dict.{Dict, lookup, insert, erase, contains}
use free_lunch.Prelude.{
  ℕ, suc, ◌+◌, String, str_eq, Bool, true, false, not, ◌&&◌, Option, none, some, List, [], ◌∷◌,
  ◌==◌, ltb, if◌then◌else◌, any, is_some, select,
}

pub record Preloads (T : Type 0) : Type 0 where
  pub cache : Dict T
  pub futures : Dict ℕ
  -- what the works have loaded so far, the newest first, with the future and the name
  pub loaded : List (ℕ × String × T)
  -- the futures whose work has ended, those whose callback has not run yet, and the next number
  pub done : List ℕ
  pub pending_callbacks : List (ℕ × String)
  pub next : ℕ
  -- whether there is an executor
  pub executor : Bool

abbrev pub no_preloads : {T : Type 0} → Preloads T
no_preloads = record {
  cache = [];
  futures = [];
  loaded = [];
  done = [];
  pending_callbacks = [];
  next = 0;
  executor = false;
}

-- What a caller does, and what the executor does.
pub data PreloadAction (T : Type 0) : Type 0 where
  -- `schedule_tokenizer_preload`
  schedule : String → PreloadAction T
  -- `_load_hf_tokenizer`
  load : String → PreloadAction T
  -- the work of a future has loaded a tokenizer for its name
  work_loads : ℕ → String → T → PreloadAction T
  -- the work of a future ends, or it is cancelled
  work_ends : ℕ → PreloadAction T
  -- the callback of a future, and whether `future.result()` raises
  future_done : ℕ → String → Bool → PreloadAction T
  -- `_clear_hf_tokenizer_cache`
  clear : PreloadAction T
  -- `shutdown_tokenizer_preloads`
  shut_down : PreloadAction T

module _ {T : Type 0} where
  abbrev pub is_done : Preloads T → ℕ → Bool
  is_done p f = any (λ g. g == f) p.done

  -- A name's future that has not ended.
  abbrev pub is_running : Preloads T → String → Bool
  is_running p hint = elim (lookup hint p.futures) [ none ↦ false | some f ↦ not (is_done p f) ]

  -- A new future for the name.
  abbrev pub submit : String → Preloads T → Preloads T
  submit hint p = record p {
    futures = insert hint p.next p.futures;
    pending_callbacks = (p.next, hint) ∷ p.pending_callbacks;
    next = suc p.next;
    executor = true;
  }

  module _ (wanted : String → Bool) where
    -- The state after the call, and whether it scheduled a preload.
    unfoldable pub schedule_tokenizer_preload : String → Preloads T → Preloads T × Bool
    schedule_tokenizer_preload hint p =
        if wanted hint && (not (contains hint p.cache) && not (is_running p hint))
        then (submit hint p, true)
        else (p, false)

    -- The tokenizer of the cache; where there is none, a preload is scheduled unless one is running.
    unfoldable pub load_hf_tokenizer : String → Preloads T → Preloads T × Option T
    unfolding schedule_tokenizer_preload
    load_hf_tokenizer hint p = elim (lookup hint p.cache) [
      | some t ↦ (p, some t)
      | none ↦
          let tried = schedule_tokenizer_preload hint p in
          if is_running p hint then (p, none) else (tried.0, none)
    ]

  -- The part of `_tokenizer_future_done` under the lock: a future that is no longer the name's own gives
  -- nothing to the cache.
  unfoldable pub tokenizer_future_done : ℕ → String → Option T → Preloads T → Preloads T
  tokenizer_future_done f hint tokenizer p =
      let own : Bool = elim (lookup hint p.futures) [ none ↦ false | some g ↦ g == f ] in
      if own
      then record p {
        futures = erase hint p.futures;
        cache = elim tokenizer [ none ↦ p.cache | some t ↦ insert hint t p.cache ];
      }
      else p

  abbrev pub clear_hf_tokenizer_cache : Preloads T → Preloads T
  clear_hf_tokenizer_cache p = record p { cache = []; futures = []; executor = false }

  -- The future was submitted for the name, and its callback has not run.
  abbrev pub awaits_callback : Preloads T → ℕ → String → Bool
  awaits_callback p f hint = any (λ c. (c.0 == f) && str_eq c.1 hint) p.pending_callbacks

  -- The lock's stretch of `_load_hf_tokenizer_blocking`: the work writes the cache itself, whether or not its
  -- future is still the name's own.
  abbrev pub load_hf_tokenizer_blocking : ℕ → String → T → Preloads T → Preloads T
  load_hf_tokenizer_blocking f hint t p = record p {
    cache = insert hint t p.cache;
    loaded = (f, hint, t) ∷ p.loaded;
  }

  -- What a work that has ended returns: the tokenizer that it has loaded, if any.
  unfoldable pub result_of : ℕ → String → List (ℕ × String × T) → Option T
  result_of f hint [] = none
  result_of f hint ((g, k, t) ∷ rest) =
      let later = result_of f hint rest in if (g == f) && str_eq k hint then some t else later

  -- `none` is an action that is not possible in the state.
  unfoldable pub act_preload : (String → Bool) → PreloadAction T → Preloads T → Option (Preloads T)
  unfolding schedule_tokenizer_preload load_hf_tokenizer tokenizer_future_done result_of
  act_preload wanted (schedule hint) p = some (schedule_tokenizer_preload wanted hint p).0
  act_preload wanted (load hint) p = some (load_hf_tokenizer wanted hint p).0
  act_preload wanted (work_loads f hint t) p =
      if awaits_callback p f hint && not (is_done p f)
      then some (load_hf_tokenizer_blocking f hint t p)
      else none
  act_preload wanted (work_ends f) p =
      if ltb f p.next then some (record p { done = f ∷ p.done }) else none
  act_preload wanted (future_done f hint raised) p =
      let tokenizer = if raised then none else result_of f hint p.loaded in
      if is_done p f && awaits_callback p f hint
      then some (record (tokenizer_future_done f hint tokenizer p) {
        pending_callbacks = select (λ c. not (c.0 == f)) p.pending_callbacks;
      })
      else none
  act_preload wanted clear p = some (clear_hf_tokenizer_cache p)
  act_preload wanted shut_down p = some (record p { executor = false })

  -- Actions one after the other, if each is possible.
  unfoldable pub run_preloads :
      (String → Bool) → List (PreloadAction T) → Preloads T → Option (Preloads T)
  unfolding act_preload
  run_preloads wanted [] p = some p
  run_preloads wanted (a ∷ rest) p = elim (act_preload wanted a p) [
    | none ↦ none
    | some q ↦ run_preloads wanted rest q
  ]
