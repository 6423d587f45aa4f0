-- ===== src/Benchmarks/Paging.antt =====
-- `_parse_rows_length_limit` and the loop of `fetch_open_llm_scores` of src/benchmarks.py. The server is
-- a parameter: it sees the number of requests before this one, the offset and the length. The loop runs
-- on fuel, one unit for a request and one for the end.
pub mod Ends
mod Tests
use free_lunch.Floats.{Floats}
use free_lunch.Dict.{Dict}
use free_lunch.Benchmarks.Scores.{Texts, Row, update_page}
use free_lunch.Prelude.{
  ℕ, zero, suc, ◌+◌, ◌/◌, Bool, Option, none, some, List, [], ltb, leb, ◌==◌, max, min,
  if◌then◌else◌, length,
}
use free_lunch.Prelude.Int.{ℤ, pos, negsuc, pos_part}

-- What a request ends with. `refused` is a response with an error status, and the number that its
-- message names after "must not be greater than"; `failed` is any other exception.
pub data PageAnswer (F : Type 0) : Type 0 where
  rows : List (Option (Row F)) → PageAnswer F
  refused : ℕ → Option ℕ → PageAnswer F
  failed : PageAnswer F

-- The number of requests before this one, the offset and the length.
abbrev pub Server : Type 0 → Type 0
Server F = ℕ → ℕ → ℕ → PageAnswer F

pub data Fetch (F : Type 0) : Type 0 where
  fetched : Dict F → Fetch F
  raised : Fetch F
  out_of_fuel : Fetch F

abbrev pub rows_length_limit : ℕ → Option ℕ → Option ℕ
rows_length_limit status none = none
rows_length_limit status (some limit) =
    if status == 422 then (if ltb 0 limit then some limit else none) else none

-- The page size after a refusal that names a limit.
abbrev pub smaller_page : ℕ → ℕ → ℕ
smaller_page limit size = if leb size limit then max (size / 2) 1 else limit

-- Where the loop stands between two requests.
pub record Cursor (F : Type 0) : Type 0 where
  pub sent : ℕ
  pub offset : ℕ
  pub size : ℕ
  pub scores : Dict F

pub data Move (F : Type 0) : Type 0 where
  stop : Fetch F → Move F
  go : Cursor F → Move F

-- `max(min(int(page_size), 100), 1)`
abbrev pub effective_page_size : ℤ → ℕ
effective_page_size n = max (min (pos_part n) 100) 1

module _ {F : Type 0} ⦃fl : Floats F⦄ where
  abbrev pub take_rows : Texts F → List (Option (Row F)) → Cursor F → Move F
  take_rows t page c =
      let scores = update_page t page c.scores in
      if length page == 0
      then stop (fetched scores)
      else go (record {
        sent = suc c.sent;
        offset = c.offset + length page;
        size = c.size;
        scores = scores;
      })

  abbrev pub take_refusal : Option ℕ → Cursor F → Move F
  take_refusal none c = stop raised
  take_refusal (some limit) c =
      if leb c.size 1
      then stop raised
      else go (record {
        sent = suc c.sent;
        offset = c.offset;
        size = smaller_page limit c.size;
        scores = c.scores;
      })

  abbrev pub take_answer : Texts F → PageAnswer F → Cursor F → Move F
  take_answer t (rows page) c = take_rows t page c
  take_answer t (refused status limit) c = take_refusal (rows_length_limit status limit) c
  take_answer t failed c = stop raised

  abbrev pub next_page : Texts F → Server F → ℕ → Cursor F → Move F
  next_page t server num_rows c =
      if ltb c.offset num_rows
      then take_answer t (server c.sent c.offset c.size) c
      else stop (fetched c.scores)

  unfoldable pub fetch_pages : ℕ → Texts F → Server F → ℕ → Cursor F → Fetch F
  fetch_pages zero t server num_rows c = out_of_fuel
  fetch_pages (suc fuel) t server num_rows c = elim (next_page t server num_rows c) [
    | stop r ↦ r
    | go d ↦ fetch_pages fuel t server num_rows d
  ]

  -- The loop from the number of rows that the size request names, and the page size asked for.
  unfoldable pub fetch_open_llm_scores : ℕ → Texts F → Server F → ℤ → ℤ → Fetch F
  unfolding fetch_pages
  fetch_open_llm_scores fuel t server (negsuc n) page_size = fetched []
  fetch_open_llm_scores fuel t server (pos n) page_size =
      let run =
        fetch_pages fuel t server n
          (record { sent = 0; offset = 0; size = effective_page_size page_size; scores = [] }) in
      if n == 0 then fetched [] else run
