-- ===== src/Benchmarks/Paging/Ends.antt =====
-- The loop of `fetch_open_llm_scores` of src/benchmarks.py ends, whatever the server answers.
use free_lunch.Floats.{Floats}
use free_lunch.Dict.{Dict}
use free_lunch.Benchmarks.Scores.{Texts, Row}
use free_lunch.Benchmarks.Paging.{
  Server, PageAnswer, rows, refused, failed, Fetch, fetched, raised, out_of_fuel, Cursor, Move,
  stop, go, rows_length_limit, smaller_page, take_rows, take_refusal, take_answer, next_page,
  fetch_pages, fetch_open_llm_scores, effective_page_size,
}
use free_lunch.Prelude.{
  ℕ, zero, suc, ◌+◌, ◌-◌, ◌≤◌, ◌<◌, ◌≡◌, ◌≢◌, ◌⊎◌, refl, true, false, ltb→lt, Option, none, some,
  arith, leb, ltb, Bool-cases, inl, inr, List, [], ◌∷◌, if_keeps, ◌==◌,
}
use free_lunch.Prelude.Int.{ℤ, pos, negsuc, pos_part}

smaller_page-lt :
    (limit size : ℕ)
    → 1 ≤ limit
    → 1 < size
    → (smaller_page limit size < size) × (1 ≤ smaller_page limit size)
smaller_page-lt limit size h k = ground arith

rows_length_limit-pos :
    (status : ℕ) (m : Option ℕ) (l : ℕ) → rows_length_limit status m ≡ some l → 1 ≤ l
rows_length_limit-pos status none l h = ground (arith, h)
rows_length_limit-pos status (some k) l h = ground (arith, h)

module _ {F : Type 0} ⦃fl : Floats F⦄ where
  -- The rows left and the page size: what each request makes smaller.
  abbrev left : ℕ → Cursor F → ℕ
  left num_rows c = num_rows - c.offset + c.size

  -- A loop that stops has a result of `P`; one that goes on has less to do, and asks for a row or more.
  abbrev IsProgress : (Fetch F → Type 0) → ℕ → Cursor F → Move F → Type 0
  IsProgress P n c (stop r) = P r
  IsProgress P n c (go d) = (left n d < left n c) × (1 ≤ d.size)

  module _ (P : Fetch F → Type 0) (done : (d : Dict F) → P (fetched d)) (t : Texts F) (n : ℕ) where
    take_rows-IsProgress :
        (page : List (Option (Row F))) (c : Cursor F)
        → 1 ≤ c.size
        → c.offset < n
        → IsProgress P n c (take_rows t page c)
    take_rows-IsProgress [] c h k = done _
    take_rows-IsProgress (r ∷ page) c h k = ground arith

    take_refusal-IsProgress :
        (limit : Option ℕ) (c : Cursor F)
        → P raised
        → ((l : ℕ) → limit ≡ some l → 1 ≤ l)
        → IsProgress P n c (take_refusal limit c)
    take_refusal-IsProgress none c r h = r
    take_refusal-IsProgress (some l) c r h = elim (Bool-cases (leb c.size 1)) [
      | inl e ↦ rw (e) r
      | inr e ↦ rw (e) (ground (arith, e, smaller_page-lt l c.size (h l refl)))
    ]

    follow :
        (fuel : ℕ) (server : Server F) (c : Cursor F) (m : Move F)
        → IsProgress P n c m
        → left n c ≤ fuel
        → ((d : Cursor F) → 1 ≤ d.size → left n d < fuel → P (fetch_pages fuel t server n d))
        → P (elim m [ stop r ↦ r | go d ↦ fetch_pages fuel t server n d ])
    follow fuel server c (stop r) i k h = i
    follow fuel server c (go d) i k h = h d i.1 (ground (arith, i, k))

    -- A server that lets every request, or lets no error through, leads to `P`.
    fetch_pages-P :
        (server : Server F)
        → ((c : Cursor F) → 1 ≤ c.size → IsProgress P n c (next_page t server n c))
        → (fuel : ℕ) (c : Cursor F) → 1 ≤ c.size
        → left n c < fuel
        → P (fetch_pages fuel t server n c)
    unfolding fetch_pages
    fetch_pages-P server step zero c h k = ground (arith, k)
    fetch_pages-P server step (suc fuel) c h k =
        follow fuel server c (next_page t server n c) (step c h) (ground (arith, k))
          (λ d i j. fetch_pages-P server step fuel d i j)

    next_page-IsProgress :
        (server : Server F) (c : Cursor F)
        → (c.offset < n → IsProgress P n c (take_answer t (server c.sent c.offset c.size) c))
        → IsProgress P n c (next_page t server n c)
    next_page-IsProgress server c h = elim (Bool-cases (ltb c.offset n)) [
      | inr e ↦ rw (e) (done c.scores)
      | inl e ↦ rw (e) (h (ltb→lt c.offset n e))
    ]

  -- A result: scores or an error.
  abbrev IsResult : Fetch F → Type 0
  IsResult r = r ≢ out_of_fuel

  take_answer-IsResult :
      (t : Texts F) (n : ℕ) (a : PageAnswer F) (c : Cursor F)
      → 1 ≤ c.size
      → c.offset < n
      → IsProgress IsResult n c (take_answer t a c)
  take_answer-IsResult t n (rows page) c h k =
      take_rows-IsProgress IsResult (λ d q. ground (arith, q)) t n page c h k
  take_answer-IsResult t n (refused status m) c h k =
      take_refusal-IsProgress IsResult (λ d q. ground (arith, q)) t n (rows_length_limit status m) c
        (λ q. ground (arith, q)) (rows_length_limit-pos status m)
  take_answer-IsResult t n failed c h k = λ q. ground (arith, q)

  -- The dataset server's documented limit: a page that is not too long is sent, and a longer one is
  -- refused with the limit.
  abbrev pub HasLimit : ℕ → Server F → Type 0
  HasLimit limit server =
      (i offset size : ℕ)
      → ((leb size limit ≡ true)
          × ((page : List (Option (Row F))) × (server i offset size ≡ rows page)))
        ⊎ ((leb size limit ≡ false) × (server i offset size ≡ refused 422 (some limit)))

  -- The loop has a result, a set of scores or an error, on as much fuel as the rows and the page size
  -- asked for, whatever the server answers.
  pub fetch_open_llm_scores-ends :
      (fuel : ℕ) (t : Texts F) (server : Server F) (num_rows : ℤ) (page_size : ℤ)
      → pos_part num_rows + effective_page_size page_size < fuel
      → fetch_open_llm_scores fuel t server num_rows page_size ≢ out_of_fuel
  unfolding fetch_open_llm_scores
  fetch_open_llm_scores-ends fuel t server (negsuc n) page_size h = λ q. ground (arith, q)
  fetch_open_llm_scores-ends fuel t server (pos n) page_size h =
      if_keeps (λ r. r ≢ out_of_fuel) (n == 0) (fetched []) _ (λ q. ground (arith, q))
        (fetch_pages-P (λ r. r ≢ out_of_fuel) (λ d q. ground (arith, q)) t n server
          (λ c i.
            next_page-IsProgress IsResult (λ d q. ground (arith, q)) t n server c
              (λ k. take_answer-IsResult t n (server c.sent c.offset c.size) c i k))
          fuel _ (ground arith) (ground (arith, h)))

  abbrev pub IsFetched : Fetch F → Type 0
  IsFetched r = (scores : Dict F) × (r ≡ fetched scores)

  take_answer-IsFetched :
      (t : Texts F) (n limit : ℕ) (server : Server F) (c : Cursor F)
      → 1 ≤ limit
      → HasLimit limit server
      → 1 ≤ c.size
      → c.offset < n
      → IsProgress IsFetched n c (take_answer t (server c.sent c.offset c.size) c)
  take_answer-IsFetched t n limit server c l s h k = elim (s c.sent c.offset c.size) [
    | inl (e, (page, a)) ↦ rw (a) (take_rows-IsProgress IsFetched (λ d. (d, refl)) t n page c h k)
    | inr (e, a) ↦
        let sees : rows_length_limit 422 (some limit) ≡ some limit = ground (arith, l) in
        let many : leb c.size 1 ≡ false = ground (arith, l, e) in
        rw (a, sees, many) (ground (arith, many, l, smaller_page-lt limit c.size l))
  ]

  -- With a server that refuses only pages longer than its limit, one row or more, and says so, the
  -- loop collects scores.
  pub fetch_open_llm_scores-IsFetched :
      (fuel : ℕ) (t : Texts F) (server : Server F) (num_rows page_size : ℤ) (limit : ℕ)
      → 1 ≤ limit
      → HasLimit limit server
      → pos_part num_rows + effective_page_size page_size < fuel
      → IsFetched (fetch_open_llm_scores fuel t server num_rows page_size)
  unfolding fetch_open_llm_scores
  fetch_open_llm_scores-IsFetched fuel t server (negsuc n) page_size limit l s h = ([], refl)
  fetch_open_llm_scores-IsFetched fuel t server (pos n) page_size limit l s h =
      if_keeps IsFetched (n == 0) (fetched []) _ ([], refl)
        (fetch_pages-P IsFetched (λ d. (d, refl)) t n server
          (λ c i.
            next_page-IsProgress IsFetched (λ d. (d, refl)) t n server c
              (λ k. take_answer-IsFetched t n limit server c l s i k))
          fuel _ (ground arith) (ground (arith, h)))
