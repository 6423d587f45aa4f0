-- ===== src/Benchmarks/Paging/Tests.antt =====
-- The loop of src/benchmarks.py against a server that lets two rows through, of five.
use free_lunch.Floats.{thousandths}
use free_lunch.Benchmarks.Scores.{Texts, Row}
use free_lunch.Benchmarks.Paging.{Server, rows, refused, out_of_fuel, fetch_open_llm_scores}
use free_lunch.Benchmarks.Paging.Ends.{HasLimit, fetch_open_llm_scores-ends}
use free_lunch.Prelude.{
  ◌≢◌, refl, false, Option, none, some, List, [], ◌∷◌, leb, if◌then◌else◌, Bool-cases, inl, inr,
  arith,
}
use free_lunch.Prelude.Int.{ℤ, pos}

abbrev plain_texts : Texts ℤ
plain_texts = record {
  lower = λ s. s;
  strip = λ s. s;
  str = λ c. "";
  to_float = λ s. none;
  has = λ part s. false;
}

abbrev two_rows : List (Option (Row ℤ))
two_rows = none ∷ none ∷ []

abbrev two_at_once : Server ℤ
two_at_once sent offset size = if leb size 2 then rows two_rows else refused 422 (some 2)

two_at_once-HasLimit : HasLimit 2 two_at_once
two_at_once-HasLimit i offset size = elim (Bool-cases (leb size 2)) [
  | inl e ↦ inl (e, (two_rows, rw (e) refl))
  | inr e ↦ inr (e, rw (e) refl)
]

fetch_open_llm_scores-ends_example :
    fetch_open_llm_scores 600 plain_texts two_at_once (pos 5) (pos 500) ≢ out_of_fuel
fetch_open_llm_scores-ends_example =
    fetch_open_llm_scores-ends 600 plain_texts two_at_once (pos 5) (pos 500) (ground arith)
