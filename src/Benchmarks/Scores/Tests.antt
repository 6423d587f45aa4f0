-- ===== src/Benchmarks/Scores/Tests.antt =====
-- Scores of src/benchmarks.py at concrete rows, in thousandths.
use free_lunch.Floats.{thousandths}
use free_lunch.Dict.{lookup}
use free_lunch.Benchmarks.Names.{normalize_model_name}
use free_lunch.Benchmarks.Scores.{Cell, word, number, Texts, Row, update_page}
use free_lunch.Prelude.{String, ◌≡◌, refl, false, Option, none, some, List, [], ◌∷◌}
use free_lunch.Prelude.Int.{ℤ, pos}

-- Texts that are read as they are.
abbrev plain_texts : Texts ℤ
plain_texts = record {
  lower = λ s. s;
  strip = λ s. s;
  str = λ c. elim c [ Cell.word s ↦ s | _ ↦ "" ];
  to_float = λ s. none;
  has = λ part s. false;
}

abbrev row_of : String → ℤ → Option (Row ℤ)
row_of name x = some (("fullname", word name) ∷ ("Average", number x) ∷ [])

abbrev page : List (Option (Row ℤ))
page = row_of "qwen-chat" (pos 3000) ∷ none ∷ row_of "qwen" (pos 7000) ∷ row_of "phi" (pos 1) ∷ []

best_qwen : lookup "qwen" (update_page plain_texts page []) ≡ some (pos 7000)
unfolding update_page normalize_model_name
best_qwen = refl
