-- ===== src/Benchmarks/Names/Tests.antt =====
-- The normal form of one name of src/benchmarks.py, and normalizing it again.
use free_lunch.Prelude.{String, ◌≡◌, refl}
use free_lunch.Benchmarks.Names.{normalize_model_name}

-- `str.lower` on the texts used here.
abbrev as_it_is : String → String
as_it_is s = s

one_name : normalize_model_name as_it_is "llama-3.1-8b-instruct:free" ≡ "llama 3 1 8b"
unfolding normalize_model_name
one_name = refl
