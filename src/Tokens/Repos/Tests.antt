-- ===== src/Tokens/Repos/Tests.antt =====
-- The names that src/tokens.py tries for an id, and for an id that is a path.
use Prim.Native.Char.{code}
use free_lunch.Tokens.Repos.{Texts, candidate_hf_repo_ids, vendor_names}
use free_lunch.Tokens.Repos.Patterns.{is_repo_char}
use free_lunch.Tokens.Repos.Safe.{IsPair}
use free_lunch.Tokens.Repos.Characters.{IsSafe}
use free_lunch.Tokens.Repos.Pairs.{candidate_hf_repo_ids-IsPair}
use free_lunch.Prelude.{◌≡◌, refl, ◌&&◌, some, [], ◌∷◌, leb, All, if_keeps, if◌then◌else◌, str_eq}

-- Upper case as far as the id below needs it.
abbrev texts : Texts
texts = record {
  lower = λ s. s;
  upper = λ s. if str_eq s "b" then "B" else s;
  strip = λ s. s;
  is_alpha = λ c. leb 97 (code c) && leb (code c) 122;
  is_digit = λ c. leb 48 (code c) && leb (code c) 57;
}

three_names :
    candidate_hf_repo_ids texts (some "meta-llama/llama-3-8b-instruct:free")
    ≡ "meta-llama/llama-3-8b-instruct" ∷ "meta-llama/Llama-3-8B-Instruct"
      ∷ "meta-llama/Meta-Llama-3-8B-Instruct" ∷ []
unfolding candidate_hf_repo_ids vendor_names is_repo_char
three_names = refl

no_path : candidate_hf_repo_ids texts (some "../etc/passwd") ≡ []
unfolding candidate_hf_repo_ids
no_path = refl

candidate_hf_repo_ids-IsPair_example :
    All IsPair (candidate_hf_repo_ids texts (some "meta-llama/llama-3-8b-instruct:free"))
unfolding is_repo_char
candidate_hf_repo_ids-IsPair_example =
    candidate_hf_repo_ids-IsPair texts (λ s h. h)
      (λ s h. if_keeps IsSafe (str_eq s "b") "B" s refl h) (λ s h. refl)
      (some "meta-llama/llama-3-8b-instruct:free")
