-- ===== src/Tokens/Repos/Safe.antt =====
-- Texts that are safe in the name of a repository, and what keeps them safe.
use free_lunch.Tokens.Repos.Characters.{and_true, and_intro, IsSafe, all_chars-append}
use Prim.Native.String
use Prim.Native.Char.{Char}
use free_lunch.Dict.{Dict, lookup}
use free_lunch.Tokens.Repos.Patterns.{
  one, all_chars, is_repo_char, known_repo_token_case, known_org_case, known_org_aliases, add_new,
  add_each, chosen, with_suffixes, starts_alnum,
}
use free_lunch.Prelude.{
  String, ◌≡◌, refl, Bool, true, ◌||◌, List, [], ◌∷◌, ◌++◌, str_eq, if◌then◌else◌, any, or_else,
  All, All-append, if_keeps, Bool-cases, inl, inr,
}

-- What holds of each value of a dictionary holds of what is looked up.
pub lookup-keeps :
    {A : Type 0} (P : A → Type 0) (k : String) (d : Dict A) (x : A)
    → All (λ e. P e.1) d
    → P x
    → P (or_else (lookup k d) x)
lookup-keeps P k [] x h px = px
lookup-keeps P k ((j, v) ∷ d) x h px = elim (Bool-cases (str_eq j k)) [
  | inl e ↦ rw (e) h.0
  | inr e ↦ rw (e) (lookup-keeps P k d x h.1 px)
]

pub add_new-All :
    (P : String → Type 0) (x : String) (xs : List String) → P x → All P xs → All P (add_new x xs)
add_new-All P x xs px h =
    if_keeps (All P) (any (str_eq x) xs) xs (xs ++ (x ∷ [])) h (All-append P xs (x ∷ []) h (px, tt))

pub add_each-All :
    (P : String → Type 0) (ys xs : List String) → All P ys → All P xs → All P (add_each ys xs)
add_each-All P [] xs k h = h
add_each-All P (y ∷ ys) xs k h = add_each-All P ys (add_new y xs) k.1 (add_new-All P y xs k.0 h)

pub chosen-All :
    (P : String → Type 0) (groups : List (Bool × List String))
    → All (λ g. All P g.1) groups
    → All P (chosen groups)
chosen-All P [] h = tt
chosen-All P ((b, xs) ∷ groups) h =
    All-append P (if b then xs else []) (chosen groups) (if_keeps (All P) b xs [] h.0 tt)
      (chosen-All P groups h.1)

pub with_suffixes-All :
    (s : String) (suffixes : List String)
    → IsSafe s
    → All IsSafe suffixes
    → All IsSafe (with_suffixes s suffixes)
with_suffixes-All s [] h k = tt
with_suffixes-All s (x ∷ xs) h k =
    (all_chars-append is_repo_char s x h k.0, with_suffixes-All s xs h k.1)

-- A namespace: safe, and it starts with a letter or digit.
abbrev pub IsOrg : String → Type 0
IsOrg s = IsSafe s × (starts_alnum s ≡ true)

-- A namespace, a slash, and a safe name.
abbrev pub IsPair : String → Type 0
IsPair s =
    (org : String) × (repo : String) × (s ≡ String.◌++◌ org (String.◌++◌ "/" repo))
    × IsOrg org
    × IsSafe repo

-- A pair has characters of this kind only.
abbrev pub is_path_char : Char → Bool
is_path_char c = is_repo_char c || str_eq (one c) "/"

pub all_chars-IsSafe : (s : String) → IsSafe s → all_chars is_path_char s ≡ true
all_chars-IsSafe String.[] h = refl
all_chars-IsSafe (String.◌∷◌ c s) h =
    let parts = and_true (is_repo_char c) (all_chars is_repo_char s) h in
    and_intro (is_path_char c) _ (rw (parts.0) refl) (all_chars-IsSafe s parts.1)

pub all_chars-IsPair : (s : String) → IsPair s → all_chars is_path_char s ≡ true
unfolding is_repo_char
all_chars-IsPair s (org, repo, e, o, r) = rw (e) (
    all_chars-append is_path_char org _ (all_chars-IsSafe org o.0)
      (all_chars-append is_path_char "/" repo refl (all_chars-IsSafe repo r)))

pub known_tokens-All : All (λ e. IsSafe e.1) known_repo_token_case
unfolding is_repo_char
known_tokens-All = (
  refl,
  (
    refl,
    (
      refl,
      (
        refl,
        (
          refl,
          (
            refl,
            (
              refl,
              (
                refl,
                (
                  refl,
                  (
                    refl,
                    (refl, (refl, (refl, (refl, (refl, (refl, (refl, (refl, (refl, tt))))))))),
                  ),
                ),
              ),
            ),
          ),
        ),
      ),
    ),
  ),
)

pub known_orgs-All : All (λ e. IsOrg e.1) known_org_case
unfolding is_repo_char
known_orgs-All = ((refl, refl), ((refl, refl), ((refl, refl), ((refl, refl), tt))))

pub known_aliases-All : All (λ e. All IsOrg e.1) known_org_aliases
unfolding is_repo_char
known_aliases-All = (
  ((refl, refl), ((refl, refl), tt)),
  (
    ((refl, refl), ((refl, refl), tt)),
    (
      ((refl, refl), ((refl, refl), tt)),
      (
        ((refl, refl), tt),
        (
          ((refl, refl), tt),
          (
            ((refl, refl), tt),
            (
              ((refl, refl), tt),
              (
                ((refl, refl), tt),
                (((refl, refl), tt), (((refl, refl), tt), (((refl, refl), tt), tt))),
              ),
            ),
          ),
        ),
      ),
    ),
  ),
)
