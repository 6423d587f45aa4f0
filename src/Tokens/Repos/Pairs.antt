-- ===== src/Tokens/Repos/Pairs.antt =====
-- What src/tokens.py asks the Hugging Face Hub for: names of one namespace and one repository.
use mathlib.Core.Path.{subst}
use Prim.Native.String
use Prim.Native.Char.{Char}
use free_lunch.Dict.{lookup}
use free_lunch.Proxy.Events.{drop_chars}
use free_lunch.Routing.Candidates.{remove_suffix}
use free_lunch.Tokens.Repos.{
  Texts, upper_first, upper_letters, normalize_unknown, normalize_repo_token, canonical_repo,
  canonical_org, canonicalize_repo_id, add_stripped, candidate_org_names, vendor_names,
  vendor_groups, candidate_repo_names, add_ids, ids_under, add_orgs, candidate_hf_repo_ids,
  is_letter_number, is_version, starts_alpha, reordered,
}
use free_lunch.Tokens.Repos.Patterns.{
  one, all_chars, is_repo_char, split_at, span_digits, known_repo_token_case, known_org_case,
  known_org_aliases, contains, starts_alnum, is_safe_hf_repo_component, remove_hint_suffix,
  is_small,
}
use free_lunch.Tokens.Repos.Safe.{
  IsOrg, IsPair, is_path_char, lookup-keeps, add_new-All, add_each-All, chosen-All,
  with_suffixes-All, all_chars-IsSafe, all_chars-IsPair, known_tokens-All, known_orgs-All,
  known_aliases-All,
}
use free_lunch.Tokens.Repos.Characters.{
  and_true, and_intro, IsSafe, all_chars-append, all_chars-drop_chars, all_chars-remove_suffix,
  all_chars-span_digits, all_chars-map_tokens, split_at-some,
}
use free_lunch.Prelude.{
  String, ◌≡◌, refl, sym, Bool, true, false, not, ◌&&◌, ◌||◌, Option, some, List, [], ◌∷◌, str_eq,
  if◌then◌else◌, or_else, All, All-map, if_keeps, Option-cases, inl, inr,
}

-- `str.lower` and `str.upper` keep such texts, and `str.strip` takes nothing off a text without blanks.
module _ (t : Texts) (lowers : (s : String) → IsSafe s → IsSafe (t.lower s))
    (uppers : (s : String) → IsSafe s → IsSafe (t.upper s))
    (strips : (s : String) → all_chars is_path_char s ≡ true → t.strip s ≡ s) where
  upper_one : (c : Char) → is_repo_char c ≡ true → IsSafe (t.upper (one c))
  upper_one c h = uppers (one c) (and_intro (is_repo_char c) true h refl)

  upper_first-IsSafe : (s : String) → IsSafe s → IsSafe (upper_first t s)
  upper_first-IsSafe String.[] h = refl
  upper_first-IsSafe (String.◌∷◌ c s) h =
      let parts = and_true (is_repo_char c) (all_chars is_repo_char s) h in
      all_chars-append is_repo_char (t.upper (one c)) s (upper_one c parts.0) parts.1

  upper_letters-IsSafe : (s : String) → IsSafe s → IsSafe (upper_letters t s)
  upper_letters-IsSafe String.[] h = refl
  upper_letters-IsSafe (String.◌∷◌ c s) h =
      let parts = and_true (is_repo_char c) (all_chars is_repo_char s) h in
      let cut = span_digits t.is_digit s in
      let safe = all_chars-span_digits is_repo_char t.is_digit s parts.1 in
      all_chars-append is_repo_char (t.upper (one c)) _ (upper_one c parts.0) (
        if_keeps IsSafe (str_eq cut.1 "") s (String.◌++◌ cut.0 (t.upper cut.1)) parts.1
          (all_chars-append is_repo_char cut.0 _ safe.0 (uppers cut.1 safe.1)))

  normalize_unknown-IsSafe :
      (low token : String) → IsSafe low → IsSafe token → IsSafe (normalize_unknown t low token)
  unfolding normalize_unknown
  normalize_unknown-IsSafe low token l k =
      let cut = span_digits t.is_digit low in
      let safe = all_chars-span_digits is_repo_char t.is_digit low l in
      if_keeps IsSafe (not (str_eq cut.0 "") && (not (str_eq cut.1 "") && all_chars is_small cut.1))
        _ _ (all_chars-append is_repo_char cut.0 _ safe.0 (uppers cut.1 safe.1))
        (if_keeps IsSafe (is_letter_number t low) _ _ (upper_letters-IsSafe low l) (
          if_keeps IsSafe (is_version t low) _ _ (upper_first-IsSafe low l)
            (if_keeps IsSafe (starts_alpha t token) _ _ (upper_first-IsSafe token k) k)))

  normalize_repo_token-IsSafe : (s : String) → IsSafe s → IsSafe (normalize_repo_token t s)
  unfolding normalize_repo_token
  normalize_repo_token-IsSafe s h = if_keeps IsSafe (str_eq s "") _ _ h (
      lookup-keeps IsSafe (t.lower s) known_repo_token_case _ known_tokens-All
        (normalize_unknown-IsSafe (t.lower s) s (lowers s h) h))

  canonical_repo-IsSafe : (s : String) → IsSafe s → IsSafe (canonical_repo t s)
  unfolding canonical_repo
  canonical_repo-IsSafe s h =
      all_chars-map_tokens is_repo_char (normalize_repo_token t) normalize_repo_token-IsSafe "" s
        refl h

  canonical_org-IsOrg : (s : String) → IsOrg s → IsOrg (canonical_org t s)
  canonical_org-IsOrg s h = lookup-keeps IsOrg (t.lower s) known_org_case s known_orgs-All h

  add_stripped-All :
      (P : String → Type 0) (ys xs : List String)
      → All (λ y. P (t.strip y)) ys
      → All P xs
      → All P (add_stripped t ys xs)
  add_stripped-All P [] xs k h = h
  add_stripped-All P (y ∷ ys) xs k h =
      add_stripped-All P ys _ k.1
        (if_keeps (All P) (str_eq (t.strip y) "") _ _ h (add_new-All P (t.strip y) xs k.0 h))

  add_ids-All :
      (P : String → Type 0) (ys xs : List String)
      → All (λ y. P (t.strip y)) ys
      → All P xs
      → All P (add_ids t ys xs)
  add_ids-All P [] xs k h = h
  add_ids-All P (y ∷ ys) xs k h = add_ids-All P ys _ k.1 (
      if_keeps (All P) (str_eq (t.strip y) "" || not (contains "/" (t.strip y))) _ _ h
        (add_new-All P (t.strip y) xs k.0 h))

  strip-IsSafe : (s : String) → IsSafe s → IsSafe (t.strip s)
  strip-IsSafe s h = subst IsSafe (sym (strips s (all_chars-IsSafe s h))) h

  strip-IsOrg : (s : String) → IsOrg s → IsOrg (t.strip s)
  strip-IsOrg s h = subst IsOrg (sym (strips s (all_chars-IsSafe s h.0))) h

  strip-IsPair : (s : String) → IsPair s → IsPair (t.strip s)
  strip-IsPair s h = subst IsPair (sym (strips s (all_chars-IsPair s h))) h

  candidate_org_names-All : (org : String) → IsOrg org → All IsOrg (candidate_org_names t org)
  unfolding candidate_org_names
  candidate_org_names-All org h =
      add_stripped-All IsOrg
        (org ∷ canonical_org t org ∷ or_else (lookup (t.lower org) known_org_aliases) []) []
        (All-map IsOrg (λ y. IsOrg (t.strip y))
          (org ∷ canonical_org t org ∷ or_else (lookup (t.lower org) known_org_aliases) [])
          strip-IsOrg
          (
            h,
            (
              canonical_org-IsOrg org h,
              lookup-keeps (All IsOrg) (t.lower org) known_org_aliases [] known_aliases-All tt,
            ),
          ))
        tt

  reordered-IsSafe : (s : String) → IsSafe s → IsSafe (reordered t s)
  unfolding is_repo_char
  reordered-IsSafe s h =
      all_chars-append is_repo_char "NVIDIA-Nemotron-Nano-VL-"
        (remove_suffix (drop_chars 14 s) "-VL") refl
        (all_chars-remove_suffix is_repo_char (drop_chars 14 s) "-VL"
          (all_chars-drop_chars is_repo_char 14 s h))

  vendor_names-All :
      (low canon repo : String)
      → IsSafe canon
      → IsSafe repo
      → All IsSafe (vendor_names t low canon repo)
  unfolding vendor_names is_repo_char
  vendor_names-All low canon repo c r =
      let both : (s : String) → IsSafe s → (x : String) → IsSafe x → IsSafe (String.◌++◌ s x) =
        λ s h x k. all_chars-append is_repo_char s x h k in
      let nvidia = both "NVIDIA-" refl canon c in
      let vl = reordered-IsSafe canon c in
      chosen-All IsSafe (vendor_groups t low canon repo) (
        (both "Meta-" refl canon c, tt),
        (
          with_suffixes-All canon ("-FP8" ∷ "-BF16" ∷ []) c (refl, (refl, tt)),
          (
            with_suffixes-All canon ("-2503" ∷ []) c (refl, tt),
            (
              with_suffixes-All (String.◌++◌ "NVIDIA-" canon)
                  ("" ∷ "-BF16" ∷ "-FP8" ∷ "-NVFP4" ∷ "-Base" ∷ []) nvidia
                  (refl, (refl, (refl, (refl, (refl, tt))))),
              (
                with_suffixes-All (reordered t canon) ("" ∷ "-BF16" ∷ "-FP8" ∷ "-NVFP4" ∷ []) vl
                    (refl, (refl, (refl, (refl, tt)))),
                (
                  with_suffixes-All canon ("-FP8" ∷ []) c (refl, tt),
                  ((both "c4ai-" refl (t.lower repo) (lowers repo r), tt), tt),
                ),
              ),
            ),
          ),
        ),
      )

  candidate_repo_names-All :
      (org repo : String) → IsSafe repo → All IsSafe (candidate_repo_names t org repo)
  unfolding candidate_repo_names
  candidate_repo_names-All org repo h =
      let canon = canonical_repo t repo in
      let c = canonical_repo-IsSafe repo h in
      add_each-All IsSafe (vendor_names t (t.lower org) canon repo) _
        (vendor_names-All (t.lower org) canon repo c h)
        (add_stripped-All IsSafe (repo ∷ canon ∷ []) []
          (strip-IsSafe repo h, (strip-IsSafe canon c, tt)) tt)

  ids_under-All :
      (org : String) (repos : List String)
      → IsOrg org
      → All IsSafe repos
      → All (λ y. IsPair (t.strip y)) (ids_under t org repos)
  ids_under-All org [] o h = tt
  ids_under-All org (r ∷ rs) o h =
      (strip-IsPair _ (org, r, refl, o, h.0), ids_under-All org rs o h.1)

  add_orgs-All :
      (repo : String) (orgs xs : List String)
      → IsSafe repo
      → All IsOrg orgs
      → All IsPair xs
      → All IsPair (add_orgs t repo orgs xs)
  add_orgs-All repo [] xs r o h = h
  add_orgs-All repo (org ∷ orgs) xs r o h = add_orgs-All repo orgs _ r o.1 (
      add_stripped-All IsPair (ids_under t org (candidate_repo_names t org repo)) xs
        (ids_under-All org (candidate_repo_names t org repo) o.0
          (candidate_repo_names-All org repo r))
        h)

  component-IsOrg : (s : String) → is_safe_hf_repo_component s ≡ true → IsOrg s
  unfolding is_safe_hf_repo_component
  component-IsOrg s h =
      let parts = and_true (all_chars is_repo_char s) _ h in
      (parts.0, (and_true (starts_alnum s) _ parts.1).0)

  canonicalize-IsPair :
      (s : String) (p : String × String)
      → split_at "/" s ≡ some p
      → IsOrg p.0
      → IsSafe p.1
      → IsPair (canonicalize_repo_id t s)
  unfolding canonicalize_repo_id
  canonicalize-IsPair s p e o r =
      rw (e, canonicalize_repo_id)
        (
          canonical_org t p.0,
          canonical_repo t p.1,
          refl,
          canonical_org-IsOrg p.0 o,
          canonical_repo-IsSafe p.1 r,
        )

  asked-IsPair :
      (s : String) (p : String × String)
      → split_at "/" s ≡ some p
      → IsOrg p.0
      → IsOrg p.1
      → All IsPair (
          add_orgs t p.1
            (candidate_org_names t p.0)
            (add_ids t (s ∷ canonicalize_repo_id t s ∷ []) []))
  asked-IsPair s p e o r =
      add_orgs-All p.1 (candidate_org_names t p.0) _ r.0 (candidate_org_names-All p.0 o) (
        add_ids-All IsPair (s ∷ canonicalize_repo_id t s ∷ []) []
          (
            strip-IsPair s (p.0, p.1, split_at-some "/" s p e, o, r.0),
            (strip-IsPair _ (canonicalize-IsPair s p e o r.0), tt),
          )
          tt)

  unless-All :
      (a b : Bool) (xs : List String)
      → (a ≡ true → b ≡ true → All IsPair xs)
      → All IsPair (if not a || not b then [] else xs)
  unless-All true true xs f = f refl refl
  unless-All true false xs f = tt
  unless-All false b xs f = tt

  -- Each name is a namespace, one slash and a repository, both of letters, digits, dots, underscores and
  -- dashes, and the namespace starts with a letter or digit: no URL, no backslash and no nested path is
  -- asked for, whatever id a provider gives; where lower and upper case keep such texts and `str.strip`
  -- leaves a text of such characters and slashes as it is.
  pub candidate_hf_repo_ids-IsPair :
      (model_hint : Option String) → All IsPair (candidate_hf_repo_ids t model_hint)
  unfolding candidate_hf_repo_ids
  candidate_hf_repo_ids-IsPair model_hint =
      let hint = t.strip (or_else model_hint "") in
      let s = remove_hint_suffix hint in
      if_keeps (All IsPair) (str_eq hint "" || not (contains "/" hint)) [] _ tt
        (elim (Option-cases (split_at "/" s)) [
          | inl e ↦ rw (e) tt
          | inr (p, e) ↦ rw (e) (
              if_keeps (All IsPair) (contains "/" p.1 || contains "\\" s) [] _ tt (
                unless-All (is_safe_hf_repo_component p.0) (is_safe_hf_repo_component p.1) _
                  (λ a b. asked-IsPair s p e (component-IsOrg p.0 a) (component-IsOrg p.1 b))))
        ])
