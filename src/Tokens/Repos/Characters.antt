-- ===== src/Tokens/Repos/Characters.antt =====
-- Texts of characters of a kind, and what keeps them so, for src/tokens.py.
use Prim.Native.String
use Prim.Native.Char.{Char, code}
use text.Mathlib.TextLemmas.{nil-append, cons-append}
use mathlib.Core.Path.{subst}
use mathlib.Core.Option.{some-injective}
use free_lunch.Proxy.Events.{drop_chars}
use free_lunch.Routing.Candidates.{remove_suffix}
use free_lunch.Tokens.Repos.Patterns.{
  one, all_chars, is_repo_char, split_at, map_tokens, span_digits,
}
use free_lunch.Prelude.{
  ℕ, zero, suc, String, ◌≡◌, ◌∙◌, refl, sym, ap, Bool, true, false, ◌&&◌, none, some, str_eq, ◌==◌,
  arith, if_keeps, eq_iff, Bool-cases, Option-cases, inl, inr,
}

pub and_true : (a b : Bool) → a && b ≡ true → (a ≡ true) × (b ≡ true)
and_true true b h = (refl, h)
and_true false b h = absurd (ground (arith, h))

pub and_intro : (a b : Bool) → a ≡ true → b ≡ true → a && b ≡ true
and_intro true b e h = h
and_intro false b e h = absurd (ground (arith, e))

-- Only letters, digits, dots, underscores and dashes.
abbrev pub IsSafe : String → Type 0
IsSafe s = all_chars is_repo_char s ≡ true

module _ (p : Char → Bool) where
  pub all_chars-append :
      (a b : String)
      → all_chars p a ≡ true
      → all_chars p b ≡ true
      → all_chars p (String.◌++◌ a b) ≡ true
  all_chars-append String.[] b h k = rw (nil-append b) k
  all_chars-append (String.◌∷◌ c a) b h k =
      let parts = and_true (p c) (all_chars p a) h in
      rw (cons-append c a b) (and_intro (p c) _ parts.0 (all_chars-append a b parts.1 k))

  pub all_chars-drop_chars :
      (n : ℕ) (s : String) → all_chars p s ≡ true → all_chars p (drop_chars n s) ≡ true
  unfolding drop_chars
  all_chars-drop_chars zero s h = h
  all_chars-drop_chars (suc n) String.[] h = refl
  all_chars-drop_chars (suc n) (String.◌∷◌ c s) h =
      all_chars-drop_chars n s (and_true (p c) (all_chars p s) h).1

  pub all_chars-remove_suffix :
      (s suffix : String) → all_chars p s ≡ true → all_chars p (remove_suffix s suffix) ≡ true
  unfolding remove_suffix
  all_chars-remove_suffix String.[] suffix h = refl
  all_chars-remove_suffix (String.◌∷◌ c s) suffix h =
      let parts = and_true (p c) (all_chars p s) h in
      if_keeps (λ x. all_chars p x ≡ true) (str_eq (String.◌∷◌ c s) suffix) String.[]
        (String.◌∷◌ c (remove_suffix s suffix)) refl
        (and_intro (p c) _ parts.0 (all_chars-remove_suffix s suffix parts.1))

  pub all_chars-span_digits :
      (d : Char → Bool) (s : String)
      → all_chars p s ≡ true
      → (all_chars p (span_digits d s).0 ≡ true) × (all_chars p (span_digits d s).1 ≡ true)
  unfolding span_digits
  all_chars-span_digits d String.[] h = (refl, refl)
  all_chars-span_digits d (String.◌∷◌ c s) h =
      let parts = and_true (p c) (all_chars p s) h in
      let rest = all_chars-span_digits d s parts.1 in
      if_keeps (λ (x : String × String). (all_chars p x.0 ≡ true) × (all_chars p x.1 ≡ true)) (d c)
        (String.◌∷◌ c (span_digits d s).0, (span_digits d s).1) (String.[], String.◌∷◌ c s)
        (and_intro (p c) _ parts.0 rest.0, rest.1) (refl, h)

  pub all_chars-map_tokens :
      (f : String → String)
      → ((s : String) → all_chars p s ≡ true → all_chars p (f s) ≡ true)
      → (token s : String) → all_chars p token ≡ true
      → all_chars p s ≡ true
      → all_chars p (map_tokens f token s) ≡ true
  unfolding map_tokens
  all_chars-map_tokens f keeps token String.[] k h = keeps token k
  all_chars-map_tokens f keeps token (String.◌∷◌ c s) k h =
      let parts = and_true (p c) (all_chars p s) h in
      if_keeps (λ x. all_chars p x ≡ true) (code c == 45)
        (String.◌++◌ (f token) (String.◌∷◌ c (map_tokens f "" s)))
        (map_tokens f (String.◌++◌ token (one c)) s)
        (all_chars-append (f token) _ (keeps token k)
          (and_intro (p c) _ parts.0 (all_chars-map_tokens f keeps "" s refl parts.1)))
        (all_chars-map_tokens f keeps (String.◌++◌ token (one c)) s
          (all_chars-append token (one c) k (and_intro (p c) true parts.0 refl)) parts.1)

-- The two parts of a text with the separator.
pub split_at-some :
    (k s : String) (p : String × String)
    → split_at k s ≡ some p
    → s ≡ String.◌++◌ p.0 (String.◌++◌ k p.1)
unfolding split_at
split_at-some k String.[] p h = absurd (ground (arith, h))
split_at-some k (String.◌∷◌ c s) p h = elim (Bool-cases (str_eq (one c) k)) [
  | inl e ↦
      let here : some (String.[], s) ≡ some p = rw (e) at h in
      let start : String.◌∷◌ c s ≡ String.◌++◌ "" (String.◌++◌ (one c) s) =
        sym (nil-append _ ∙ cons-append c "" s ∙ ap (String.◌∷◌ c) (nil-append s)) in
      subst (λ (x : String × String). String.◌∷◌ c s ≡ String.◌++◌ x.0 (String.◌++◌ k x.1))
        (some-injective _ _ here)
        (subst (λ u. String.◌∷◌ c s ≡ String.◌++◌ "" (String.◌++◌ u s)) ((eq_iff (one c) k).0 e)
          start)
  | inr e ↦ elim (Option-cases (split_at k s)) [
    | inl n ↦ let nothing : none ≡ some p = rw (e, n) at h in absurd (ground (arith, nothing))
    | inr (q, n) ↦
        let there : some (String.◌∷◌ c q.0, q.1) ≡ some p = rw (e, n) at h in
        subst (λ (x : String × String). String.◌∷◌ c s ≡ String.◌++◌ x.0 (String.◌++◌ k x.1))
          (some-injective _ _ there)
          (ap (String.◌∷◌ c) (split_at-some k s q n) ∙ sym (cons-append c q.0 _))
  ]
]
