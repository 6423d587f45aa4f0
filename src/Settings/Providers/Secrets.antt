-- ===== src/Settings/Providers/Secrets.antt =====
-- The managed secrets that src/config.py puts into the settings of providers.
use mathlib.Core.Path.{subst}
use free_lunch.Dict.{Dict, lookup, lookup-insert}
use free_lunch.Json.{Json, text, no_fields, get, set_field, get-set_field}
use free_lunch.Settings.Providers.{
  Switches, secret_key, with_api_key, apply_keys, apply_managed_secrets,
}
use free_lunch.Prelude.{
  String, ◌≡◌, ◌∙◌, ap, refl, Bool, true, false, ◌||◌, Option, none, some, List, [], ◌∷◌, arith,
  str_eq, eq_iff, if◌then◌else◌, any, or_else, Bool-cases, Option-cases, inl, inr,
}

-- The key that the settings hold for a provider.
abbrev pub api_key_of : String → Switches → Option Json
api_key_of id s = get "api_key" (or_else (lookup id s.provider_bootstrap_config) no_fields)

with_api_key-api_key_of :
    (id j secret : String) (s : Switches)
    → api_key_of j (with_api_key id secret s)
      ≡ (if str_eq id j then some (text secret) else api_key_of j s)
with_api_key-api_key_of id j secret s =
    let old = or_else (lookup id s.provider_bootstrap_config) no_fields in
    let found =
      ap (λ o. get "api_key" (or_else o no_fields))
        (lookup-insert id j (set_field "api_key" (text secret) old) s.provider_bootstrap_config) in
    elim (Bool-cases (str_eq id j)) [
      | inl e ↦ found ∙ rw (e) (get-set_field "api_key" "api_key" (text secret) old)
      | inr e ↦ found ∙ rw (e) refl
    ]

-- A function that does nothing the second time, done once and then perhaps again.
once_or_twice :
    {A : Type 0} (f : A → A) (b c : Bool) (x : A)
    → f (f x) ≡ f x
    → (if c then f (if b then f x else x) else if b then f x else x) ≡ (if b || c then f x else x)
once_or_twice f true true x h = h
once_or_twice f true false x h = refl
once_or_twice f false true x h = refl
once_or_twice f false false x h = refl

str_eq_comm : (a b : String) → str_eq a b ≡ str_eq b a
str_eq_comm a b = elim (Bool-cases (str_eq b a)) [
  | inl e ↦ ground (arith, e, eq_iff a b, eq_iff b a)
  | inr e ↦ ground (arith, e, eq_iff a b, eq_iff b a)
]

module _ (secrets : Dict String) where
  -- What the secrets make of a key: the stored one, if there is one and it is not OpenRouter's.
  abbrev pub managed : String → Option Json → Option Json
  managed id old =
      if str_eq id "openrouter"
      then old
      else elim (lookup (secret_key id) secrets) [ none ↦ old | some v ↦ some (text v) ]

  abbrev after_one : String → Switches → Switches
  after_one id s =
      if str_eq id "openrouter"
      then s
      else elim (lookup (secret_key id) secrets) [ none ↦ s | some v ↦ with_api_key id v s ]

  after_one-api_key_of :
      (id j : String) (s : Switches)
      → api_key_of j (after_one id s)
        ≡ (if str_eq id j then managed j (api_key_of j s) else api_key_of j s)
  after_one-api_key_of id j s = elim (Bool-cases (str_eq id j)) [
    | inl e ↦
        let same : id ≡ j = ground (arith, e, eq_iff id j) in
        rw (e)
          (subst (λ k. api_key_of k (after_one id s) ≡ managed k (api_key_of k s)) same (own id))
    | inr e ↦ rw (e) (elim (Bool-cases (str_eq id "openrouter")) [
      | inl o ↦ rw (o) refl
      | inr o ↦ elim (Option-cases (lookup (secret_key id) secrets)) [
        | inl n ↦ ground (arith, o, n)
        | inr (v, n) ↦ ground (arith, o, n, with_api_key-api_key_of id j v s, e)
      ]
    ])
  ]
    where
      own : (k : String) → api_key_of k (after_one k s) ≡ managed k (api_key_of k s)
      own k = elim (Bool-cases (str_eq k "openrouter")) [
        | inl o ↦ rw (o) refl
        | inr o ↦ elim (Option-cases (lookup (secret_key k) secrets)) [
          | inl n ↦ ground (arith, o, n)
          | inr (v, n) ↦ ground (arith, o, n, with_api_key-api_key_of k k v s, eq_iff k k)
        ]
      ]

  managed-managed : (id : String) (old : Option Json) → managed id (managed id old) ≡ managed id old
  managed-managed id old = ground arith

  apply_keys-api_key_of :
      (j : String) (ids : List String) (s : Switches)
      → api_key_of j (apply_keys secrets ids s)
        ≡ (if any (str_eq j) ids then managed j (api_key_of j s) else api_key_of j s)
  unfolding apply_keys
  apply_keys-api_key_of j [] s = refl
  apply_keys-api_key_of j (id ∷ ids) s =
      let old = api_key_of j s in
      let again = any (str_eq j) ids in
      apply_keys-api_key_of j ids (after_one id s)
      ∙ ap (λ o. if again then managed j o else o) (after_one-api_key_of id j s)
      ∙ once_or_twice (managed j) (str_eq id j) again old (managed-managed j old)
      ∙ ap (λ b. if b || again then managed j old else old) (str_eq_comm id j)

  -- After the secrets were applied, the settings hold for each supported provider but OpenRouter the key
  -- that is stored under its name, if there is one, and in any other case the key that they held before.
  pub apply_managed_secrets-api_key_of :
      (supported : List String) (s : Switches) (j : String)
      → api_key_of j (apply_managed_secrets secrets supported s)
        ≡ (if any (str_eq j) supported then managed j (api_key_of j s) else api_key_of j s)
  unfolding apply_managed_secrets
  apply_managed_secrets-api_key_of supported s j = apply_keys-api_key_of j supported (record s {
    openrouter_api_key = or_else (lookup "openrouter_api_key" secrets) s.openrouter_api_key;
  })
