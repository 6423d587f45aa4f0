-- ===== src/Settings/Providers/Configured.antt =====
-- Which providers src/config.py takes for enabled, from the configuration that it read.
use free_lunch.Dict.{lookup, lookup-insert}
use free_lunch.Json.{Json}
use free_lunch.Settings.Providers.{
  Environment, is_on, fill, keys, coerce_provider_sections, enabled_names, section_of,
  configured_enabled, provider_ids, from_env, is_provider_enabled, is_provider_discovery_enabled,
  is_provider_inference_enabled,
}
use free_lunch.Prelude.{
  String, ◌≡◌, ◌∙◌, ap, refl, Bool, true, false, not, ◌&&◌, ◌||◌, none, some, List, [], ◌∷◌, ◌++◌,
  arith, str_eq, eq_iff, if◌then◌else◌, any, or_else, Bool-cases, inl, inr,
}

lookup-fill :
    {A : Type 0} (f : String → A) (k : String) (ks : List String)
    → lookup k (fill f ks) ≡ (if any (str_eq k) ks then some (f k) else none)
lookup-fill f k [] = refl
lookup-fill f k (j ∷ js) = elim (Bool-cases (str_eq k j)) [
  | inl e ↦
      let same : k ≡ j = ground (arith, e, eq_iff k j) in
      ground (arith, lookup-insert j k (f j) (fill f js), same, e, eq_iff j k)
  | inr e ↦
      ground
        (arith, lookup-insert j k (f j) (fill f js), lookup-fill f k js, e, eq_iff j k, eq_iff k j)
]

any-append :
    (k : String) (xs ys : List String)
    → any (str_eq k) (xs ++ ys) ≡ (any (str_eq k) xs || any (str_eq k) ys)
any-append k [] ys = refl
any-append k (x ∷ xs) ys = ground (arith, any-append k xs ys)

module _ (env : Environment) (providers : Json) where
  -- A name under `enabled` is a known id.
  enabled_known :
      (k : String)
      → any (str_eq k) (enabled_names env providers) ≡ true
      → any (str_eq k) (provider_ids env providers) ≡ true
  enabled_known k h = ground (
    arith,
    h,
    any-append k (keys (coerce_provider_sections providers) ++ enabled_names env providers)
        ("openrouter" ∷ []),
    any-append k (keys (coerce_provider_sections providers)) (enabled_names env providers),
  )

  -- A switch that is on for no name but those under `enabled` is found, or has that default.
  found_or_default :
      (f : String → Bool) (k : String) (default : Bool)
      → (any (str_eq k) (enabled_names env providers) ≡ false → f k ≡ default)
      → or_else (lookup k (fill f (provider_ids env providers))) default ≡ f k
  found_or_default f k default off =
      elim (Bool-cases (any (str_eq k) (provider_ids env providers))) [
        | inl e ↦ ground (arith, e, lookup-fill f k (provider_ids env providers))
        | inr e ↦
            ground (arith, e, lookup-fill f k (provider_ids env providers), enabled_known k, off)
      ]

  enabled_as_configured :
      (id : String)
      → str_eq (env.strip id) "" ≡ false
      → is_provider_enabled env (from_env env providers) id
        ≡ configured_enabled env providers (env.strip id)
  unfolding is_provider_enabled from_env
  enabled_as_configured id h = rw (h) (
      found_or_default (configured_enabled env providers) (env.strip id)
        (any (str_eq (env.strip id)) (enabled_names env providers)) (λ off. rw (off) refl))

  -- An id that is listed as enabled and whose section turns off neither the provider nor this use of it.
  abbrev pub configured_use : String → String → Bool
  configured_use use_key p =
      configured_enabled env providers p && is_on use_key (section_of providers p)

  -- A use that falls back on whether the provider is enabled.
  use_as_configured :
      (use_key p : String) (default : Bool)
      → default ≡ configured_enabled env providers p
      → (default
          && or_else
              (lookup p (fill (configured_use use_key) (provider_ids env providers)))
              default)
        ≡ configured_use use_key p
  use_as_configured use_key p default same =
      let found =
        found_or_default (configured_use use_key) p default (λ off. ground (arith, off, same)) in
      ground (arith, found, same)

  -- Of a provider that has a name, discovery and inference are taken for enabled exactly when `enabled` lists
  -- it, and its section turns off neither the provider nor that use; without a name they are not, where
  -- `strip` has no effect on what it gives.
  pub uses_as_configured :
      (id : String)
      → env.strip (env.strip id) ≡ env.strip id
      → (is_provider_discovery_enabled env (from_env env providers) id
          ≡ (not (str_eq (env.strip id) "") && configured_use "discovery_enabled" (env.strip id)))
        × (is_provider_inference_enabled env (from_env env providers) id
            ≡ (not (str_eq (env.strip id) "") && configured_use "inference_enabled" (env.strip id)))
  unfolding is_provider_discovery_enabled is_provider_inference_enabled from_env
  uses_as_configured id again = elim (Bool-cases (str_eq (env.strip id) "")) [
    | inl e ↦ (rw (e) refl, rw (e) refl)
    | inr e ↦
        let p = env.strip id in
        let default = is_provider_enabled env (from_env env providers) p in
        let same : default ≡ configured_enabled env providers p =
          enabled_as_configured p (rw (again) e) ∙ ap (configured_enabled env providers) again in
        (
          rw (e) (use_as_configured "discovery_enabled" p default same),
          rw (e) (use_as_configured "inference_enabled" p default same),
        )
  ]
