-- ===== src/Settings/Providers.antt =====
-- The provider switches of src/config.py: how `from_env` reads them from the configuration, and how
-- `is_provider_enabled` and its like answer. The code goes over the sorted set of ids; here an id may be
-- gone over twice, with the same result. `__post_init__` changes nothing in what `from_env` gives.
pub mod Configured
pub mod Secrets
mod Tests
use Prim.Native.String
use free_lunch.Dict.{Dict, lookup, insert}
use free_lunch.Json.{
  Json, null, flag, whole, fraction, text, list, object, Items, no_items, item, Fields, no_fields,
  field, get, truth, to_list, set_field,
}
use free_lunch.Prelude.{
  String, Bool, true, false, not, ◌&&◌, ◌||◌, Option, none, some, List, [], ◌∷◌, ◌++◌, map, select,
  str_eq, if◌then◌else◌, any, or_else,
}

-- `str`, `str.strip`, `str.lower` and `os.getenv`.
pub record Environment : Type 0 where
  pub str : Json → String
  pub strip : String → String
  pub lower : String → String
  pub getenv : String → Option String

-- The fields of `Settings` that are about providers.
pub record Switches : Type 0 where
  pub providers_enabled : List String
  pub provider_enabled : Dict Bool
  pub provider_discovery_enabled : Dict Bool
  pub provider_inference_enabled : Dict Bool
  pub provider_active_probe_enabled : Dict Bool
  pub provider_bootstrap_config : Dict Fields
  pub openrouter_api_key : String

-- `section.get(k, True)` as a truth value
abbrev pub is_on : String → Fields → Bool
is_on k d = truth (or_else (get k d) (flag true))

-- `_coerce_provider_sections`
abbrev pub sections_of : Fields → Dict Fields
sections_of no_fields = []
sections_of (field k v d) =
    let rest = sections_of d in
    elim v [ object e ↦ if str_eq k "enabled" then rest else (k, e) ∷ rest | _ ↦ rest ]

unfoldable pub coerce_provider_sections : Json → Dict Fields
coerce_provider_sections v = elim v [ object d ↦ sections_of d | _ ↦ [] ]

-- A dictionary that holds `f id` under each of the ids.
abbrev pub fill : {A : Type 0} → (String → A) → List String → Dict A
fill f [] = []
fill f (k ∷ ks) = insert k (f k) (fill f ks)

abbrev pub keys : Dict Fields → List String
keys d = map (λ e. e.0) d

abbrev pub section_of : Json → String → Fields
section_of providers id = or_else (lookup id (coerce_provider_sections providers)) no_fields

module _ (env : Environment) where
  unfoldable pub coerce_string_list : Json → List String
  coerce_string_list v = elim v [
    | list xs ↦ select (λ s. not (str_eq (env.strip s) "")) (map env.str (to_list xs))
    | _ ↦ []
  ]

  -- `_env_bool`
  unfoldable pub env_bool : String → Json → Bool
  env_bool name default = elim (env.getenv name) [
    | none ↦ truth default
    | some raw ↦ any (str_eq (env.lower (env.strip raw))) ("1" ∷ "true" ∷ "yes" ∷ "on" ∷ [])
  ]

  -- The names under `enabled`.
  abbrev pub enabled_names : Json → List String
  enabled_names providers = elim providers [
    | object d ↦
        coerce_string_list (or_else (get "enabled" d) (list (item (text "openrouter") no_items)))
    | _ ↦ coerce_string_list (list (item (text "openrouter") no_items))
  ]

  abbrev pub configured_enabled : Json → String → Bool
  configured_enabled providers id =
      any (str_eq id) (enabled_names providers) && is_on "enabled" (section_of providers id)

  abbrev pub active_probe : Json → String → Bool
  active_probe providers id =
      let default = or_else (get "active_probe_enabled" (section_of providers id)) (flag true) in
      if str_eq id "openrouter"
      then env_bool "OPENROUTER_ACTIVE_PROBE_ENABLED" default
      else truth default

  abbrev pub provider_ids : Json → List String
  provider_ids providers =
      keys (coerce_provider_sections providers) ++ enabled_names providers ++ "openrouter" ∷ []

  unfoldable pub from_env : Json → Switches
  unfolding coerce_provider_sections coerce_string_list env_bool
  from_env providers =
      let ids = provider_ids providers in
      record {
        providers_enabled = enabled_names providers;
        provider_enabled = fill (configured_enabled providers) ids;
        provider_discovery_enabled =
            fill
              (λ id.
                configured_enabled providers id
                && is_on "discovery_enabled" (section_of providers id))
              ids;
        provider_inference_enabled =
            fill
              (λ id.
                configured_enabled providers id
                && is_on "inference_enabled" (section_of providers id))
              ids;
        provider_active_probe_enabled = fill (active_probe providers) ids;
        provider_bootstrap_config = fill (section_of providers) ids;
        openrouter_api_key = or_else (env.getenv "OPENROUTER_API_KEY") "";
      }

  unfoldable pub is_provider_enabled : Switches → String → Bool
  is_provider_enabled s id =
      let normalized = env.strip id in
      if str_eq normalized ""
      then false
      else or_else (lookup normalized s.provider_enabled)
          (any (str_eq normalized) s.providers_enabled)

  unfoldable pub is_provider_discovery_enabled : Switches → String → Bool
  unfolding is_provider_enabled
  is_provider_discovery_enabled s id =
      let normalized = env.strip id in
      let default = is_provider_enabled s normalized in
      if str_eq normalized ""
      then false
      else default && or_else (lookup normalized s.provider_discovery_enabled) default

  unfoldable pub is_provider_inference_enabled : Switches → String → Bool
  unfolding is_provider_enabled
  is_provider_inference_enabled s id =
      let normalized = env.strip id in
      let default = is_provider_enabled s normalized in
      if str_eq normalized ""
      then false
      else default && or_else (lookup normalized s.provider_inference_enabled) default

-- PROVIDER_DEFAULT_API_KEY_ENVS
abbrev pub default_api_key_envs : Dict String
default_api_key_envs =
    ("openrouter", "OPENROUTER_API_KEY")
    ∷ ("openai", "OPENAI_API_KEY")
    ∷ ("together", "TOGETHER_API_KEY")
    ∷ ("groq", "GROQ_API_KEY")
    ∷ ("deepseek", "DEEPSEEK_API_KEY")
    ∷ ("xai", "XAI_API_KEY")
    ∷ ("cerebras", "CEREBRAS_API_KEY")
    ∷ ("perplexity", "PERPLEXITY_API_KEY")
    ∷ ("nvidia", "NVIDIA_API_KEY")
    ∷ []

-- `f"providers.{provider_id}.api_key"`
abbrev pub secret_key : String → String
secret_key id = String.◌++◌ "providers." (String.◌++◌ id ".api_key")

abbrev pub with_api_key : String → String → Switches → Switches
with_api_key id secret s = record s {
  provider_bootstrap_config =
      insert id
        (set_field "api_key" (text secret)
          (or_else (lookup id s.provider_bootstrap_config) no_fields))
        s.provider_bootstrap_config;
}

-- The loop over the supported ids.
unfoldable pub apply_keys : Dict String → List String → Switches → Switches
apply_keys secrets [] s = s
apply_keys secrets (id ∷ ids) s = apply_keys secrets ids (
    if str_eq id "openrouter"
    then s
    else elim (lookup (secret_key id) secrets) [ none ↦ s | some v ↦ with_api_key id v s ])

-- `supported` are the ids of `supported_provider_ids`.
unfoldable pub apply_managed_secrets : Dict String → List String → Switches → Switches
unfolding apply_keys
apply_managed_secrets secrets supported s = apply_keys secrets supported (record s {
  openrouter_api_key = or_else (lookup "openrouter_api_key" secrets) s.openrouter_api_key;
})
