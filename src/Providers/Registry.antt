-- ===== src/Providers/Registry.antt =====
-- `ProviderRegistry` of src/providers/registry.py. What the settings say of a provider, which providers
-- have a module and what their factories build are parameters; a module that raises when it is imported
-- is not modelled.
pub mod Approved
mod Tests
use free_lunch.Dict.{Dict, lookup, insert}
use free_lunch.Providers.ApiBase.{UrlReading, validate_provider_api_base}
use free_lunch.Prelude.{
  String, Bool, true, false, not, ◌||◌, Option, none, some, List, [], ◌∷◌, any, str_eq, map, select,
  if◌then◌else◌, is_some,
}

-- An adapter, as far as the registry looks at it.
pub record Adapter : Type 0 where
  pub name : String
  pub api_base : Option String

pub record RegisteredProvider : Type 0 where
  pub name : String
  pub adapter : Adapter
  pub discovery_enabled : Bool
  pub inference_enabled : Bool

-- What the settings and the provider modules say; a factory may raise.
pub record Setup : Type 0 where
  pub known_provider_ids : List String
  pub has_descriptor : String → Bool
  pub configured_api_base : String → Option String
  pub allow_custom_api_base : String → Bool
  pub discovery_enabled : String → Bool
  pub inference_enabled : String → Bool
  pub build : String → Option Adapter

abbrev pub Registry : Type 0
Registry = Dict RegisteredProvider

module _ (r : UrlReading) where
  -- The ids with a descriptor, each once, in the order of the settings.
  abbrev descriptors_after : Setup → List String → List String → List String
  descriptors_after s seen [] = []
  descriptors_after s seen (id ∷ ids) =
      let name = r.strip id in
      let rest = descriptors_after s (name ∷ seen) ids in
      if str_eq name "" || any (str_eq name) seen
      then descriptors_after s seen ids
      else (if s.has_descriptor name then name ∷ rest else rest)

  unfoldable pub iter_provider_bootstrap_descriptors : Setup → List String
  iter_provider_bootstrap_descriptors s = descriptors_after s [] s.known_provider_ids

  -- `name or adapter.name`; `none` is a ValueError.
  abbrev pub register : Option String → Adapter → Bool → Bool → Registry → Option Registry
  register name a discovery inference registry =
      let given : String = elim name [
        | none ↦ a.name
        | some n ↦ if str_eq n "" then a.name else n
      ] in
      let provider_name = r.strip given in
      if str_eq provider_name ""
      then none
      else some (
          insert provider_name
            (record {
              name = provider_name;
              adapter = a;
              discovery_enabled = discovery;
              inference_enabled = inference;
            })
            registry)

  abbrev pub is_valid_base : Setup → String → Option String → Bool
  is_valid_base s id none = true
  is_valid_base s id (some base) =
      is_some (validate_provider_api_base r id base (s.allow_custom_api_base id))

  -- One provider of the loop; `none` is an exception.
  unfoldable pub register_one : Setup → String → Registry → Option Registry
  unfolding validate_provider_api_base
  register_one s id registry =
      if is_valid_base s id (s.configured_api_base id)
      then elim (s.build id) [
        | none ↦ none
        | some a ↦
            if is_valid_base s id a.api_base
            then register (some id) a (s.discovery_enabled id) (s.inference_enabled id) registry
            else none
      ]
      else none

  -- The registry that is left, and whether the loop came to its end.
  unfoldable pub register_all : Setup → List String → Registry → Registry × Bool
  unfolding register_one
  register_all s [] registry = (registry, true)
  register_all s (id ∷ ids) registry = elim (register_one s id registry) [
    | none ↦ (registry, false)
    | some next ↦ register_all s ids next
  ]

  unfoldable pub register_configured : Setup → Registry × Bool
  unfolding register_all iter_provider_bootstrap_descriptors
  register_configured s = register_all s (iter_provider_bootstrap_descriptors s) []

  -- `none` is a KeyError.
  abbrev pub get_registered : String → Registry → Option RegisteredProvider
  get_registered name registry =
      if str_eq (r.strip name) "" then none else lookup (r.strip name) registry

  unfoldable pub get : String → Registry → Option Adapter
  get name registry = elim (get_registered name registry) [
    | none ↦ none
    | some p ↦ if p.inference_enabled then some p.adapter else none
  ]

  -- The adapters that discovery asks.
  abbrev pub all_adapters : Registry → List Adapter
  all_adapters registry = map (λ e. e.1.adapter) (select (λ e. e.1.discovery_enabled) registry)
