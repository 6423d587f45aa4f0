-- ===== src/Settings/Providers/Tests.antt =====
-- Two providers of a configuration of src/config.py, of which one is off.
use free_lunch.Prelude.{◌≡◌, refl, false, not, ◌&&◌, none, some, [], ◌∷◌, str_eq}
use free_lunch.Json.{Json, flag, text, list, object, no_items, item, no_fields, field}
use free_lunch.Settings.Providers.{
  Environment, Switches, apply_keys, apply_managed_secrets, coerce_provider_sections,
  coerce_string_list, env_bool, from_env, is_provider_enabled, is_provider_discovery_enabled,
  is_provider_inference_enabled,
}
use free_lunch.Settings.Providers.Secrets.{api_key_of}
use free_lunch.Settings.Providers.Configured.{configured_use, uses_as_configured}

abbrev env : Environment
env = record {
  str = λ v. elim v [ text s ↦ s | _ ↦ "" ];
  strip = λ s. s;
  lower = λ s. s;
  getenv = λ k. none;
}

abbrev providers : Json
providers = object (
    field "enabled" (list (item (text "openrouter") (item (text "groq") no_items)))
      (field "groq" (object (field "inference_enabled" (flag false) no_fields)) no_fields))

groq_is_off : is_provider_inference_enabled env (from_env env providers) "groq" ≡ false
unfolding is_provider_inference_enabled is_provider_enabled from_env coerce_provider_sections
    coerce_string_list env_bool
groq_is_off = refl

uses_as_configured_example :
    (is_provider_discovery_enabled env (from_env env providers) "groq"
      ≡ (not (str_eq "groq" "") && configured_use env providers "discovery_enabled" "groq"))
    × (is_provider_inference_enabled env (from_env env providers) "groq"
        ≡ (not (str_eq "groq" "") && configured_use env providers "inference_enabled" "groq"))
uses_as_configured_example = uses_as_configured env providers "groq" refl

abbrev switches : Switches
switches = from_env env providers

its_key :
    api_key_of "groq"
      (apply_managed_secrets (("providers.groq.api_key", "s") ∷ []) ("groq" ∷ []) switches)
    ≡ some (text "s")
unfolding apply_managed_secrets apply_keys from_env coerce_provider_sections coerce_string_list
    env_bool
its_key = refl
