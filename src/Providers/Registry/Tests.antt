-- ===== src/Providers/Registry/Tests.antt =====
-- A registry of src/providers/registry.py with one provider, and one whose base is refused.
use free_lunch.Providers.ApiBase.{Url, UrlReading, validate_provider_api_base}
use free_lunch.Providers.Registry.{
  Adapter, Setup, is_valid_base, register_one, register_all, iter_provider_bootstrap_descriptors,
  register_configured, get,
}
use free_lunch.Providers.Registry.Approved.{get-IsApproved}
use free_lunch.Prelude.{String, ◌≡◌, refl, true, false, Option, none, some, [], ◌∷◌}

abbrev url_of : String → Option Url
url_of value = some (record {
  scheme = "https";
  hostname = some value;
  port = none;
  username = none;
  password = none;
  query = "";
  fragment = "";
})

-- A text is its own host.
abbrev hosts_only : UrlReading
hosts_only = record {
  urlsplit = url_of;
  strip = λ s. s;
  lower = λ s. s;
  is_ip_address = λ s. false;
}

abbrev groq : Adapter
groq = record { name = "groq"; api_base = some "api.groq.com" }

abbrev one_provider : Setup
one_provider = record {
  known_provider_ids = "groq" ∷ "groq" ∷ [];
  has_descriptor = λ s. true;
  configured_api_base = λ s. none;
  allow_custom_api_base = λ s. false;
  discovery_enabled = λ s. true;
  inference_enabled = λ s. true;
  build = λ s. some groq;
}

gives_groq : get hosts_only "groq" (register_configured hosts_only one_provider).0 ≡ some groq
unfolding get register_configured register_all register_one iter_provider_bootstrap_descriptors
    validate_provider_api_base
gives_groq = refl

refuses_local : validate_provider_api_base hosts_only "groq" "db.internal." true ≡ none
unfolding validate_provider_api_base
refuses_local = refl

get-IsApproved_example :
    (id : String) × (hosts_only.strip "groq" ≡ hosts_only.strip id)
    × (one_provider.inference_enabled id ≡ true)
    × (is_valid_base hosts_only one_provider id groq.api_base ≡ true)
get-IsApproved_example = get-IsApproved hosts_only one_provider "groq" groq gives_groq
