-- ===== src/Providers/ApiBase.antt =====
-- `validate_provider_api_base` of src/providers/openai_compatible.py. `urlsplit`, `str.strip`,
-- `str.lower` and the test for an address of the Internet protocol are parameters.
use Prim.Native.Char.{Char, code}
use package.text.Mathlib.Text.{find?}
use free_lunch.Dict.{Dict, lookup}
use free_lunch.Prelude.{
  ℕ, String, Bool, true, false, not, ◌&&◌, ◌||◌, Option, none, some, List, [], ◌∷◌, any, str_eq,
  leb, ltb, ◌==◌, if◌then◌else◌, is_some, or_else,
}

-- The parts of a URL that are read.
pub record Url : Type 0 where
  pub scheme : String
  pub hostname : Option String
  pub port : Option ℕ
  pub username : Option String
  pub password : Option String
  pub query : String
  pub fragment : String

-- `none` is a ValueError.
pub record UrlReading : Type 0 where
  pub urlsplit : String → Option Url
  pub strip : String → String
  pub lower : String → String
  pub is_ip_address : String → Bool

-- KNOWN_PROVIDER_API_HOSTS
abbrev pub known_hosts : Dict (List String)
known_hosts =
    ("openai", "api.openai.com" ∷ [])
    ∷ ("together", "api.together.xyz" ∷ [])
    ∷ ("groq", "api.groq.com" ∷ [])
    ∷ ("deepseek", "api.deepseek.com" ∷ [])
    ∷ ("xai", "api.x.ai" ∷ [])
    ∷ ("cerebras", "api.cerebras.ai" ∷ [])
    ∷ ("perplexity", "api.perplexity.ai" ∷ [])
    ∷ ("nvidia", "integrate.api.nvidia.com" ∷ [])
    ∷ ("openrouter", "openrouter.ai" ∷ [])
    ∷ []

abbrev is_control : Char → Bool
is_control c = ltb (code c) 32 || (leb 127 (code c) && leb (code c) 159)

-- A backslash or a control character.
abbrev has_invalid_char : String → Bool
has_invalid_char String.[] = false
has_invalid_char (String.◌∷◌ c s) = (code c == 92) || (is_control c || has_invalid_char s)

-- `rstrip(".")`
abbrev strip_dots : String → String
strip_dots String.[] = String.[]
strip_dots (String.◌∷◌ c s) =
    let rest = strip_dots s in
    if (code c == 46) && str_eq rest "" then String.[] else String.◌∷◌ c rest

-- `endswith`
abbrev ends_with : String → String → Bool
ends_with suffix String.[] = str_eq suffix ""
ends_with suffix (String.◌∷◌ c s) = str_eq (String.◌∷◌ c s) suffix || ends_with suffix s

abbrev is_local : String → Bool
is_local host =
    str_eq host "localhost"
    || any (λ suffix. ends_with suffix host) (".localhost" ∷ ".local" ∷ ".internal" ∷ [])

abbrev is_https_port : Option ℕ → Bool
is_https_port none = true
is_https_port (some n) = n == 443

abbrev is_plain_url : UrlReading → String → Url → Bool
is_plain_url r value u =
    str_eq (r.lower u.scheme) "https"
    && (not (is_some u.username || is_some u.password)
        && (str_eq u.fragment ""
            && (str_eq u.query ""
                && (not (is_some (find? value "#") || is_some (find? value "?"))
                    && (is_https_port u.port && not (has_invalid_char value))))))

abbrev is_approved_host : UrlReading → String → Bool → String → Bool
is_approved_host r provider allow_custom host =
    not (r.is_ip_address host)
    && (not (is_local host)
        && (any (str_eq host) (or_else (lookup (r.lower provider) known_hosts) []) || allow_custom))

-- The value that is returned, or `none` for a ValueError.
unfoldable pub validate_provider_api_base : UrlReading → String → String → Bool → Option String
validate_provider_api_base r provider base allow_custom =
    let value = r.strip base in
    elim (r.urlsplit value) [
      | none ↦ none
      | some u ↦ elim u.hostname [
        | none ↦ none
        | some host ↦
            if not (str_eq host "")
              && (is_plain_url r value u
                  && is_approved_host r provider allow_custom (strip_dots (r.lower host)))
            then some value
            else none
      ]
    ]
