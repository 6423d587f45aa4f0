-- ===== src/Proxy/Auth/Tests.antt =====
-- The token check at concrete requests: the digest is the key itself, and a hash is its token.
use free_lunch.Prelude.{String, ◌≡◌, refl, Bool, true, some, str_eq, Option, []}
use text.Mathlib.Text.{starts_with}
use free_lunch.Throttle.{FailureThrottle, init, retry_after}
use free_lunch.Throttle.Bounds.{IsValid, init-IsValid}
use free_lunch.Proxy.Events.{drop_chars}
use free_lunch.Proxy.Auth.{
  AuthRow, AuthConfig, resolve_gateway_auth_state, choose_state, get_gateway_auth_config,
  row_config, check_gateway_auth, check_token, accepts_token,
}
use free_lunch.Proxy.Auth.Admission.{Shows, allowed-Shows}

abbrev same : String → String
same s = s

abbrev fits : String → AuthConfig → Bool
fits token config = str_eq token config.token_hash_b64

abbrev row : Option AuthRow
row =
    some (record {
      mode = some "enabled";
      token_salt_b64 = some "salt";
      token_hash_b64 = some "secret";
    })

abbrev empty : FailureThrottle
empty = record { limit = 5; window_seconds = 300; max_entries = 4096; entries = [] }

allowed-Shows_example :
    (starts_with "Bearer secret" "Bearer " ≡ true)
    × Shows same fits "" row (drop_chars 7 "Bearer secret")
unfolding check_gateway_auth check_token accepts_token resolve_gateway_auth_state choose_state
    get_gateway_auth_config row_config retry_after drop_chars
allowed-Shows_example =
    allowed-Shows same fits "" row empty 1 1 1 "host" (some "Bearer secret") refl refl

empty-IsValid : IsValid empty
unfolding init
empty-IsValid = init-IsValid 5 300 4096
