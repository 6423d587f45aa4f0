-- ===== src/Proxy/Auth.antt =====
-- The gateway's token: `_get_gateway_auth_config` and `_resolve_gateway_auth_state` of src/main.py,
-- `_check_gateway_auth` of src/proxy.py and what it calls. The salted hash of a managed token is
-- checked by `verify_gateway_auth_token`, which rests on a cryptography library: a parameter. The
-- throttle is that of the category "gateway"; each reading of the clock is an argument.
pub mod Admission
mod Tests
use text.Mathlib.Text.{starts_with}
use Prim.Native.String
use Prim.Native.Char.{code}
use free_lunch.Prelude.{
  ℕ, zero, suc, String, Bool, true, false, not, ◌&&◌, ◌||◌, Option, none, some, List, [], ◌∷◌,
  str_eq, ltb, ◌==◌, if◌then◌else◌, or_else, is_some,
}
use free_lunch.Throttle.{FailureThrottle, retry_after, fail, reset}
use free_lunch.Proxy.Events.{drop_chars}

-- A row of the table `gateway_auth_config`.
pub record AuthRow : Type 0 where
  pub mode : Option String
  pub token_salt_b64 : Option String
  pub token_hash_b64 : Option String

-- `GatewayAuthConfig`
pub record AuthConfig : Type 0 where
  pub token_salt_b64 : String
  pub token_hash_b64 : String

pub data Source : Type 0 where
  disabled env managed : Source

-- The entries of the state that the check reads.
pub record AuthState : Type 0 where
  pub mode : String
  pub enabled : Bool
  pub source : Source
  pub config : Option AuthConfig
  pub env_key : Option String

-- The configuration of a row that has a salt and a hash.
unfoldable pub row_config : AuthRow → Option AuthConfig
row_config row =
    let salt = or_else row.token_salt_b64 "" in
    let hash = or_else row.token_hash_b64 "" in
    if str_eq salt "" || str_eq hash ""
    then none
    else some (record { token_salt_b64 = salt; token_hash_b64 = hash })

abbrev row_mode : AuthRow → String
row_mode row = if str_eq (or_else row.mode "") "" then "inherit" else or_else row.mode ""

-- `_get_gateway_auth_config`: the mode and the configuration.
unfoldable pub get_gateway_auth_config : Option AuthRow → String × Option AuthConfig
unfolding row_config
get_gateway_auth_config none = ("inherit", none)
get_gateway_auth_config (some row) =
    (row_mode row, if str_eq (row_mode row) "enabled" then row_config row else none)

abbrev pub inherited : String → AuthState
inherited env_key = record {
  mode = "inherit";
  enabled = not (str_eq env_key "");
  source = if str_eq env_key "" then disabled else env;
  config = none;
  env_key = if str_eq env_key "" then none else some env_key;
}

abbrev pub turned_off : AuthState
turned_off = record {
  mode = "disabled";
  enabled = false;
  source = disabled;
  config = none;
  env_key = none;
}

abbrev pub managed_by : AuthConfig → AuthState
managed_by config = record {
  mode = "enabled";
  enabled = true;
  source = managed;
  config = some config;
  env_key = none;
}

-- The state for a key of the environment, a mode and a stored configuration.
unfoldable pub choose_state : String → String → Option AuthConfig → AuthState
choose_state env_key mode none = if str_eq mode "disabled" then turned_off else inherited env_key
choose_state env_key mode (some c) =
    if str_eq mode "enabled"
    then managed_by c
    else if str_eq mode "disabled"
    then turned_off
    else inherited env_key

-- `_resolve_gateway_auth_state`; `env_key` is `GATEWAY_API_KEY` without white space around it.
unfoldable pub resolve_gateway_auth_state : String → Option AuthRow → AuthState
unfolding get_gateway_auth_config choose_state
resolve_gateway_auth_state env_key row =
    choose_state env_key (get_gateway_auth_config row).0 (get_gateway_auth_config row).1

-- Whether all characters are ASCII.
unfoldable pub is_ascii : String → Bool
is_ascii String.[] = true
is_ascii (String.◌∷◌ c s) = ltb (code c) 128 && is_ascii s

-- `hmac.compare_digest` on texts; `none` is the TypeError for a text that is not ASCII.
unfoldable pub compare_digest : String → String → Option Bool
unfolding is_ascii
compare_digest a b = if is_ascii a && is_ascii b then some (str_eq a b) else none

pub data Answer : Type 0 where
  allowed unauthorized : Answer
  -- status 429 with its `Retry-After`
  throttled : ℕ → Answer
  -- an exception that is no HTTP answer
  crashed : Answer

module _ (digest : String → String) (verify : String → AuthConfig → Bool) where
  -- `_record_auth_failure`, and the 401 that follows it.
  unfoldable pub refuse : FailureThrottle → ℕ → ℕ → String → Answer × FailureThrottle
  refuse t failed_at checked_at key =
      let (seconds, after) = retry_after digest (fail digest t failed_at key) checked_at key in
      (if seconds == 0 then unauthorized else throttled seconds, after)

  -- Whether the token is the right one, which may raise.
  unfoldable pub accepts_token : AuthState → String → Option Bool
  unfolding compare_digest
  accepts_token st token = elim st.source [
    | env ↦ elim st.env_key [ none ↦ some false | some key ↦ compare_digest token key ]
    | managed ↦ elim st.config [ none ↦ some false | some config ↦ some (verify token config) ]
    | disabled ↦ some false
  ]

  -- The body of `_check_gateway_auth` behind the throttle.
  unfoldable pub check_token :
      AuthState → FailureThrottle → ℕ → ℕ → String → Option String → Answer × FailureThrottle
  unfolding refuse accepts_token
  check_token st t failed_at checked_at key authorization =
      let header = or_else authorization "" in
      if starts_with header "Bearer "
      then elim (accepts_token st (drop_chars 7 header)) [
        | none ↦ (crashed, t)
        | some b ↦ if b then (allowed, reset digest t key) else refuse t failed_at checked_at key
      ]
      else refuse t failed_at checked_at key

  unfoldable pub check_gateway_auth :
      AuthState → FailureThrottle → ℕ → ℕ → ℕ → String → Option String → Answer × FailureThrottle
  unfolding check_token
  check_gateway_auth st t now failed_at checked_at key authorization =
      if st.enabled
      then (let (seconds, seen) = retry_after digest t now key in
          if seconds == 0
          then check_token st seen failed_at checked_at key authorization
          else (throttled seconds, seen))
      else (allowed, t)
