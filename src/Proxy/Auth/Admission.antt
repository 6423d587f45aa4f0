-- ===== src/Proxy/Auth/Admission.antt =====
-- Whom the gateway's token check lets in, and what a wrong token leaves behind.
use free_lunch.Prelude.{
  ℕ, String, ◌≡◌, ◌≢◌, refl, Bool, true, Option, none, some, arith, str_eq, eq_iff, or_else, ◌⊎◌,
  inl, inr, Bool-cases,
}
use free_lunch.Throttle.{FailureThrottle, retry_after, fail}
use free_lunch.Throttle.Bounds.{IsValid, fail-IsValid, retry_after-IsValid, reset-IsValid}
use free_lunch.Proxy.Events.{drop_chars}
use text.Mathlib.Text.{starts_with}
use free_lunch.Proxy.Auth.{
  AuthRow, AuthConfig, AuthState, get_gateway_auth_config, inherited, choose_state,
  resolve_gateway_auth_state, compare_digest, allowed, refuse, accepts_token, check_token,
  check_gateway_auth,
}

module _ (digest : String → String) (verify : String → AuthConfig → Bool) where
  -- What a request must show: the key of the environment, which is not empty, or a token that fits
  -- a stored hash.
  abbrev pub Shows : String → Option AuthRow → String → Type 0
  Shows env_key row token =
      ((token ≡ env_key) × (env_key ≢ ""))
      ⊎ ((config : AuthConfig) × ((get_gateway_auth_config row).1 ≡ some config)
          × (verify token config ≡ true))

  allowed_token :
      (st : AuthState) (t : FailureThrottle) (now failed_at checked_at : ℕ) (key : String)
      (authorization : Option String)
      → st.enabled ≡ true
      → (check_gateway_auth digest verify st t now failed_at checked_at key authorization).0
        ≡ allowed
      → (starts_with (or_else authorization "") "Bearer " ≡ true)
        × (accepts_token digest verify st (drop_chars 7 (or_else authorization "")) ≡ some true)
  unfolding check_gateway_auth check_token refuse
  allowed_token st t now failed_at checked_at key authorization on h = ground arith

  compare_digest-eq : (a b : String) → compare_digest a b ≡ some true → a ≡ b
  unfolding compare_digest
  compare_digest-eq a b h = ground (arith, eq_iff a b)

  inherited-Shows :
      (env_key : String) (row : Option AuthRow) (token : String)
      → accepts_token digest verify (inherited env_key) token ≡ some true
      → Shows env_key row token
  unfolding accepts_token
  inherited-Shows env_key row token h =
      ground (arith, compare_digest-eq token env_key, eq_iff env_key "")

  choose_state-Shows :
      (env_key mode : String) (row : Option AuthRow) (config : Option AuthConfig) (token : String)
      → (get_gateway_auth_config row).1 ≡ config
      → accepts_token digest verify (choose_state env_key mode config) token ≡ some true
      → Shows env_key row token
  unfolding choose_state accepts_token
  choose_state-Shows env_key mode row none token stored h =
      ground (arith, inherited-Shows env_key row token)
  choose_state-Shows env_key mode row (some c) token stored h =
      elim (Bool-cases (str_eq mode "enabled")) [
        | inl e ↦ inr (c, stored, ground (arith, e, h))
        | inr e ↦ ground (arith, inherited-Shows env_key row token)
      ]

  resolved-Shows :
      (env_key : String) (row : Option AuthRow) (token : String)
      → accepts_token digest verify (resolve_gateway_auth_state env_key row) token ≡ some true
      → Shows env_key row token
  unfolding resolve_gateway_auth_state
  resolved-Shows env_key row token h =
      choose_state-Shows env_key (get_gateway_auth_config row).0 row (get_gateway_auth_config row).1
        token refl h

  -- If the state that the settings and the stored row lead to asks for a token, then it lets in only
  -- a request with a bearer token that is the key of the environment, which is not empty, or that
  -- fits the hash of the stored row.
  pub allowed-Shows :
      (env_key : String) (row : Option AuthRow) (t : FailureThrottle) (now failed_at checked_at : ℕ)
      (key : String) (authorization : Option String)
      → (resolve_gateway_auth_state env_key row).enabled ≡ true
      → (check_gateway_auth digest verify
          (resolve_gateway_auth_state env_key row)
          t
          now
          failed_at
          checked_at
          key
          authorization).0
        ≡ allowed
      → (starts_with (or_else authorization "") "Bearer " ≡ true)
        × Shows env_key row (drop_chars 7 (or_else authorization ""))
  unfolding check_gateway_auth
  allowed-Shows env_key row t now failed_at checked_at key authorization on h =
      let st = resolve_gateway_auth_state env_key row in
      let (bearer, ok) = allowed_token st t now failed_at checked_at key authorization on h in
      (bearer, resolved-Shows env_key row (drop_chars 7 (or_else authorization "")) ok)

  -- The check keeps the throttle valid, whatever it answers.
  pub check_gateway_auth-IsValid :
      (st : AuthState) (t : FailureThrottle) (now failed_at checked_at : ℕ) (key : String)
      (authorization : Option String)
      → IsValid t
      → IsValid (check_gateway_auth digest verify st t now failed_at checked_at key authorization).1
  unfolding check_gateway_auth
  check_gateway_auth-IsValid st t now failed_at checked_at key authorization v =
      let seen = (retry_after digest t now key).1 in
      let w = retry_after-IsValid digest t now key v in
      ground (
        arith,
        w,
        retry_after-IsValid digest (fail digest seen failed_at key) checked_at key
            (fail-IsValid digest seen failed_at key w),
        reset-IsValid digest seen key w,
      )
