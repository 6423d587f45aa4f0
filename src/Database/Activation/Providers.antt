-- ===== src/Database/Activation/Providers.antt =====
-- No row stays active against the registry, or against the last discovery.
use free_lunch.Prelude.{
  String, ◌≡◌, refl, Bool, true, false, not, ◌&&◌, List, [], ◌∷◌, ◌++◌, arith, str_eq, eq_iff,
  select, any, map, All, All-map, if◌then◌else◌, Bool-cases, inl, inr, ◌⊎◌, ap,
}
use free_lunch.Prelude.Members.{In, In-select}
use free_lunch.Dict.{Dict}
use free_lunch.Floats.{Floats}
use free_lunch.Database.Models.{Model, Table, update_where}
use free_lunch.Database.Writes.{deactivate_provider, activated, apply_write, flush}
use free_lunch.Database.Activation.{
  active_providers, is_runtime_enabled, keys, disabled_providers, apply_provider_runtime_state,
}

In-append_left : {A : Type 0} (a : A) (xs ys : List A) → In a xs → In a (xs ++ ys)
In-append_left a [] ys m = absurd m
In-append_left a (x ∷ xs) ys (inl e) = inl e
In-append_left a (x ∷ xs) ys (inr m) = inr (In-append_left a xs ys m)

any_of_In : (q : String) (ps : List String) → In q ps → any (str_eq q) ps ≡ true
any_of_In q [] m = absurd m
any_of_In q (p ∷ ps) m = ground (arith, any_of_In q ps, eq_iff q p)

module _ {F : Type 0} where
  -- The providers of active rows satisfy `R`.
  abbrev pub ActiveOnly : (String → Type 0) → Table F → Type 0
  ActiveOnly R table = All (λ m. m.is_active ≡ true → R m.provider_id) table

  In-disabled :
      (strip : String → String) (runtime : Dict Bool) (configured : List String) (table : Table F)
      (q : String)
      → In q (active_providers table)
      → is_runtime_enabled runtime q ≡ false
      → str_eq (strip q) "" ≡ false
      → In q (disabled_providers strip runtime configured table)
  unfolding disabled_providers
  In-disabled strip runtime configured table q m e b =
      let named = select (λ p. not (str_eq (strip p) "")) (active_providers table) in
      In-select (λ p. not (is_runtime_enabled runtime p)) q (named ++ keys runtime ++ configured)
        (In-append_left q (named ++ keys runtime) configured (
          In-append_left q named (keys runtime)
            (In-select (λ p. not (str_eq (strip p) "")) q (active_providers table) m (ap not b))))
        (ap not e)

  active_provider_listed :
      (m : Model F) (ms : Table F)
      → m.is_active ≡ true
      → In m.provider_id (active_providers (m ∷ ms))
  unfolding active_providers
  active_provider_listed m ms h = ground arith

  active_providers-cons :
      (p : String) (m : Model F) (ms : Table F)
      → In p (active_providers ms)
      → In p (active_providers (m ∷ ms))
  unfolding active_providers
  active_providers-cons p m ms h = ground arith

  active_providers-All : (table : Table F) → ActiveOnly (λ q. In q (active_providers table)) table
  active_providers-All [] = tt
  active_providers-All (m ∷ ms) = (
    active_provider_listed m ms,
    All-map _ _ ms (λ x h a. active_providers-cons x.provider_id m ms (h a))
        (active_providers-All ms),
  )

module _ {F : Type 0} ⦃fl : Floats F⦄ where
  deactivate-All :
      (p : String) (R : String → Type 0) (table : Table F)
      → ActiveOnly R table
      → ActiveOnly
          (λ q. (str_eq q p ≡ false) × R q)
          (update_where (λ m. str_eq m.provider_id p && m.is_active) (activated false) table)
  deactivate-All p R [] h = tt
  deactivate-All p R (m ∷ ms) h =
      (head (Bool-cases (str_eq m.provider_id p && m.is_active)), deactivate-All p R ms h.1)
    where
      head :
          ((str_eq m.provider_id p && m.is_active) ≡ true)
            ⊎ ((str_eq m.provider_id p && m.is_active) ≡ false)
          → (if str_eq m.provider_id p && m.is_active then activated false m else m).is_active
            ≡ true
          → (str_eq
                (if str_eq m.provider_id p && m.is_active then activated false m else m).provider_id
                p
              ≡ false)
            × R (if str_eq m.provider_id p && m.is_active then activated false m else m).provider_id
      head (inl e) = rw (e) (λ a. ground arith)
      head (inr e) = rw (e) (λ a. (ground arith, h.0 a))

  -- After the deactivations no active row has one of the providers, and other facts on them stay.
  flush-ActiveOnly :
      (ps : List String) (R : String → Type 0) (table : Table F)
      → ActiveOnly R table
      → ActiveOnly
          (λ q. (any (str_eq q) ps ≡ false) × R q)
          (flush (map deactivate_provider ps) table)
  unfolding flush apply_write
  flush-ActiveOnly [] R table h = All-map _ _ table (λ m k a. (refl, k a)) h
  flush-ActiveOnly (p ∷ ps) R table h =
      All-map _ _ (flush (map deactivate_provider ps) (apply_write (deactivate_provider p) table))
        (λ m k a. (ground (arith, (k a).0, (k a).1.0), (k a).1.1))
        (flush-ActiveOnly ps (λ q. (str_eq q p ≡ false) × R q)
          (apply_write (deactivate_provider p) table) (deactivate-All p R table h))

  -- Once the statements have run, each active row has a provider that the registry has enabled for
  -- inference, or one whose name is blank.
  pub apply_provider_runtime_state-enabled :
      (strip : String → String) (runtime : Dict Bool) (configured : List String) (table : Table F)
      → ActiveOnly
          (λ q. (is_runtime_enabled runtime q ≡ true) ⊎ (str_eq (strip q) "" ≡ true))
          (flush (apply_provider_runtime_state strip runtime configured table) table)
  unfolding apply_provider_runtime_state disabled_providers
  apply_provider_runtime_state-enabled strip runtime configured table =
      All-map _ _ (flush (apply_provider_runtime_state strip runtime configured table) table)
        (λ m k a. elim (Bool-cases (is_runtime_enabled runtime m.provider_id)) [
          | inl e ↦ inl e
          | inr e ↦ elim (Bool-cases (str_eq (strip m.provider_id) "")) [
            | inl b ↦ inr b
            | inr b ↦
                let listed =
                  any_of_In m.provider_id (disabled_providers strip runtime configured table)
                    (In-disabled strip runtime configured table m.provider_id (k a).1 e b) in
                ground (arith, listed, (k a).0)
          ]
        ])
        (flush-ActiveOnly (disabled_providers strip runtime configured table)
          (λ q. In q (active_providers table)) table (active_providers-All table))
