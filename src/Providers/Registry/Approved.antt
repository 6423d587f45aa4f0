-- ===== src/Providers/Registry/Approved.antt =====
-- Which adapters src/providers/registry.py gives out.
use mathlib.Core.Path.{subst}
use free_lunch.Dict.{lookup, insert, lookup-All, insert-All}
use free_lunch.Providers.ApiBase.{UrlReading}
use free_lunch.Providers.Registry.{
  Adapter, RegisteredProvider, Setup, Registry, descriptors_after, register, is_valid_base,
  register_one, register_all, iter_provider_bootstrap_descriptors, register_configured,
  get_registered, get,
}
use free_lunch.Prelude.{
  String, ◌≡◌, ◌∙◌, refl, sym, true, false, some, List, [], ◌∷◌, arith, str_eq, Option-cases,
  Bool-cases, inl, inr, All, any, ◌||◌, if_keeps,
}

module _ (r : UrlReading) (s : Setup) where
  -- Registered as the settings say of its id, with an adapter whose base is valid for that id.
  abbrev pub IsApproved : String → RegisteredProvider → Type 0
  IsApproved k p =
      (id : String) × (k ≡ r.strip id)
      × (p.inference_enabled ≡ s.inference_enabled id)
      × (is_valid_base r s id p.adapter.api_base ≡ true)

  AllApproved : Registry → Type 0
  AllApproved d = All (λ e. IsApproved e.0 e.1) d

  abbrev HasName : String → Type 0
  HasName id = str_eq id "" ≡ false

  descriptors-HasName : (seen ids : List String) → All HasName (descriptors_after r s seen ids)
  descriptors-HasName seen [] = tt
  descriptors-HasName seen (id ∷ ids) =
      elim (Bool-cases (str_eq (r.strip id) "" || any (str_eq (r.strip id)) seen)) [
        | inl e ↦ rw (e) (descriptors-HasName seen ids)
        | inr e ↦ rw (e) (
            if_keeps (All HasName) (s.has_descriptor (r.strip id)) _ _
              (ground (arith, e), descriptors-HasName (r.strip id ∷ seen) ids)
              (descriptors-HasName (r.strip id ∷ seen) ids))
      ]

  register-AllApproved :
      (id : String) (a : Adapter) (d e : Registry)
      → HasName id
      → is_valid_base r s id a.api_base ≡ true
      → AllApproved d
      → register r (some id) a (s.discovery_enabled id) (s.inference_enabled id) d ≡ some e
      → AllApproved e
  unfolding AllApproved
  register-AllApproved id a d e n v h g = elim (Bool-cases (str_eq (r.strip id) "")) [
    | inl z ↦ ground (arith, g, n, z)
    | inr z ↦
        let added : insert (r.strip id)
              (record {
                name = r.strip id;
                adapter = a;
                discovery_enabled = s.discovery_enabled id;
                inference_enabled = s.inference_enabled id;
              })
              d
            ≡ e =
          ground (arith, g, n, z) in
        subst (λ x. All (λ e. IsApproved e.0 e.1) x) added
          (insert-All IsApproved (r.strip id) _ d h (id, refl, refl, v))
  ]

  registers :
      (id : String) (a : Adapter) (d : Registry)
      → is_valid_base r s id (s.configured_api_base id) ≡ true
      → s.build id ≡ some a
      → is_valid_base r s id a.api_base ≡ true
      → register_one r s id d
        ≡ register r (some id) a (s.discovery_enabled id) (s.inference_enabled id) d
  unfolding register_one
  registers id a d c b v = rw (register_one, c, b, v) refl

  register_one-AllApproved :
      (id : String) (d e : Registry)
      → HasName id
      → AllApproved d
      → register_one r s id d ≡ some e
      → AllApproved e
  unfolding register_one
  register_one-AllApproved id d e n h g =
      elim (Bool-cases (is_valid_base r s id (s.configured_api_base id))) [
        | inr c ↦ ground (arith, g, c)
        | inl c ↦ elim (Option-cases (s.build id)) [
          | inl b ↦ ground (arith, g, c, b)
          | inr (a, b) ↦ elim (Bool-cases (is_valid_base r s id a.api_base)) [
            | inr v ↦ ground (arith, g, c, b, v)
            | inl v ↦ register-AllApproved id a d e n v h (sym (registers id a d c b v) ∙ g)
          ]
        ]
      ]

  register_all-AllApproved :
      (ids : List String) (d : Registry)
      → All HasName ids
      → AllApproved d
      → AllApproved (register_all r s ids d).0
  unfolding register_all
  register_all-AllApproved [] d n h = h
  register_all-AllApproved (id ∷ ids) d n h = elim (Option-cases (register_one r s id d)) [
    | inl e ↦ rw (register_all, e) h
    | inr (x, e) ↦
        rw (register_all, e)
          (register_all-AllApproved ids x n.1 (register_one-AllApproved id d x n.0 h e))
  ]

  get-found :
      (name : String) (a : Adapter) (d : Registry)
      → get r name d ≡ some a
      → (p : RegisteredProvider) × (lookup (r.strip name) d ≡ some p)
        × (p.inference_enabled ≡ true)
        × (p.adapter ≡ a)
  unfolding get
  get-found name a d h = elim (Option-cases (get_registered r name d)) [
    | inl e ↦ ground (arith, h, e)
    | inr (p, e) ↦ elim (Bool-cases p.inference_enabled) [
      | inl i ↦ (p, ground (arith, e), i, ground (arith, h, e, i))
      | inr i ↦ ground (arith, h, e, i)
    ]
  ]

  -- An adapter that a registry gives out by its name, after it was filled from the settings, was registered
  -- for a provider id that is this name without white space around it, whose inference the settings have
  -- enabled, and its API base, if it has one, is valid for that id.
  pub get-IsApproved :
      (name : String) (a : Adapter)
      → get r name (register_configured r s).0 ≡ some a
      → (id : String) × (r.strip name ≡ r.strip id)
        × (s.inference_enabled id ≡ true)
        × (is_valid_base r s id a.api_base ≡ true)
  unfolding register_configured iter_provider_bootstrap_descriptors AllApproved
  get-IsApproved name a h =
      let ids : List String = iter_provider_bootstrap_descriptors r s in
      let (p, e, i, same) = get-found name a (register_configured r s).0 h in
      let (id, k, j, v) =
        lookup-All IsApproved (r.strip name) p (register_configured r s).0
          (register_all-AllApproved ids [] (descriptors-HasName [] s.known_provider_ids) tt) e in
      (id, k, sym j ∙ i, subst (λ b. is_valid_base r s id b.api_base ≡ true) same v)
