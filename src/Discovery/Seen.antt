-- ===== src/Discovery/Seen.antt =====
-- After src/discover.py has asked a provider, its active rows are the ones that it named.
use mathlib.Core.Path.{subst}
use free_lunch.Floats.{Floats}
use free_lunch.Benchmarks.Cache.{Scored}
use free_lunch.Database.Models.{Model, Table, update_where}
use free_lunch.Database.Writes.{Write, activated, upsert_row, apply_write, flush}
use free_lunch.Database.Activation.{mark_models_not_seen}
use free_lunch.Discovery.{
  Found, Readings, apply_cached_benchmarks, discovered_row, upsert_found, discover_provider,
}
use free_lunch.Prelude.Members.{In, In-map, All-In}
use free_lunch.Prelude.{
  ℕ, String, ◌≡◌, ◌∙◌, ◌⊎◌, refl, sym, Bool, true, false, not, ◌&&◌, Option, List, [], ◌∷◌, ◌++◌,
  map, arith, str_eq, eq_iff, eq_refl, ◌==◌, if◌then◌else◌, any, All, All-map, All-both, Bool-cases,
  inl, inr,
}

any-In : (k : String) (ks : List String) → In k ks → any (str_eq k) ks ≡ true
any-In k [] m = absurd m
any-In k (j ∷ js) m = ground (arith, any-In k js, eq_iff k j)

module _ {F : Type 0} ⦃fl : Floats F⦄ where
  -- The table has a row of this id, and it is active and was seen at this time.
  abbrev pub is_live : ℕ → String → Table F → Bool
  is_live now k [] = false
  is_live now k (m ∷ ms) =
      let rest = is_live now k ms in
      if str_eq m.id k then m.is_active && (m.last_seen_at == now) else rest

  upsert-is_live_new :
      (now : ℕ) (new : Model F) (t : Table F)
      → (new.is_active && (new.last_seen_at == now)) ≡ true
      → is_live now new.id (upsert_row new t) ≡ true
  unfolding upsert_row
  upsert-is_live_new now new [] h = rw (eq_refl new.id) h
  upsert-is_live_new now new (m ∷ ms) h = elim (Bool-cases (str_eq m.id new.id)) [
    | inl e ↦ rw (e) (ground (arith, h))
    | inr e ↦ ground (arith, e, upsert-is_live_new now new ms h)
  ]

  upsert-is_live :
      (now : ℕ) (k : String) (new : Model F) (t : Table F)
      → (new.is_active && (new.last_seen_at == now)) ≡ true
      → is_live now k t ≡ true
      → is_live now k (upsert_row new t) ≡ true
  unfolding upsert_row
  upsert-is_live now k new [] h l = ground (arith, l)
  upsert-is_live now k new (m ∷ ms) h l = elim (Bool-cases (str_eq m.id new.id)) [
    | inl e ↦ rw (e) (ground (arith, h, l, upsert-is_live now k new ms h))
    | inr e ↦ rw (e) (ground (arith, l, upsert-is_live now k new ms h))
  ]

  -- The rows of a provider that an answer does not name, as `mark_models_not_seen` finds them.
  abbrev unseen : String → List String → Model F → Bool
  unseen p seen m = str_eq m.provider_id p && not (any (str_eq m.id) seen)

  deactivate-is_live :
      (now : ℕ) (k p : String) (seen : List String) (t : Table F)
      → any (str_eq k) seen ≡ true
      → is_live now k t ≡ true
      → is_live now k (update_where (unseen p seen) (activated false) t) ≡ true
  deactivate-is_live now k p seen [] s l = l
  deactivate-is_live now k p seen (m ∷ ms) s l = elim (Bool-cases (str_eq m.id k)) [
    | inl e ↦
        let same : m.id ≡ k = ground (arith, e, eq_iff m.id k) in
        let named : any (str_eq m.id) seen ≡ true = rw (same) s in
        let kept : unseen p seen m ≡ false = ground (arith, named) in
        rw (kept, e) (ground (arith, l, e))
    | inr e ↦ elim (Bool-cases (unseen p seen m)) [
      | inl u ↦ rw (u, e) (deactivate-is_live now k p seen ms s (ground (arith, l, e)))
      | inr u ↦ rw (u, e) (deactivate-is_live now k p seen ms s (ground (arith, l, e)))
    ]
  ]

  -- A row is another provider's, or inactive, or one that the answer names.
  abbrev pub IsSettled : String → List String → Model F → Type 0
  IsSettled p seen m =
      (str_eq m.provider_id p ≡ false) ⊎ ((m.is_active ≡ false) ⊎ (any (str_eq m.id) seen ≡ true))

  deactivate-IsSettled :
      (p : String) (seen : List String) (t : Table F)
      → All (IsSettled p seen) (update_where (unseen p seen) (activated false) t)
  deactivate-IsSettled p seen [] = tt
  deactivate-IsSettled p seen (m ∷ ms) =
      (head (Bool-cases (unseen p seen m)), deactivate-IsSettled p seen ms)
    where
      head :
          (unseen p seen m ≡ true) ⊎ (unseen p seen m ≡ false)
          → IsSettled p seen (if unseen p seen m then activated false m else m)
      head (inl e) = rw (e) (inr (inl refl))
      head (inr e) = rw (e) (elim (Bool-cases (str_eq m.provider_id p)) [
        | inr d ↦ inl d
        | inl d ↦ elim (Bool-cases (any (str_eq m.id) seen)) [
          | inl a ↦ inr (inr a)
          | inr a ↦ ground (arith, e, d, a)
        ]
      ])

  -- Each upsert of an answer makes its row live.
  discovered_row-live :
      (read : Readings F) (now : ℕ) (f : Found F)
      → ((discovered_row read now f).is_active && ((discovered_row read now f).last_seen_at == now))
        ≡ true
  unfolding discovered_row
  discovered_row-live read now f = ground arith

  apply_cached_benchmarks-id :
      (read : Readings F) (cached : String → Option (Scored F)) (f : Found F)
      → (apply_cached_benchmarks read cached f).id ≡ f.id
  unfolding apply_cached_benchmarks
  apply_cached_benchmarks-id read cached f = ground arith

  discovered_row-id :
      (read : Readings F) (now : ℕ) (f : Found F) → (discovered_row read now f).id ≡ f.id
  unfolding discovered_row
  discovered_row-id read now f = refl

  module _ (read : Readings F) (now : ℕ) (cached : String → Option (Scored F)) where
    flush-is_live :
        (k : String) (found : List (Found F)) (t : Table F)
        → is_live now k t ≡ true
        → is_live now k (flush (map (upsert_found read now cached) found) t) ≡ true
    unfolding flush upsert_found apply_write
    flush-is_live k [] t l = l
    flush-is_live k (f ∷ found) t l = flush-is_live k found _ (
        upsert-is_live now k (discovered_row read now (apply_cached_benchmarks read cached f)) t
          (discovered_row-live read now (apply_cached_benchmarks read cached f)) l)

    flush-All_live :
        (found : List (Found F)) (t : Table F)
        → All
            (λ f. is_live now f.id (flush (map (upsert_found read now cached) found) t) ≡ true)
            found
    unfolding flush upsert_found apply_write
    flush-All_live [] t = tt
    flush-All_live (f ∷ found) t =
        let row : Model F = discovered_row read now (apply_cached_benchmarks read cached f) in
        let id : row.id ≡ f.id =
          discovered_row-id read now (apply_cached_benchmarks read cached f)
          ∙ apply_cached_benchmarks-id read cached f in
        (
          flush-is_live f.id found (upsert_row row t) (
              subst (λ k. is_live now k (upsert_row row t) ≡ true) id
                (upsert-is_live_new now row t
                  (discovered_row-live read now (apply_cached_benchmarks read cached f)))),
          flush-All_live found (upsert_row row t),
        )

    flush-append :
        (xs ys : List (Write F)) (t : Table F) → flush (xs ++ ys) t ≡ flush ys (flush xs t)
    unfolding flush
    flush-append [] ys t = refl
    flush-append (w ∷ ws) ys t = flush-append ws ys (apply_write w t)

    -- A provider's rows after its turn, for the ids that it named.
    abbrev pub IsSeen : String → List (Found F) → Table F → Type 0
    IsSeen p found after =
        All (λ f. is_live now f.id after ≡ true) found
        × All (IsSettled p (map (λ f. f.id) found)) after

    named_ids :
        (found : List (Found F)) → All (λ f. any (str_eq f.id) (map (λ g. g.id) found) ≡ true) found
    named_ids found =
        All-map _ _ found (λ f m. any-In f.id _ (In-map (λ g. g.id) f found m)) (All-In found)

    update_where-IsSeen :
        (p : String) (found : List (Found F)) (t : Table F)
        → IsSeen p found (
            update_where
              (unseen p (map (λ f. f.id) found))
              (activated false)
              (flush (map (upsert_found read now cached) found) t))
    update_where-IsSeen p found t =
        let ids = map (λ f. f.id) found in
        let rows = flush (map (upsert_found read now cached) found) t in
        (
          All-map _ _ found (λ f h. deactivate-is_live now f.id p ids rows h.0 h.1)
              (All-both _ _ found (named_ids found) (flush-All_live found t)),
          deactivate-IsSettled p ids rows,
        )

    -- Once the statements of a provider's turn have run, every model that the provider named has an active
    -- row that was seen now, and every other row of that provider is inactive.
    pub discover_provider-IsSeen :
        (p : String) (found : List (Found F)) (t : Table F)
        → IsSeen p found (flush (discover_provider read now cached p found) t)
    unfolding discover_provider mark_models_not_seen flush apply_write
    discover_provider-IsSeen p found t =
        subst (IsSeen p found)
          (sym (
            flush-append (map (upsert_found read now cached) found)
              (mark_models_not_seen p (map (λ f. f.id) found)) t))
          (update_where-IsSeen p found t)
