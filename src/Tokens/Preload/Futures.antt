-- ===== src/Tokens/Preload/Futures.antt =====
-- A name whose tokenizer src/tokens.py has loaded keeps one, however the threads take turns.
use mathlib.Core.Path.{subst}
use mathlib.Core.Option.{some-injective}
use free_lunch.Dict.{Dict, insert, lookup, lookup-insert}
use free_lunch.Tokens.Preload.{
  Preloads, no_preloads, PreloadAction, schedule, work_loads, work_ends, future_done, clear,
  shut_down, load, load_hf_tokenizer, schedule_tokenizer_preload, result_of, tokenizer_future_done,
  act_preload, run_preloads,
}
use free_lunch.Prelude.Members.{In}
use free_lunch.Prelude.{
  ℕ, String, ◌≡◌, refl, Bool, true, false, ◌&&◌, ◌==◌, Option, none, some, List, [], ◌∷◌, arith,
  str_eq, eq_iff, All, Bool-cases, Option-cases, inl, inr, if_keeps, ◌∙◌, is_some, if◌then◌else◌,
}

module _ {T : Type 0} where
  abbrev pub is_clear : PreloadAction T → Bool
  is_clear clear = true
  is_clear a = false

  -- The work of some future has loaded the tokenizer for the name.
  abbrev pub WasLoaded : String → T → List (ℕ × String × T) → Type 0
  WasLoaded k t loaded = (w : ℕ × String × T) × In w loaded × (w.1 ≡ k) × (w.2 ≡ t)

  -- What the cache holds was loaded for its name.
  abbrev Traces : Dict T → List (ℕ × String × T) → Type 0
  Traces cache loaded = (k : String) (t : T) → lookup k cache ≡ some t → WasLoaded k t loaded

  abbrev pub IsTraced : Preloads T → Type 0
  IsTraced p = Traces p.cache p.loaded

  insert-Traces :
      (hint : String) (u : T) (cache : Dict T) (loaded : List (ℕ × String × T))
      → Traces cache loaded
      → WasLoaded hint u loaded
      → Traces (insert hint u cache) loaded
  insert-Traces hint u cache loaded h (w, m, n, x) k t c = elim (Bool-cases (str_eq hint k)) [
    | inl same ↦ (
      w,
      m,
      n ∙ (eq_iff hint k).0 same,
      x ∙ ground (arith, c, same, lookup-insert hint k u cache),
    )
    | inr other ↦ h k t (ground (arith, c, other, lookup-insert hint k u cache))
  ]

  -- An action that is possible only under a condition has this result.
  guarded : (b : Bool) (x q : Preloads T) → (if b then some x else none) ≡ some q → x ≡ q
  guarded true x q e = some-injective x q e
  guarded false x q e = absurd (ground (arith, e))

  result_of-In :
      (f : ℕ) (hint : String) (t : T) (loaded : List (ℕ × String × T))
      → result_of f hint loaded ≡ some t
      → WasLoaded hint t loaded
  unfolding result_of
  result_of-In f hint t [] e = absurd (ground (arith, e))
  result_of-In f hint t ((g, k, u) ∷ rest) e = elim (Bool-cases ((g == f) && str_eq k hint)) [
    | inl same ↦ ((g, k, u), inl refl, ground (arith, same, eq_iff k hint), ground (arith, e, same))
    | inr other ↦
        let (w, m, n, x) = result_of-In f hint t rest (ground (arith, e, other)) in (w, inr m, n, x)
  ]

  future_done-IsTraced :
      (f : ℕ) (hint : String) (o : Option T) (p : Preloads T)
      → IsTraced p
      → ((u : T) → o ≡ some u → WasLoaded hint u p.loaded)
      → IsTraced (tokenizer_future_done f hint o p)
  unfolding tokenizer_future_done
  future_done-IsTraced f hint none p h ok = if_keeps IsTraced _ _ p h h
  future_done-IsTraced f hint (some u) p h ok =
      if_keeps IsTraced _ _ p (insert-Traces hint u p.cache p.loaded h (ok u refl)) h

  -- A name in the cache.
  abbrev Has : String → Preloads T → Type 0
  Has k p = is_some (lookup k p.cache) ≡ true

  future_done-Has :
      (f : ℕ) (hint k : String) (o : Option T) (p : Preloads T)
      → Has k p
      → Has k (tokenizer_future_done f hint o p)
  unfolding tokenizer_future_done
  future_done-Has f hint k none p h = if_keeps (Has k) _ _ p h h
  future_done-Has f hint k (some u) p h =
      let added : is_some (lookup k (insert hint u p.cache)) ≡ true =
        ground (arith, h, lookup-insert hint k u p.cache) in
      if_keeps (Has k) _ _ p added h

  module _ (wanted : String → Bool) where
    schedule-cache :
        (hint : String) (p : Preloads T)
        → ((schedule_tokenizer_preload wanted hint p).0.cache ≡ p.cache)
          × ((schedule_tokenizer_preload wanted hint p).0.loaded ≡ p.loaded)
    unfolding schedule_tokenizer_preload
    schedule-cache hint p = ground arith

    load-cache :
        (hint : String) (p : Preloads T)
        → ((load_hf_tokenizer wanted hint p).0.cache ≡ p.cache)
          × ((load_hf_tokenizer wanted hint p).0.loaded ≡ p.loaded)
    unfolding load_hf_tokenizer
    load-cache hint p = ground (arith, schedule-cache hint p)

    -- Both invariants, of one action: what was cached stays cached, and what is cached was loaded.
    act_preload-IsTraced :
        (a : PreloadAction T) (p q : Preloads T)
        → IsTraced p
        → act_preload wanted a p ≡ some q
        → IsTraced q
    unfolding act_preload
    act_preload-IsTraced (schedule hint) p q h e =
        subst IsTraced (some-injective _ _ e)
          (λ k t c. rw ((schedule-cache hint p).1) (h k t (rw (← (schedule-cache hint p).0) c)))
    act_preload-IsTraced (load hint) p q h e =
        subst IsTraced (some-injective _ _ e)
          (λ k t c. rw ((load-cache hint p).1) (h k t (rw (← (load-cache hint p).0) c)))
    act_preload-IsTraced (work_loads f hint u) p q h e = subst IsTraced (guarded _ _ q e) (
        insert-Traces hint u p.cache ((f, hint, u) ∷ p.loaded)
          (λ k t c. let (w, m, n, x) = h k t c in (w, inr m, n, x))
          ((f, hint, u), inl refl, refl, refl))
    act_preload-IsTraced (work_ends f) p q h e = subst IsTraced (guarded _ _ q e) h
    act_preload-IsTraced (future_done f hint raised) p q h e = subst IsTraced (guarded _ _ q e) (
        future_done-IsTraced f hint (if raised then none else result_of f hint p.loaded) p h
          (λ u r. result_of-In f hint u p.loaded (ground (arith, r))))
    act_preload-IsTraced clear p q h e = λ k t c. absurd (ground (arith, e, c))
    act_preload-IsTraced shut_down p q h e =
        subst IsTraced (some-injective _ _ e) (λ k t c. h k t c)

    act_preload-keeps :
        (a : PreloadAction T) (k : String) (p q : Preloads T)
        → is_clear a ≡ false
        → is_some (lookup k p.cache) ≡ true
        → act_preload wanted a p ≡ some q
        → is_some (lookup k q.cache) ≡ true
    unfolding act_preload tokenizer_future_done
    act_preload-keeps (schedule hint) k p q c h e =
        subst (λ (r : Preloads T). is_some (lookup k r.cache) ≡ true) (some-injective _ _ e)
          (rw ((schedule-cache hint p).0) h)
    act_preload-keeps (load hint) k p q c h e =
        subst (λ (r : Preloads T). is_some (lookup k r.cache) ≡ true) (some-injective _ _ e)
          (rw ((load-cache hint p).0) h)
    act_preload-keeps (work_loads f hint u) k p q c h e =
        ground (arith, e, h, lookup-insert hint k u p.cache)
    act_preload-keeps (work_ends f) k p q c h e = ground (arith, e, h)
    act_preload-keeps (future_done f hint raised) k p q c h e =
        subst (Has k) (guarded _ _ q e)
          (future_done-Has f hint k (if raised then none else result_of f hint p.loaded) p h)
    act_preload-keeps clear k p q c h e = ground (arith, c)
    act_preload-keeps shut_down k p q c h e = ground (arith, e, h)

    run-some :
        (a : PreloadAction T) (rest : List (PreloadAction T)) (p r : Preloads T)
        → act_preload wanted a p ≡ some r
        → run_preloads wanted (a ∷ rest) p ≡ run_preloads wanted rest r
    unfolding run_preloads
    run-some a rest p r n = rw (n, run_preloads) refl

    -- A run that gets somewhere made a first step and went on.
    run-step :
        (a : PreloadAction T) (rest : List (PreloadAction T)) (p q : Preloads T)
        → run_preloads wanted (a ∷ rest) p ≡ some q
        → (r : Preloads T) × (act_preload wanted a p ≡ some r)
          × (run_preloads wanted rest r ≡ some q)
    unfolding run_preloads
    run-step a rest p q e = elim (Option-cases (act_preload wanted a p)) [
      | inl n ↦ ground (arith, e, n)
      | inr (r, n) ↦ (r, n, rw (← run-some a rest p r n) e)
    ]

    run_preloads-IsTraced :
        (run : List (PreloadAction T)) (p q : Preloads T)
        → IsTraced p
        → run_preloads wanted run p ≡ some q
        → IsTraced q
    unfolding run_preloads
    run_preloads-IsTraced [] p q h e = subst IsTraced (some-injective _ _ e) h
    run_preloads-IsTraced (a ∷ rest) p q h e =
        let (r, f, g) = run-step a rest p q e in
        run_preloads-IsTraced rest r q (act_preload-IsTraced a p r h f) g

    run_preloads-keeps :
        (run : List (PreloadAction T)) (k : String) (p q : Preloads T)
        → All (λ a. is_clear a ≡ false) run
        → Has k p
        → run_preloads wanted run p ≡ some q
        → Has k q
    unfolding run_preloads
    run_preloads-keeps [] k p q c h e = subst (Has k) (some-injective _ _ e) h
    run_preloads-keeps (a ∷ rest) k p q c h e =
        let (r, f, g) = run-step a rest p q e in
        run_preloads-keeps rest k r q c.1 (act_preload-keeps a k p r c.0 h f) g

    -- If a name is in the cache after some run from the start, then after any further run in which the
    -- cache is not cleared a request gets a tokenizer at once, which the work of some future has loaded for
    -- that very name, and no preload is scheduled for it. It need not be the same one: the work of an older
    -- future may replace it.
    pub tokenizer-kept :
        (before further : List (PreloadAction T)) (k : String) (p q : Preloads T)
        → run_preloads wanted before no_preloads ≡ some p
        → is_some (lookup k p.cache) ≡ true
        → All (λ a. is_clear a ≡ false) further
        → run_preloads wanted further p ≡ some q
        → (t : T) × ((load_hf_tokenizer wanted k q).1 ≡ some t)
          × WasLoaded k t q.loaded
          × ((schedule_tokenizer_preload wanted k q).1 ≡ false)
    unfolding schedule_tokenizer_preload load_hf_tokenizer
    tokenizer-kept before further k p q b h c e =
        let start : IsTraced no_preloads = λ j t n. absurd (ground (arith, n)) in
        let traced =
          run_preloads-IsTraced further p q (run_preloads-IsTraced before no_preloads p start b)
            e in
        let kept = run_preloads-keeps further k p q c h e in
        elim (Option-cases (lookup k q.cache)) [
          | inl none_there ↦ absurd (ground (arith, kept, none_there))
          | inr (t, there) ↦
              (t, rw (load_hf_tokenizer, there) refl, traced k t there, ground (arith, there))
        ]
