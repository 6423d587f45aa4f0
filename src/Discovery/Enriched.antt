-- ===== src/Discovery/Enriched.antt =====
-- The scores that src/discover.py takes from the cache.
use free_lunch.Benchmarks.Cache.{Scored}
use free_lunch.Discovery.{
  Found, Readings, first_some, benchmark_lookup_keys, fill_scores, apply_cached_benchmarks,
  with_scores,
}
use free_lunch.Prelude.{
  String, ◌≡◌, refl, ap, true, ◌&&◌, Option, none, some, List, [], ◌∷◌, arith, is_some,
  Option-cases, Bool-cases, inl, inr,
}

module _ {F : Type 0} where
  -- The first entry under these names that holds a score.
  unfoldable pub first_cached :
      (String → Option (Scored F)) → (Scored F → Option F) → List String → Option F
  first_cached cached column [] = none
  first_cached cached column (k ∷ ks) = elim (cached k) [
    | none ↦ first_cached cached column ks
    | some r ↦ first_some (column r) (first_cached cached column ks)
  ]

  fill_scores-first :
      (cached : String → Option (Scored F)) (ks : List String) (v : Option F × Option F)
      → fill_scores cached ks v ≡ (
        first_some v.0 (first_cached cached (λ r. r.chatbot_arena_elo) ks),
        first_some v.1 (first_cached cached (λ r. r.open_llm_avg_score) ks),
      )
  unfolding fill_scores first_cached
  fill_scores-first cached [] (a, b) = ends a b
    where
      ends :
          (a b : Option F)
          → Path (Option F × Option F) (a, b) (first_some a none, first_some b none)
      ends none none = refl
      ends none (some y) = refl
      ends (some x) none = refl
      ends (some x) (some y) = refl
  fill_scores-first cached (k ∷ ks) (a, b) = elim (Option-cases (cached k)) [
    | inl e ↦ rw (fill_scores, first_cached, e) (fill_scores-first cached ks (a, b))
    | inr (r, e) ↦
        rw (fill_scores, first_cached, e)
          (ground (
            arith,
            fill_scores-first cached ks
                (first_some a r.chatbot_arena_elo, first_some b r.open_llm_avg_score),
          ))
  ]

  -- The scores of the cache under these names.
  abbrev pub cached_scores : (String → Option (Scored F)) → List String → Option F × Option F
  cached_scores cached ks = (
    first_cached cached (λ r. r.chatbot_arena_elo) ks,
    first_cached cached (λ r. r.open_llm_avg_score) ks,
  )

  -- A model's own scores over others.
  abbrev pub own_first : Found F → Option F × Option F → Option F × Option F
  own_first f v = (first_some f.chatbot_arena_elo v.0, first_some f.open_llm_score v.1)

  complete_scores :
      (f : Found F) (v : Option F × Option F)
      → (is_some f.chatbot_arena_elo && is_some f.open_llm_score) ≡ true
      → f ≡ with_scores f (own_first f v)
  complete_scores f v h = elim (Option-cases f.chatbot_arena_elo) [
    | inl e ↦ ground (arith, h, e)
    | inr (x, e) ↦ elim (Option-cases f.open_llm_score) [
      | inl d ↦ ground (arith, h, e, d)
      | inr (y, d) ↦
          let same : Path (Option F × Option F) (f.chatbot_arena_elo, f.open_llm_score)
              (own_first f v) =
            ground (arith, e, d) in
          ap (with_scores f) same
    ]
  ]

  -- A model keeps the scores that it comes with, and takes each score that it lacks from the first of
  -- its names under which the cache holds one; all else stays as it is.
  pub apply_cached_benchmarks-first :
      (read : Readings F) (cached : String → Option (Scored F)) (f : Found F)
      → apply_cached_benchmarks read cached f
        ≡ with_scores f (own_first f (cached_scores cached (benchmark_lookup_keys read f)))
  unfolding apply_cached_benchmarks
  apply_cached_benchmarks-first read cached f =
      elim (Bool-cases (is_some f.chatbot_arena_elo && is_some f.open_llm_score)) [
        | inl e ↦ rw (apply_cached_benchmarks, e) (complete_scores f _ e)
        | inr e ↦
            rw (apply_cached_benchmarks, e)
              (ap (with_scores f) (
                fill_scores-first cached (benchmark_lookup_keys read f)
                  (f.chatbot_arena_elo, f.open_llm_score)))
      ]
