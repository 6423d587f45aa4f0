-- ===== src/Benchmarks/Cache/Merge.antt =====
-- What a refresh of src/benchmarks.py leaves in the cache of src/db.py.
use free_lunch.Dict.{Dict, lookup, insert, IsDict, lookup-insert, insert-IsDict}
use free_lunch.Benchmarks.Cache.{
  Scored, coalesce, upsert_leaderboard_cache, entry, put_arena, put_llm, upsert_merged,
  refresh_leaderboard_cache, write_scores, SourceRun, arena_scores, llm_scores, source_scores,
  source_cache_ready,
}
use free_lunch.Prelude.{
  or_else, if_keeps, Bool, ℕ, String, ◌≡◌, ◌∙◌, refl, ap, Option, none, some, List, [], ◌∷◌, arith,
  str_eq, eq_iff, if◌then◌else◌, Bool-cases, inl, inr,
}

module _ {F : Type 0} where
  put_arena-IsDict :
      (xs : Dict F) (d : Dict (Option F × Option F)) → IsDict d → IsDict (put_arena xs d)
  unfolding put_arena
  put_arena-IsDict [] d h = h
  put_arena-IsDict ((k, x) ∷ xs) d h = put_arena-IsDict xs _ (insert-IsDict k _ d h)

  put_llm-IsDict : (xs : Dict F) (d : Dict (Option F × Option F)) → IsDict d → IsDict (put_llm xs d)
  unfolding put_llm
  put_llm-IsDict [] d h = h
  put_llm-IsDict ((k, x) ∷ xs) d h = put_llm-IsDict xs _ (insert-IsDict k _ d h)

  entry-insert :
      (k j : String) (v : Option F × Option F) (d : Dict (Option F × Option F))
      → entry k (insert j v d) ≡ (if str_eq j k then v else entry k d)
  entry-insert k j v d = ground (arith, lookup-insert j k v d)

  entry-put_arena :
      (k : String) (xs : Dict F) (d : Dict (Option F × Option F))
      → IsDict xs
      → entry k (put_arena xs d) ≡ (coalesce (lookup k xs) (entry k d).0, (entry k d).1)
  unfolding put_arena
  entry-put_arena k [] d h = refl
  entry-put_arena k ((j, x) ∷ xs) d h = elim (Bool-cases (str_eq j k)) [
    | inl e ↦
        let same : j ≡ k = ground (arith, e, eq_iff j k) in
        let gone : lookup k xs ≡ none = ground (arith, h, same) in
        let now : entry k (insert j (some x, (entry j d).1) d) ≡ (some x, (entry k d).1) =
          entry-insert k j _ d ∙ rw (e, same) refl in
        entry-put_arena k xs (insert j (some x, (entry j d).1) d) h.1 ∙ rw (e, gone, now) refl
    | inr e ↦
        let now : entry k (insert j (some x, (entry j d).1) d) ≡ entry k d =
          entry-insert k j _ d ∙ rw (e) refl in
        entry-put_arena k xs (insert j (some x, (entry j d).1) d) h.1 ∙ rw (e, now) refl
  ]

  entry-put_llm :
      (k : String) (xs : Dict F) (d : Dict (Option F × Option F))
      → IsDict xs
      → entry k (put_llm xs d) ≡ ((entry k d).0, coalesce (lookup k xs) (entry k d).1)
  unfolding put_llm
  entry-put_llm k [] d h = refl
  entry-put_llm k ((j, x) ∷ xs) d h = elim (Bool-cases (str_eq j k)) [
    | inl e ↦
        let same : j ≡ k = ground (arith, e, eq_iff j k) in
        let gone : lookup k xs ≡ none = ground (arith, h, same) in
        let now : entry k (insert j ((entry j d).0, some x) d) ≡ ((entry k d).0, some x) =
          entry-insert k j _ d ∙ rw (e, same) refl in
        entry-put_llm k xs (insert j ((entry j d).0, some x) d) h.1 ∙ rw (e, gone, now) refl
    | inr e ↦
        let now : entry k (insert j ((entry j d).0, some x) d) ≡ entry k d =
          entry-insert k j _ d ∙ rw (e) refl in
        entry-put_llm k xs (insert j ((entry j d).0, some x) d) h.1 ∙ rw (e, now) refl
  ]

  coalesce-none : (o : Option F) → coalesce o none ≡ o
  coalesce-none none = refl
  coalesce-none (some x) = refl

  -- The scores that the table holds under a name.
  unfoldable pub stored : String → List (Scored F) → Option F × Option F
  stored k [] = (none, none)
  stored k (r ∷ rows) =
      if str_eq r.model_name k then (r.chatbot_arena_elo, r.open_llm_avg_score) else stored k rows

  -- New scores over old ones.
  abbrev pub over : Option F × Option F → Option F × Option F → Option F × Option F
  over v w = (coalesce v.0 w.0, coalesce v.1 w.1)

  stored-upsert :
      (now : ℕ) (j k : String) (v : Option F × Option F) (rows : List (Scored F))
      → stored k (upsert_leaderboard_cache now j v.0 v.1 rows)
        ≡ (if str_eq j k then over v (stored k rows) else stored k rows)
  unfolding upsert_leaderboard_cache stored
  stored-upsert now j k v [] = elim (Bool-cases (str_eq j k)) [
    | inl e ↦ rw (e, coalesce-none v.0, coalesce-none v.1) refl
    | inr e ↦ rw (e) refl
  ]
  stored-upsert now j k v (r ∷ rows) = ground (
    arith,
    eq_iff r.model_name j,
    eq_iff r.model_name k,
    eq_iff j k,
    stored-upsert now j k v rows,
  )

  stored-upsert_merged :
      (now : ℕ) (k : String) (d : Dict (Option F × Option F)) (rows : List (Scored F))
      → IsDict d
      → stored k (upsert_merged now d rows) ≡ over (entry k d) (stored k rows)
  unfolding upsert_merged
  stored-upsert_merged now k [] rows h = refl
  stored-upsert_merged now k ((j, v) ∷ d) rows h = elim (Bool-cases (str_eq j k)) [
    | inl e ↦
        let same : j ≡ k = ground (arith, e, eq_iff j k) in
        let gone : lookup k d ≡ none = ground (arith, h, same) in
        let put : stored k (upsert_leaderboard_cache now j v.0 v.1 rows) ≡ over v (stored k rows) =
          stored-upsert now j k v rows ∙ rw (e) refl in
        stored-upsert_merged now k d _ h.1 ∙ rw (e, gone, put) refl
    | inr e ↦
        let put : stored k (upsert_leaderboard_cache now j v.0 v.1 rows) ≡ stored k rows =
          stored-upsert now j k v rows ∙ rw (e) refl in
        stored-upsert_merged now k d _ h.1 ∙ rw (e, put) refl
  ]

  stored-write_scores :
      (now : ℕ) (k : String) (arena llm : Dict F) (rows : List (Scored F))
      → IsDict arena
      → IsDict llm
      → stored k (write_scores now arena llm rows).0
        ≡ over (lookup k arena, lookup k llm) (stored k rows)
  unfolding write_scores
  stored-write_scores now k arena llm rows ha hl =
      let merged : entry k (put_llm llm (put_arena arena []))
          ≡ (coalesce (lookup k arena) none, coalesce (lookup k llm) none) =
        entry-put_llm k llm (put_arena arena []) hl ∙ rw (entry-put_arena k arena [] ha) refl in
      stored-upsert_merged now k _ rows (put_llm-IsDict llm _ (put_arena-IsDict arena [] tt))
      ∙ (ap (λ v. over v (stored k rows)) merged
          ∙ rw (coalesce-none (lookup k arena), coalesce-none (lookup k llm)) refl)

  source_scores-IsDict :
      (b : Bool) (now hours : ℕ) (column : Scored F → Option F) (rows : List (Scored F))
      (result : Option (Dict F))
      → IsDict (or_else result [])
      → IsDict (source_scores b now hours column rows result)
  source_scores-IsDict b now hours column rows result h =
      if_keeps IsDict b _ _
        (if_keeps IsDict (source_cache_ready column now hours rows) [] (or_else result []) tt h) tt

  -- After a refresh the table holds, under each name, each source's new score, and the old one where
  -- the source gave none: a source that fails, is off or is recent enough erases nothing. It holds for
  -- sources that name no model twice.
  pub stored-refresh :
      (now : ℕ) (k : String) (a l : SourceRun F) (rows : List (Scored F))
      → IsDict (or_else a.result [])
      → IsDict (or_else l.result [])
      → stored k (refresh_leaderboard_cache now a l rows).0 ≡ (
        coalesce (lookup k (arena_scores now a rows)) (stored k rows).0,
        coalesce (lookup k (llm_scores now l rows)) (stored k rows).1,
      )
  unfolding refresh_leaderboard_cache
  stored-refresh now k a l rows ha hl =
      stored-write_scores now k (arena_scores now a rows) (llm_scores now l rows) rows
        (source_scores-IsDict a.enabled now a.cache_hours _ rows a.result ha)
        (source_scores-IsDict l.enabled now l.cache_hours _ rows l.result hl)
