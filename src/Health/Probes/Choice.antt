-- ===== src/Health/Probes/Choice.antt =====
-- What holds of the models that src/health.py chooses to probe.
use free_lunch.Prelude.{
  ℕ, ◌-◌, ◌*◌, ◌≤◌, max, String, ◌≡◌, refl, Bool, true, false, ◌||◌, none, some, List, [], ◌∷◌,
  ◌++◌, arith, eq_iff, eq_refl, length, length-append, take, select, any, map, All, All-append,
  All-map, All-take, Bool-cases, Option-cases, inl, inr, ◌⊎◌,
}
use free_lunch.Prelude.Int.{ℤ, pos, leb_ℤ, max_ℤ}
use free_lunch.Prelude.Sort.{sort_desc, sort_desc-All}
use free_lunch.Prelude.Members.{In, All-In, select-All, map-All}
use free_lunch.Floats.{Floats}
use free_lunch.Settings.{Settings}
use free_lunch.Database.Models.{Model, Table, find_model}
use free_lunch.Health.Probes.{
  ProbeCandidate, is_same, take_unseen, probe_of, select_bootstrap_candidates, probe_rows,
  select_probe_candidates, active_fallback, is_active, is_cooled_down, is_never_probed, is_stale,
  by_score, by_cooldown,
}

-- No model is chosen twice.
abbrev pub IsDistinct : List ProbeCandidate → Type 0
IsDistinct [] = Unit
IsDistinct (c ∷ cs) = (any (is_same c.id) cs ≡ false) × IsDistinct cs

any-append :
    (p : ProbeCandidate → Bool) (xs ys : List ProbeCandidate)
    → any p (xs ++ ys) ≡ (any p xs || any p ys)
any-append p [] ys = refl
any-append p (x ∷ xs) ys = ground (arith, any-append p xs ys)

snoc-IsDistinct :
    (c : ProbeCandidate) (cs : List ProbeCandidate)
    → any (is_same c.id) cs ≡ false
    → IsDistinct cs
    → IsDistinct (cs ++ c ∷ [])
snoc-IsDistinct c [] h k = (refl, tt)
snoc-IsDistinct c (x ∷ cs) h k = ground (
  arith,
  snoc-IsDistinct c cs,
  any-append (is_same x.id) cs (c ∷ []),
  eq_iff x.id c.id,
  eq_iff c.id x.id,
)

take_unseen-IsDistinct :
    (limit : ℤ) (out rows : List ProbeCandidate)
    → IsDistinct out
    → IsDistinct (take_unseen limit out rows)
unfolding take_unseen
take_unseen-IsDistinct limit out [] h = h
take_unseen-IsDistinct limit out (r ∷ rs) h = ground (
  arith,
  take_unseen-IsDistinct limit out rs,
  take_unseen-IsDistinct limit (out ++ r ∷ []) rs,
  snoc-IsDistinct r out,
)

-- Nothing but the rows is chosen.
take_unseen-All :
    (P : ProbeCandidate → Type 0) (limit : ℤ) (out rows : List ProbeCandidate)
    → All P out
    → All P rows
    → All P (take_unseen limit out rows)
unfolding take_unseen
take_unseen-All P limit out [] h k = h
take_unseen-All P limit out (r ∷ rs) h k = ground (
  arith,
  take_unseen-All P limit out rs,
  take_unseen-All P limit (out ++ r ∷ []) rs,
  All-append P out (r ∷ []),
)

-- No more are chosen than the limit, or one if the limit is not positive.
length-take_unseen :
    (limit : ℤ) (out rows : List ProbeCandidate)
    → length out ≤ max (max_ℤ limit 0) 1
    → (1 ≤ length out → leb_ℤ limit (pos (length out)) ≡ false)
    → length (take_unseen limit out rows) ≤ max (max_ℤ limit 0) 1
unfolding take_unseen
length-take_unseen limit out [] h k = h
length-take_unseen limit out (r ∷ rs) h k = ground (
  arith,
  length-take_unseen limit out rs,
  length-take_unseen limit (out ++ r ∷ []) rs,
  length-append out (r ∷ []),
)

-- What the chosen ones have been joined to stays chosen.
take_unseen_keeps :
    (limit : ℤ) (k : String) (out rows : List ProbeCandidate)
    → any (is_same k) out ≡ true
    → any (is_same k) (take_unseen limit out rows) ≡ true
unfolding take_unseen
take_unseen_keeps limit k out [] h = h
take_unseen_keeps limit k out (r ∷ rs) h = ground (
  arith,
  take_unseen_keeps limit k out rs,
  take_unseen_keeps limit k (out ++ r ∷ []) rs,
  any-append (is_same k) out (r ∷ []),
)

-- A row is left out only for the limit.
take_unseen_complete :
    (limit : ℤ) (out rows : List ProbeCandidate) (r : ProbeCandidate)
    → In r rows
    → (any (is_same r.id) (take_unseen limit out rows) ≡ true)
      ⊎ (leb_ℤ limit (pos (length (take_unseen limit out rows))) ≡ true)
unfolding take_unseen
take_unseen_complete limit out [] r m = absurd m
take_unseen_complete limit out (x ∷ rs) r m = ground (
  arith,
  take_unseen_complete limit out rs r,
  take_unseen_complete limit (out ++ x ∷ []) rs r,
  take_unseen_keeps limit r.id out rs,
  take_unseen_keeps limit r.id (out ++ x ∷ []) rs,
  any-append (is_same r.id) out (x ∷ []),
  eq_refl r.id,
)

module _ {F : Type 0} where
  -- A candidate stands for an active row of the table.
  pub record Probed (table : Table F) (c : ProbeCandidate) : Type 0 where
    pub row : Model F
    pub stored : In row table
    pub active : row.is_active ≡ true
    pub copied : c ≡ probe_of c.probe_reason row

  row-Probed :
      (table : Table F) (reason : String) (m : Model F)
      → In m table
      → m.is_active ≡ true
      → Probed table (probe_of reason m)
  row-Probed table reason m h a = record { row = m; stored = h; active = a; copied = refl }

  -- The first rows of a query, if its condition asks for active ones.
  query-Probed :
      (table : Table F) (reason : String) (n : ℕ) (p : Model F → Bool)
      (lt : Model F → Model F → Bool)
      → ((m : Model F) → p m ≡ true → m.is_active ≡ true)
      → All (Probed table) (map (probe_of reason) (take n (sort_desc lt (select p table))))
  query-Probed table reason n p lt h =
      map-All (probe_of reason) (Probed table) (take n (sort_desc lt (select p table))) (
        All-take _ n (sort_desc lt (select p table)) (
          sort_desc-All lt _ (select p table) (
            All-map _ _ (select p table) (λ m k. row-Probed table reason m k.1 (h m k.0))
              (select-All p (λ m. In m table) table (All-In table)))))

  find_model-In :
      (k : String) (m : Model F) (table : Table F) → find_model k table ≡ some m → In m table
  find_model-In k m [] h = ground arith
  find_model-In k m (x ∷ xs) h = ground (arith, find_model-In k m xs)

  fallback-Probed :
      (table : Table F) (k : String)
      → All (Probed table) (map (probe_of "") (active_fallback k table))
  fallback-Probed table k =
      map-All (probe_of "") (Probed table) (active_fallback k table)
        (rows (Option-cases (find_model k table)))
    where
      rows :
          (find_model k table ≡ none) ⊎ ((m : Model F) × (find_model k table ≡ some m))
          → All (λ m. Probed table (probe_of "" m)) (active_fallback k table)
      rows (inl e) = ground (arith, e)
      rows (inr (m, e)) = elim (Bool-cases m.is_active) [
        | inl a ↦ ground (arith, e, a, row-Probed table "" m (find_model-In k m table e) a)
        | inr a ↦ ground (arith, e, a)
      ]

module _ {F : Type 0} ⦃fl : Floats F⦄ where
  rows-Probed :
      (table : Table F) (s : Settings) (now : ℕ) → All (Probed table) (probe_rows table s now)
  unfolding probe_rows
  rows-Probed table s now =
      All-append (Probed table) _ _
        (All-append (Probed table) _ _
          (query-Probed table "cooldown_recovery" s.health_max_probes_per_run (is_cooled_down now)
            by_cooldown (λ m h. ground arith))
          (query-Probed table "never_probed" s.health_max_probes_per_run is_never_probed by_score
            (λ m h. ground arith)))
        (query-Probed table "stale" s.health_top_n_stale_probe
          (is_stale (now - s.health_stale_after_minutes * 60)) by_score (λ m h. ground arith))

  -- The models to probe are active rows of the table, none twice, and no more than the limit of a
  -- run, or one if that is 0.
  pub select_probe_candidates-Probed :
      (table : Table F) (s : Settings) (now : ℕ)
      → All (Probed table) (select_probe_candidates table s now)
        × IsDistinct (select_probe_candidates table s now)
        × (length (select_probe_candidates table s now) ≤ max s.health_max_probes_per_run 1)
  unfolding select_probe_candidates probe_rows
  select_probe_candidates-Probed table s now = (
    take_unseen-All (Probed table) (pos s.health_max_probes_per_run) [] (probe_rows table s now) tt
        (rows-Probed table s now),
    take_unseen-IsDistinct (pos s.health_max_probes_per_run) [] (probe_rows table s now) tt,
    omega (
      arith,
      length-take_unseen (pos s.health_max_probes_per_run) [] (probe_rows table s now) (omega arith)
          (λ h. ground arith),
    ),
  )

  -- A model that a query asks for is chosen, unless as many as the limit were.
  pub select_probe_candidates_complete :
      (table : Table F) (s : Settings) (now : ℕ) (r : ProbeCandidate)
      → In r (probe_rows table s now)
      → (any (is_same r.id) (select_probe_candidates table s now) ≡ true)
        ⊎ (s.health_max_probes_per_run ≤ length (select_probe_candidates table s now))
  unfolding select_probe_candidates
  select_probe_candidates_complete table s now r m = ground (
    arith,
    take_unseen_complete (pos s.health_max_probes_per_run) [] (probe_rows table s now) r m,
  )

  -- At start-up the candidates are active rows of the table, none twice, and no more than the limit,
  -- or one if the limit is not positive.
  pub select_bootstrap_candidates-Probed :
      (table : Table F) (fallback : String) (limit : ℤ)
      → All (Probed table) (select_bootstrap_candidates table fallback limit)
        × IsDistinct (select_bootstrap_candidates table fallback limit)
        × (length (select_bootstrap_candidates table fallback limit) ≤ max (max_ℤ limit 0) 1)
  unfolding select_bootstrap_candidates
  select_bootstrap_candidates-Probed table fallback limit =
      let rows =
        map (probe_of "") (active_fallback fallback table)
        ++ map (probe_of "") (take (max_ℤ limit 0) (sort_desc by_score (select is_active table))) in
      (
        take_unseen-All (Probed table) limit [] rows tt (
            All-append (Probed table) _ _ (fallback-Probed table fallback)
              (query-Probed table "" (max_ℤ limit 0) is_active by_score (λ m h. h))),
        take_unseen-IsDistinct limit [] rows tt,
        length-take_unseen limit [] rows (omega arith) (λ h. ground arith),
      )
