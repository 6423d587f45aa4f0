-- ===== src/Ranking/Written.antt =====
-- What src/ranking.py changes in the table.
use mathlib.Core.Path.{subst}
use free_lunch.Floats.{Floats}
use free_lunch.Dict.{Dict}
use free_lunch.Database.Models.{Model, Table, find_model, update_where, has_id, HasUniqueIds}
use free_lunch.Database.Writes.{set_score, scored_row, apply_write, flush}
use free_lunch.Settings.{Settings}
use free_lunch.Ranking.Telemetry.{TelemetrySnapshot}
use free_lunch.Ranking.{ranges, row_score, recompute_ranking}
use free_lunch.Prelude.{
  ℕ, String, ◌≡◌, ◌∙◌, sym, ap, refl, inl, inr, Bool, true, false, Option, none, some, List, [],
  ◌∷◌, arith, str_eq, eq_iff, eq_refl, if◌then◌else◌, map, select, select-true, select-false, All,
  All-map, All-both, Bool-cases, Option-cases,
}

map-cong : {A : Type 0} (f g : A → A) (xs : List A) → All (λ x. f x ≡ g x) xs → map f xs ≡ map g xs
map-cong f g [] h = refl
map-cong f g (x ∷ xs) h = rw (h.0, map-cong f g xs h.1) refl

map-same : {A : Type 0} (xs : List A) → map (λ x. x) xs ≡ xs
map-same [] = refl
map-same (x ∷ xs) = ap (λ ys. x ∷ ys) (map-same xs)

cons-cong :
    {A : Type 0} {x y : A} {xs ys : List A} → x ≡ y → xs ≡ ys → Path (List A) (x ∷ xs) (y ∷ ys)
cons-cong e d = rw (e, d) refl

module _ {F : Type 0} ⦃fl : Floats F⦄ where
  -- The last score that these rows give an id.
  unfoldable last_score : (Model F → F) → List (Model F) → String → Option F
  last_score f [] k = none
  last_score f (r ∷ rs) k = elim (last_score f rs k) [
    | some x ↦ some x
    | none ↦ if str_eq k r.id then some (f r) else none
  ]

  abbrev rescored : ℕ → Option F → Model F → Model F
  rescored now none m = m
  rescored now (some x) m = scored_row x now m

  rescored-if :
      (now : ℕ) (x : F) (m : Model F)
      → rescored now (if m.is_active then some x else none) m
        ≡ (if m.is_active then scored_row x now m else m)
  rescored-if now x m = elim (Bool-cases m.is_active) [
    | inl e ↦ ground (arith, e)
    | inr e ↦ ground (arith, e)
  ]

  rescored-one :
      (now : ℕ) (x : F) (b : Bool) (g : String → Option F) (m : Model F)
      → rescored now
          (g (if b then scored_row x now m else m).id)
          (if b then scored_row x now m else m)
        ≡ rescored now (elim (g m.id) [ some y ↦ some y | none ↦ if b then some x else none ]) m
  rescored-one now x true g m = elim (Option-cases (g m.id)) [
    | inl e ↦ ground (arith, e)
    | inr (y, e) ↦ ground (arith, e)
  ]
  rescored-one now x false g m = elim (Option-cases (g m.id)) [
    | inl e ↦ ground (arith, e)
    | inr (y, e) ↦ ground (arith, e)
  ]

  update_where-rescored :
      (now : ℕ) (x : F) (k : String) (g : String → Option F) (t : Table F)
      → map (λ m. rescored now (g m.id) m) (update_where (has_id k) (scored_row x now) t)
        ≡ map
            (λ m.
              rescored now
                (elim (g m.id) [ some y ↦ some y | none ↦ if str_eq m.id k then some x else none ])
                m)
            t
  update_where-rescored now x k g [] = refl
  update_where-rescored now x k g (m ∷ ms) =
      cons-cong (rescored-one now x (str_eq m.id k) g m) (update_where-rescored now x k g ms)

  flush-last_score :
      (now : ℕ) (f : Model F → F) (rows : List (Model F)) (t : Table F)
      → flush (map (λ m. set_score m.id (f m) now) rows) t
        ≡ map (λ m. rescored now (last_score f rows m.id) m) t
  unfolding flush apply_write last_score
  flush-last_score now f [] t = sym (map-same t)
  flush-last_score now f (r ∷ rows) t =
      flush-last_score now f rows (update_where (has_id r.id) (scored_row (f r) now) t)
      ∙ update_where-rescored now (f r) r.id (last_score f rows) t

  skip-last_score :
      (f : Model F → F) (r : Model F) (rs : List (Model F)) (k : String)
      → str_eq k r.id ≡ false
      → last_score f (r ∷ rs) k ≡ last_score f rs k
  unfolding last_score
  skip-last_score f r rs k e = elim (Option-cases (last_score f rs k)) [
    | inl n ↦ ground (arith, e, n)
    | inr (x, n) ↦ ground (arith, e, n)
  ]

  own-last_score :
      (f : Model F → F) (r : Model F) (rs : List (Model F))
      → last_score f rs r.id ≡ none
      → last_score f (r ∷ rs) r.id ≡ some (f r)
  unfolding last_score
  own-last_score f r rs e = ground (arith, e, eq_refl r.id)

  abbrev active : Table F → List (Model F)
  active t = select (λ m. m.is_active) t

  absent-last_score :
      (f : Model F → F) (k : String) (t : Table F)
      → find_model k t ≡ none
      → last_score f (active t) k ≡ none
  unfolding last_score
  absent-last_score f k [] h = refl
  absent-last_score f k (m ∷ ms) h =
      let differs : str_eq k m.id ≡ false = ground (arith, h, eq_iff m.id k, eq_iff k m.id) in
      let rest : last_score f (active ms) k ≡ none = absent-last_score f k ms (ground (arith, h)) in
      elim (Bool-cases m.is_active) [
        | inl a ↦
            ap (λ rs. last_score f rs k) (select-true (λ n. n.is_active) m ms a)
            ∙ (skip-last_score f m (active ms) k differs ∙ rest)
        | inr a ↦ ap (λ rs. last_score f rs k) (select-false (λ n. n.is_active) m ms a) ∙ rest
      ]

  others : (k : String) (t : Table F) → find_model k t ≡ none → All (λ m. str_eq m.id k ≡ false) t
  others k [] h = tt
  others k (m ∷ ms) h = (ground (arith, h), others k ms (ground (arith, h)))

  abbrev IsScored : (Model F → F) → List (Model F) → Model F → Type 0
  IsScored f rows m = last_score f rows m.id ≡ (if m.is_active then some (f m) else none)

  head-IsScored :
      (f : Model F → F) (m : Model F) (ms : Table F)
      → find_model m.id ms ≡ none
      → All (IsScored f (active ms)) ms
      → All (IsScored f (active (m ∷ ms))) (m ∷ ms)
  head-IsScored f m ms u h =
      let rest : last_score f (active ms) m.id ≡ none = absent-last_score f m.id ms u in
      elim (Bool-cases m.is_active) [
        | inl a ↦
            subst (λ rs. All (IsScored f rs) (m ∷ ms)) (sym (select-true (λ n. n.is_active) m ms a))
              (
                own-last_score f m (active ms) rest ∙ ground (arith, a),
                All-map _ _ ms (λ n k. skip-last_score f m (active ms) n.id k.0 ∙ k.1)
                    (All-both _ _ ms (others m.id ms u) h),
              )
        | inr a ↦
            subst (λ rs. All (IsScored f rs) (m ∷ ms))
              (sym (select-false (λ n. n.is_active) m ms a)) (rest ∙ ground (arith, a), h)
      ]

  active-IsScored : (f : Model F → F) (t : Table F) → HasUniqueIds t → All (IsScored f (active t)) t
  active-IsScored f [] u = tt
  active-IsScored f (m ∷ ms) u = head-IsScored f m ms u.0 (active-IsScored f ms u.1)

  -- After the statements of a ranking have run, each active row has its new score and the time of the
  -- ranking, and nothing else of the table has changed, where no id is listed twice.
  pub flush-recompute_ranking :
      (round4 : F → F) (s : Settings) (weights : Dict F) (now : ℕ)
      (by_model : String → TelemetrySnapshot F) (table : Table F)
      → HasUniqueIds table
      → flush (recompute_ranking round4 s weights now by_model table).0 table
        ≡ map
            (λ m.
              if m.is_active
              then scored_row
                  (row_score round4 s weights now by_model
                    (ranges by_model (select (λ n. n.is_active) table))
                    m)
                  now
                  m
              else m)
            table
  unfolding recompute_ranking
  flush-recompute_ranking round4 s weights now by_model table u =
      let score : Model F → F =
        row_score round4 s weights now by_model
          (ranges by_model (select (λ n. n.is_active) table)) in
      flush-last_score now score (select (λ n. n.is_active) table) table
      ∙ map-cong _ _ table (
          All-map _ _ table (λ m h. ap (λ o. rescored now o m) h ∙ rescored-if now (score m) m)
            (active-IsScored score table u))
