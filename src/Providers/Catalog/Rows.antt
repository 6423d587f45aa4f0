-- ===== src/Providers/Catalog/Rows.antt =====
-- The models that src/providers/openai_compatible.py reads from the rows of an answer.
use Prim.Native.String
use mathlib.Core.Path.{subst}
use free_lunch.Prelude.Int.{pos}
use free_lunch.Json.{Json, object, Items, no_items, item, Fields, to_list}
use free_lunch.Discovery.{Found, RankValue}
use free_lunch.Providers.Catalog.{
  Service, row_id, window_or, context_window_of, max_output_of, found_model, read_row, read_rows,
}
use free_lunch.Providers.Values.{RowReading}
use free_lunch.Prelude.{
  ℕ, suc, ◌+◌, ◌≤◌, ◌<◌, String, ◌≡◌, ◌≢◌, refl, false, Option, none, some, List, [], ◌∷◌, map, sym,
  ap, ◌∙◌, arith, str_eq, eq_iff, if◌then◌else◌, get_elem?, All, All-map, Bool-cases, Option-cases,
  map-eq_some, inl, inr,
}

abbrev pub rank_of : {F : Type 0} → Found F → ℕ
rank_of f = elim f.provider_rank [ RankValue.whole z ↦ elim z [ pos n ↦ n | _ ↦ 0 ] | _ ↦ 0 ]

window_or-positive : (default : ℕ) (o : Option ℕ) → 0 < default → 0 < window_or default o
window_or-positive default none h = h
window_or-positive default (some n) h = ground arith

-- The ids of the rows that have one, in their order.
abbrev pub row_ids : RowReading → Items → List String
row_ids r no_items = []
row_ids r (item v vs) =
    let rest = row_ids r vs in
    elim v [ object d ↦ if str_eq (row_id r d) "" then rest else row_id r d ∷ rest | _ ↦ rest ]

abbrev pub model_ids : {F : Type 0} → List (Found F) → List String
model_ids fs = map (λ f. f.provider_model_id) fs

module _ {F : Type 0} (r : RowReading) (s : Service) where
  -- A model stands for the row at a position, which names it, and is ranked by that position.
  pub record IsListed (index : ℕ) (rows : List Json) (f : Found F) : Type 0 where
    pub place : ℕ
    pub row : Fields
    pub listed : get_elem? rows place ≡ some (object row)
    pub ranked : f.provider_rank ≡ RankValue.whole (pos (index + place))
    pub named : f.provider_model_id ≡ row_id r row
    pub not_blank : f.provider_model_id ≢ ""
    pub id : f.id ≡ String.◌++◌ s.name (String.◌++◌ "/" f.provider_model_id)
    pub provider : f.provider_id ≡ s.name
    pub window : (w : ℕ) × (f.context_window ≡ some (some w)) × (0 < w)

  -- The ranks rise, from `index` on.
  abbrev pub IsRanked : ℕ → List (Found F) → Type 0
  IsRanked index [] = Unit
  IsRanked index (f ∷ fs) = (index ≤ rank_of f) × IsRanked (rank_of f + 1) fs

  IsRanked-le : (i j : ℕ) (fs : List (Found F)) → i ≤ j → IsRanked j fs → IsRanked i fs
  IsRanked-le i j [] h k = tt
  IsRanked-le i j (f ∷ fs) h k = (omega (arith, k.0), k.1)

  later :
      (index : ℕ) (v : Json) (rows : List Json) (f : Found F)
      → IsListed (index + 1) rows f
      → IsListed index (v ∷ rows) f
  later index v rows f h = record {
    place = suc h.place;
    row = h.row;
    listed = h.listed;
    ranked = rw (h.ranked) (ap_rank (omega arith));
    named = h.named;
    not_blank = h.not_blank;
    id = h.id;
    provider = h.provider;
    window = h.window;
  }
    where
      ap_rank :
          index + 1 + h.place ≡ index + suc h.place
          → ◌≡◌ {A = RankValue F}
              (RankValue.whole (pos (index + 1 + h.place)))
              (RankValue.whole (pos (index + suc h.place)))
      ap_rank e = rw (e) refl

  -- What is known of the models of some rows.
  abbrev pub AreListed : ℕ → List Json → List (Found F) → Type 0
  AreListed index rows fs = All (IsListed index rows) fs × IsRanked index fs

  skipped :
      (index : ℕ) (v : Json) (rows : List Json) (fs : List (Found F))
      → AreListed (index + 1) rows fs
      → AreListed index (v ∷ rows) fs
  skipped index v rows fs h = (
    All-map _ _ fs (λ f. later index v rows f) h.0,
    IsRanked-le index (index + 1) fs (omega arith) h.1,
  )

  module _ (positive : 0 < s.default_context_window) where
    found_model-IsListed :
        (index : ℕ) (d : Fields) (rows : List Json) (window output : Option ℕ)
        → str_eq (row_id r d) "" ≡ false
        → IsListed index (object d ∷ rows) (found_model r s index d window output)
    found_model-IsListed index d rows window output h = record {
      place = 0;
      row = d;
      listed = refl;
      ranked = at_first (omega arith);
      named = refl;
      not_blank = ground (arith, h, eq_iff (row_id r d) "");
      id = refl;
      provider = refl;
      window = (
        window_or s.default_context_window window,
        refl,
        window_or-positive s.default_context_window window positive,
      );
    }
      where
        at_first :
            index ≡ index + 0
            → ◌≡◌ {A = RankValue F}
                (RankValue.whole (pos index))
                (RankValue.whole (pos (index + 0)))
        at_first e = rw (← e) refl

    read_row-IsListed :
        (index : ℕ) (d : Fields) (rows : List Json) (f : Found F)
        → str_eq (row_id r d) "" ≡ false
        → read_row r s index d ≡ some f
        → IsListed index (object d ∷ rows) f × (rank_of f ≡ index)
    unfolding read_row
    read_row-IsListed index d rows f h e = elim (Option-cases (context_window_of r d)) [
      | inl w ↦ absurd (raises w e)
      | inr (window, w) ↦
          let (output, o, same) =
            map-eq_some (found_model r s index d window) (max_output_of r d) f
              (ground (arith, w, e)) in
          subst (λ g. IsListed index (object d ∷ rows) g × (rank_of g ≡ index)) same
            (found_model-IsListed index d rows window output h, refl)
    ]
      where
        raises : context_window_of r d ≡ none → read_row {F = F} r s index d ≡ some f → ⊥
        raises w k = ground (arith, w, k)

    pub read_rows-AreListed :
        (index : ℕ) (vs : Items) (fs : List (Found F))
        → read_rows r s index vs ≡ some fs
        → AreListed index (to_list vs) fs
    unfolding read_rows
    read_rows-AreListed index no_items fs e =
        let same : [] ≡ fs = ground (arith, e) in subst (AreListed index []) same (tt, tt)
    read_rows-AreListed index (item (object d) vs) fs e =
        elim (Bool-cases (str_eq (row_id r d) "")) [
          | inl blank ↦
              skipped index (object d) (to_list vs) fs
                (read_rows-AreListed (index + 1) vs fs (ground (arith, blank, e)))
          | inr named ↦ elim (Option-cases (read_row {F = F} r s index d)) [
            | inl raised ↦ absurd (ground (arith, named, raised, e))
            | inr (f, given) ↦
                let (gs, rest, same) =
                  map-eq_some (λ gs. f ∷ gs) (read_rows {F = F} r s (index + 1) vs) fs
                    (ground (arith, named, given, e)) in
                let others = read_rows-AreListed (index + 1) vs gs rest in
                let first = read_row-IsListed index d (to_list vs) f named given in
                subst (AreListed index (object d ∷ to_list vs)) same (
                  (first.0, (skipped index (object d) (to_list vs) gs others).0),
                  (omega (arith, first.1), rw (first.1) others.1),
                )
          ]
        ]
    read_rows-AreListed index (item v vs) fs e =
        skipped index v (to_list vs) fs (read_rows-AreListed (index + 1) vs fs (ground (arith, e)))

  read_row-id :
      (index : ℕ) (d : Fields) (f : Found F)
      → read_row r s index d ≡ some f
      → f.provider_model_id ≡ row_id r d
  unfolding read_row
  read_row-id index d f e = elim (Option-cases (context_window_of r d)) [
    | inl w ↦ absurd (ground (arith, w, e))
    | inr (window, w) ↦
        let (output, o, same) =
          map-eq_some (found_model {F = F} r s index d window) (max_output_of r d) f
            (ground (arith, w, e)) in
        subst (λ g. g.provider_model_id ≡ row_id r d) same refl
  ]

  -- No row that names a model is left out.
  pub read_rows-row_ids :
      (index : ℕ) (vs : Items) (fs : List (Found F))
      → read_rows r s index vs ≡ some fs
      → model_ids fs ≡ row_ids r vs
  unfolding read_rows
  read_rows-row_ids index no_items fs e =
      let same : [] ≡ fs = ground (arith, e) in subst (λ gs. model_ids gs ≡ []) same refl
  read_rows-row_ids index (item (object d) vs) fs e = elim (Bool-cases (str_eq (row_id r d) "")) [
    | inl blank ↦ rw (blank) (read_rows-row_ids (index + 1) vs fs (ground (arith, blank, e)))
    | inr named ↦ elim (Option-cases (read_row {F = F} r s index d)) [
      | inl raised ↦ absurd (ground (arith, named, raised, e))
      | inr (f, given) ↦
          let (gs, rest, same) =
            map-eq_some (λ gs. f ∷ gs) (read_rows {F = F} r s (index + 1) vs) fs
              (ground (arith, named, given, e)) in
          rw (named) (
            sym (ap model_ids same)
            ∙ ap (λ k. k ∷ model_ids gs) (read_row-id index d f given)
            ∙ ap (λ ks. row_id r d ∷ ks) (read_rows-row_ids (index + 1) vs gs rest))
    ]
  ]
  read_rows-row_ids index (item v vs) fs e = read_rows-row_ids (index + 1) vs fs (ground (arith, e))
