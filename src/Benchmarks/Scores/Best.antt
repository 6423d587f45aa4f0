-- ===== src/Benchmarks/Scores/Best.antt =====
-- What `_update_score` of src/benchmarks.py leaves of the rows of a page.
use mathlib.Core.Path.{subst}
use mathlib.Core.List.{append_assoc, append-nil}
use free_lunch.Floats.{Floats, IsWeakOrder}
use free_lunch.Dict.{Dict, lookup, lookup-insert}
use free_lunch.Benchmarks.Names.{normalize_model_name}
use free_lunch.Benchmarks.Scores.{
  Texts, Row, open_llm_model_name, open_llm_average_score, put_better, update_page,
}
use free_lunch.Prelude.{
  String, ◌≡◌, refl, sym, ◌⊎◌, inl, inr, true, false, Option, none, some, List, [], ◌∷◌, ◌++◌,
  arith, str_eq, eq_iff, eq_refl, if◌then◌else◌, All, All-map, All-append, Option-cases, Bool-cases,
}
use free_lunch.Prelude.Members.{In, In-append, In-last}

module _ {F : Type 0} ⦃fl : Floats F⦄ where
  -- The names and scores that a page holds.
  unfoldable pub measured : Texts F → List (Option (Row F)) → List (String × F)
  measured t [] = []
  measured t (none ∷ rows) = measured t rows
  measured t (some row ∷ rows) =
      let rest = measured t rows in
      let k = normalize_model_name t.lower (open_llm_model_name t row) in
      if str_eq k ""
      then rest
      else elim (open_llm_average_score t row) [ none ↦ rest | some x ↦ (k, x) ∷ rest ]

  -- The pairs put one after the other.
  unfoldable put_all : List (String × F) → Dict F → Dict F
  put_all [] d = d
  put_all (p ∷ ps) d = put_all ps (put_better p.0 p.1 d)

  update_page-put_all :
      (t : Texts F) (rows : List (Option (Row F))) (d : Dict F)
      → update_page t rows d ≡ put_all (measured t rows) d
  unfolding update_page measured put_all
  update_page-put_all t [] d = refl
  update_page-put_all t (none ∷ rows) d = update_page-put_all t rows d
  update_page-put_all t (some row ∷ rows) d =
      elim (Bool-cases (str_eq (normalize_model_name t.lower (open_llm_model_name t row)) "")) [
        | inl e ↦ rw (e) (update_page-put_all t rows d)
        | inr e ↦ elim (Option-cases (open_llm_average_score t row)) [
          | inl s ↦ rw (e, s) (update_page-put_all t rows d)
          | inr (x, s) ↦ rw (e, s) (update_page-put_all t rows _)
        ]
      ]

  -- A score of `k` that none of these beats, or no score where there is none of `k`.
  abbrev pub IsBest : String → List (String × F) → Option F → Type 0
  IsBest k ps none = All (λ p. str_eq p.0 k ≡ false) ps
  IsBest k ps (some v) = In (k, v) ps × All (λ p. (str_eq p.0 k ≡ false) ⊎ (fl.lt v p.1 ≡ false)) ps

  module _ (o : IsWeakOrder fl.lt) where
    irrefl : (x : F) → fl.lt x x ≡ false
    irrefl x = ground (arith, o.asym x x)

    below :
        (v x : F) (q : String × F) (k : String)
        → fl.lt v x ≡ true
        → (str_eq q.0 k ≡ false) ⊎ (fl.lt v q.1 ≡ false)
        → (str_eq q.0 k ≡ false) ⊎ (fl.lt x q.1 ≡ false)
    below v x q k l (inl e) = inl e
    below v x q k l (inr e) = inr (o.trans x v q.1 (o.asym v x l) e)

    -- A pair of another name, or a score that is not greater, changes nothing.
    IsBest-same :
        (k : String) (p : String × F) (ps : List (String × F)) (v : Option F)
        → IsBest k ps v
        → (str_eq p.0 k ≡ false) ⊎ ((w : F) × (v ≡ some w) × (fl.lt w p.1 ≡ false))
        → IsBest k (ps ++ p ∷ []) v
    IsBest-same k p ps none h (inl e) = All-append _ ps (p ∷ []) h (e, tt)
    IsBest-same k p ps none h (inr (w, e, l)) = ground (arith, e)
    IsBest-same k p ps (some v) h (inl e) =
        (In-append (k, v) ps (p ∷ []) h.0, All-append _ ps (p ∷ []) h.1 (inl e, tt))
    IsBest-same k p ps (some v) h (inr (w, e, l)) =
        let same : w ≡ v = ground (arith, e) in
        (
          In-append (k, v) ps (p ∷ []) h.0,
          All-append _ ps (p ∷ []) h.1 (inr (subst (λ u. fl.lt u p.1 ≡ false) same l), tt),
        )

    -- A first score, or one that is greater, is the best.
    IsBest-new :
        (k : String) (x : F) (ps : List (String × F)) (v : Option F)
        → IsBest k ps v
        → (v ≡ none) ⊎ ((w : F) × (v ≡ some w) × (fl.lt w x ≡ true))
        → IsBest k (ps ++ (k, x) ∷ []) (some x)
    IsBest-new k x ps none h c = (
      In-last (k, x) ps,
      All-append _ ps ((k, x) ∷ []) (All-map _ _ ps (λ q e. inl e) h) (inr (irrefl x), tt),
    )
    IsBest-new k x ps (some v) h (inl e) = ground (arith, e)
    IsBest-new k x ps (some v) h (inr (w, e, l)) =
        let less : fl.lt v x ≡ true = ground (arith, e, l) in
        (
          In-last (k, x) ps,
          All-append _ ps ((k, x) ∷ []) (All-map _ _ ps (λ q. below v x q k less) h.1)
              (inr (irrefl x), tt),
        )

    put_own :
        (k : String) (x : F) (ps : List (String × F)) (d : Dict F)
        → IsBest k ps (lookup k d)
        → IsBest k (ps ++ (k, x) ∷ []) (lookup k (put_better k x d))
    put_own k x ps d h = elim (Option-cases (lookup k d)) [
      | inl e ↦
          let new : lookup k (put_better k x d) ≡ some x =
            ground (arith, e, lookup-insert k k x d, eq_refl k) in
          subst (IsBest k (ps ++ (k, x) ∷ [])) (sym new) (IsBest-new k x ps (lookup k d) h (inl e))
      | inr (w, e) ↦ elim (Bool-cases (fl.lt w x)) [
        | inl l ↦
            let new : lookup k (put_better k x d) ≡ some x =
              ground (arith, e, l, lookup-insert k k x d, eq_refl k) in
            subst (IsBest k (ps ++ (k, x) ∷ [])) (sym new)
              (IsBest-new k x ps (lookup k d) h (inr (w, e, l)))
        | inr l ↦
            let same : lookup k (put_better k x d) ≡ lookup k d = ground (arith, e, l) in
            subst (IsBest k (ps ++ (k, x) ∷ [])) (sym same)
              (IsBest-same k (k, x) ps (lookup k d) h (inr (w, e, l)))
      ]
    ]

    put_better-IsBest :
        (k : String) (p : String × F) (ps : List (String × F)) (d : Dict F)
        → IsBest k ps (lookup k d)
        → IsBest k (ps ++ p ∷ []) (lookup k (put_better p.0 p.1 d))
    put_better-IsBest k (j, x) ps d h = elim (Bool-cases (str_eq j k)) [
      | inr e ↦
          let same : lookup k (put_better j x d) ≡ lookup k d =
            ground (arith, e, lookup-insert j k x d) in
          subst (IsBest k (ps ++ (j, x) ∷ [])) (sym same)
            (IsBest-same k (j, x) ps (lookup k d) h (inl e))
      | inl e ↦
          let here : j ≡ k = ground (arith, e, eq_iff j k) in
          subst (λ i. IsBest k (ps ++ (i, x) ∷ []) (lookup k (put_better i x d))) (sym here)
            (put_own k x ps d h)
    ]

    put_all-IsBest :
        (k : String) (ps seen : List (String × F)) (d : Dict F)
        → IsBest k seen (lookup k d)
        → IsBest k (seen ++ ps) (lookup k (put_all ps d))
    unfolding put_all
    put_all-IsBest k [] seen d h = subst (λ l. IsBest k l (lookup k d)) (sym (append-nil seen)) h
    put_all-IsBest k (p ∷ ps) seen d h =
        subst (λ l. IsBest k l (lookup k (put_all ps (put_better p.0 p.1 d))))
          (append_assoc seen (p ∷ []) ps)
          (put_all-IsBest k ps (seen ++ p ∷ []) (put_better p.0 p.1 d)
            (put_better-IsBest k p seen d h))

    -- After a page's rows, read from no scores, the score under each name is one that a row of that
    -- normalized name holds and that no other row of that name beats, and there is none only where no
    -- row of that name holds a score, where `<` orders the scores.
    pub update_page-IsBest :
        (t : Texts F) (rows : List (Option (Row F))) (k : String)
        → IsBest k (measured t rows) (lookup k (update_page t rows []))
    update_page-IsBest t rows k =
        subst (λ d. IsBest k (measured t rows) (lookup k d)) (sym (update_page-put_all t rows []))
          (put_all-IsBest k (measured t rows) [] [] tt)
