-- ===== src/Routing/Order.antt =====
-- The order in which src/routing.py tries the candidates.
use mathlib.Core.List.{Perm}
use free_lunch.Prelude.{
  String, ◌≡◌, refl, ap, Bool, false, not, ◌||◌, Option, none, List, [], ◌∷◌, arith, select,
  select-cong, any, All, All-map, All-both, str_eq, eq_iff, eq_refl, Bool-cases, inl, inr,
  if◌then◌else◌, if_keeps, or_else, ◌⊎◌,
}
use free_lunch.Prelude.Sort.{sort_desc-perm, IsDescending, sort_desc-IsDescending}
use free_lunch.Prelude.Members.{select_split-perm}
use free_lunch.Floats.{Floats, IsWeakOrder, tuple_lt-IsWeakOrder}
use free_lunch.Routing.{lower_preference, by_preference, preference_score, order_candidates}
use free_lunch.Routing.Candidates.{
  RoutingPreferences, Candidate, has_id, is_named, is_nonempty, find, match_explicit_model,
  ends_with, remove_suffix, explicit_first,
}

module _ {F : Type 0} where
  -- No id is listed twice.
  abbrev pub HasUniqueIds : List (Candidate F) → Type 0
  HasUniqueIds [] = Unit
  HasUniqueIds (c ∷ cs) = (find c.id cs ≡ none) × HasUniqueIds cs

  any-select :
      (k : String) (p : Candidate F → Bool) (cs : List (Candidate F))
      → find k cs ≡ none
      → any (has_id k) (select p cs) ≡ false
  any-select k p [] h = refl
  any-select k p (c ∷ cs) h = ground (arith, any-select k p cs)

  others-All :
      (k : String) (cs : List (Candidate F))
      → find k cs ≡ none
      → All (λ c. str_eq k c.id ≡ false) cs
  others-All k [] h = tt
  others-All k (c ∷ cs) h =
      (ground (arith, eq_iff k c.id, eq_iff c.id k), others-All k cs (ground arith))

  -- With unique ids a candidate's id is among the selected ones exactly if it passes the test.
  any-select_iff :
      (p : Candidate F → Bool) (cs : List (Candidate F))
      → HasUniqueIds cs
      → All (λ c. any (has_id c.id) (select p cs) ≡ p c) cs
  any-select_iff p [] u = tt
  any-select_iff p (c ∷ cs) u = (
    ground (arith, eq_refl c.id, any-select c.id p cs),
    All-map _ _ cs (λ x h. ground (arith, h.0, h.1))
        (All-both _ _ cs (others-All c.id cs u.0) (any-select_iff p cs u.1)),
  )

  explicit_first-perm :
      (p : Candidate F → Bool) (cs : List (Candidate F))
      → HasUniqueIds cs
      → Perm (explicit_first (select p cs) cs) cs
  explicit_first-perm p cs u =
      rw
        (select-cong (λ c. not (any (has_id c.id) (select p cs))) (λ c. not (p c)) cs
          (All-map _ _ cs (λ x h. ap not h) (any-select_iff p cs u)))
        (select_split-perm p cs)

  match-eq-select :
      (cs : List (Candidate F)) (name : String)
      → ((p : Candidate F → Bool) × (match_explicit_model cs name ≡ select p cs))
        ⊎ (match_explicit_model cs name ≡ [])
  unfolding match_explicit_model
  match-eq-select cs name = elim (Bool-cases (is_nonempty (select (is_named name) cs))) [
    | inl e ↦ inl (is_named name, ground arith)
    | inr e ↦ elim (Bool-cases (ends_with name ":free")) [
      | inl f ↦ inl (is_named (remove_suffix name ":free"), ground arith)
      | inr f ↦ inr (ground arith)
    ]
  ]

  matched_first-perm :
      (cs sorted : List (Candidate F)) (name : String)
      → HasUniqueIds cs
      → Perm sorted cs
      → let explicit = match_explicit_model cs name in
        Perm (if is_nonempty explicit then explicit_first explicit cs else sorted) cs
  matched_first-perm cs sorted name u h = elim (match-eq-select cs name) [
    | inl (p, e) ↦
        rw e
          (if_keeps (λ l. Perm l cs) (is_nonempty (select p cs)) _ _ (explicit_first-perm p cs u) h)
    | inr e ↦ rw e h
  ]

module _ {F : Type 0} ⦃fl : Floats F⦄ where
  -- With unique ids the order only rearranges the candidates: none is lost and none is repeated,
  -- whatever model is requested and whatever is preferred.
  pub order_candidates-perm :
      (prefs : Option RoutingPreferences) (requested : Option String) (cs : List (Candidate F))
      → HasUniqueIds cs
      → Perm (order_candidates prefs requested cs) cs
  unfolding order_candidates by_preference
  order_candidates-perm prefs requested cs u =
      let name = or_else requested "auto" in
      let sorted = sort_desc-perm (lower_preference prefs) cs in
      if_keeps (λ l. Perm l cs) (str_eq name "auto" || str_eq name "") _ _ sorted
        (matched_first-perm cs (by_preference prefs cs) name u sorted)

  -- On floats that `<` orders weakly, as it does finite ones, and without a requested model, the
  -- candidates are tried in descending order of preference score.
  pub order_candidates-IsDescending :
      IsWeakOrder fl.lt
      → (prefs : Option RoutingPreferences) (cs : List (Candidate F))
      → IsDescending (lower_preference prefs) (order_candidates prefs none cs)
  unfolding order_candidates match_explicit_model by_preference
  order_candidates-IsDescending o prefs cs =
      let tuples = tuple_lt-IsWeakOrder fl.lt o in
      let key = preference_score prefs in
      sort_desc-IsDescending (lower_preference prefs) (λ x y. tuples.asym (key x) (key y))
        (λ x y z. tuples.trans (key x) (key y) (key z)) cs
