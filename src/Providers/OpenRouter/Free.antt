-- ===== src/Providers/OpenRouter/Free.antt =====
-- What `discover_models` of src/providers/openrouter.py lists is free.
use mathlib.Core.Path.{subst}
use mathlib.Core.Option
use free_lunch.Prelude.Int.{pos}
use free_lunch.Json.{Json, object, Fields, get, is_true, value_of}
use free_lunch.Discovery.{Found, RankValue}
use free_lunch.Providers.Adapter.{Outcome, gives, fails, raises, outcome_of-gives}
use free_lunch.Providers.OpenRouter.{
  >>=-eq-some, Columns, OpenRouter, looped, section, as_object, price, is_free_model, read_free,
  keep_free, read_object, read_rows, fallback_model, rows_of, discover_models,
}
use free_lunch.Prelude.{
  ℕ, suc, ◌+◌, ◌≡◌, ◌≢◌, ◌⊎◌, refl, true, false, Option, some, List, [], ◌∷◌, arith, str_eq, eq_iff,
  get_elem?, All, All-map, Bool-cases, map-eq_some, inl, inr, sym,
}

is_free_model-true :
    (c : Columns) (d : Fields)
    → is_free_model c d ≡ some true
    → (pricing : Fields) × (section "pricing" d ≡ some pricing)
      × (price c "prompt" pricing ≡ "0")
      × (price c "completion" pricing ≡ "0")
unfolding is_free_model
is_free_model-true c d h =
    let (pricing, given, free) = >>=-eq-some (section "pricing" d) _ true h in
    (
      pricing,
      given,
      ground (arith, free, eq_iff (price c "prompt" pricing) "0"),
      ground (arith, free, eq_iff (price c "completion" pricing) "0"),
    )

as_object-object : (v : Json) (d : Fields) → as_object v ≡ some d → v ≡ object d
as_object-object (object e) d h = ground (arith, h)
as_object-object v d h = absurd (ground (arith, h))

module _ {F : Type 0} (c : Columns) (a : OpenRouter) where
  -- A model stands for a row that has an id and costs nothing, at the row's place.
  pub record IsFree (index : ℕ) (rows : List Json) (f : Found F) : Type 0 where
    pub place : ℕ
    pub row : Fields
    pub pricing : Fields
    pub listed : get_elem? rows place ≡ some (object row)
    pub priced : section "pricing" row ≡ some pricing
    pub prompt : price c "prompt" pricing ≡ "0"
    pub completion : price c "completion" pricing ≡ "0"
    pub has_id : is_true (get "id" row) ≡ true
    pub named : f.provider_model_id ≡ c.str (value_of "id" row)
    pub ranked : f.openrouter_rank ≡ RankValue.whole (pos (index + place))

  read_free-named :
      (index : ℕ) (d : Fields) (id : Json) (f : Found F)
      → read_free c a index d id ≡ some f
      → (f.provider_model_id ≡ c.str id) × (f.openrouter_rank ≡ RankValue.whole (pos index))
  unfolding read_free
  read_free-named index d id f h =
      let (parameters, p, h1) = >>=-eq-some (looped (get "supported_parameters" d)) _ f h in
      let (architecture, q, h2) = >>=-eq-some (section "architecture" d) _ f h1 in
      let (modalities, r, h3) = >>=-eq-some (looped (get "input_modalities" architecture)) _ f h2 in
      let (top, s, h4) = >>=-eq-some (section "top_provider" d) _ f h3 in
      (ground (arith, h4), ground (arith, h4))

  rank_shift :
      (index place : ℕ) (f : Found F)
      → f.openrouter_rank ≡ RankValue.whole (pos (index + 1 + place))
      → f.openrouter_rank ≡ RankValue.whole (pos (index + suc place))
  rank_shift index place f h =
      let same : index + 1 + place ≡ index + suc place = omega arith in
      subst (λ k. f.openrouter_rank ≡ RankValue.whole (pos k)) same h

  later :
      (index : ℕ) (v : Json) (rows : List Json) (f : Found F)
      → IsFree (index + 1) rows f
      → IsFree index (v ∷ rows) f
  later index v rows f h = record {
    place = suc h.place;
    row = h.row;
    pricing = h.pricing;
    listed = h.listed;
    priced = h.priced;
    prompt = h.prompt;
    completion = h.completion;
    has_id = h.has_id;
    named = h.named;
    ranked = rank_shift index h.place f h.ranked;
  }

  first :
      (index : ℕ) (d : Fields) (rows : List Json) (f : Found F)
      → is_true (get "id" d) ≡ true
      → is_free_model c d ≡ some true
      → read_free c a index d (value_of "id" d) ≡ some f
      → IsFree index (object d ∷ rows) f
  first index d rows f named free read =
      let prices = is_free_model-true c d free in
      let found = read_free-named index d (value_of "id" d) f read in
      let same : index ≡ index + 0 = omega arith in
      record {
        place = 0;
        row = d;
        pricing = prices.0;
        listed = refl;
        priced = prices.1;
        prompt = prices.2;
        completion = prices.3;
        has_id = named;
        named = found.0;
        ranked = subst (λ k. f.openrouter_rank ≡ RankValue.whole (pos k)) same found.1;
      }

  -- A row, where the models of the later rows are free.
  read_object-IsFree :
      (index : ℕ) (d : Fields) (rows : List Json) (rest : Option (List (Found F)))
      (fs : List (Found F))
      → ((gs : List (Found F)) → rest ≡ some gs → All (IsFree (index + 1) rows) gs)
      → read_object c a index d rest ≡ some fs
      → All (IsFree index (object d ∷ rows)) fs
  read_object-IsFree index d rows rest fs ih h = elim (Bool-cases (is_true (get "id" d))) [
    | inr e ↦ behind fs (ground (arith, h, e))
    | inl e ↦
        let (free, asked, kept) =
          >>=-eq-some (is_free_model c d) (λ b. keep_free c a b index d rest) fs
            (ground (arith, h, e)) in
        elim (Bool-cases free) [
          | inr k ↦ behind fs (ground (arith, kept, k))
          | inl k ↦
              let (f, read, mapped) =
                >>=-eq-some (read_free c a index d (value_of "id" d))
                  (λ f. Option.map (λ gs. f ∷ gs) rest) fs (ground (arith, kept, k)) in
              let (gs, given, same) = map-eq_some (λ gs. f ∷ gs) rest fs mapped in
              subst (All (IsFree index (object d ∷ rows))) same
                (first index d rows f e (ground (arith, asked, k)) read, behind gs given)
        ]
  ]
    where
      behind : (gs : List (Found F)) → rest ≡ some gs → All (IsFree index (object d ∷ rows)) gs
      behind gs e = All-map _ _ gs (λ f. later index (object d) rows f) (ih gs e)

  read_rows-IsFree :
      (index : ℕ) (rows : List Json) (fs : List (Found F))
      → read_rows c a index rows ≡ some fs
      → All (IsFree index rows) fs
  unfolding read_rows
  read_rows-IsFree index [] fs h =
      let same : [] ≡ fs = ground (arith, h) in subst (All (IsFree index [])) same tt
  read_rows-IsFree index (v ∷ vs) fs h =
      let (d, given, kept) =
        >>=-eq-some (as_object v)
          (λ d. read_object c a index d (read_rows {F = F} c a (index + 1) vs)) fs h in
      subst (λ u. All (IsFree index (u ∷ vs)) fs) (sym (as_object-object v d given))
        (read_object-IsFree index d vs (read_rows c a (index + 1) vs) fs
          (λ gs e. read_rows-IsFree (index + 1) vs gs e) kept)

  -- What a discovery may give: the stub, or models of free rows of the payload.
  abbrev pub IsFreeList : Outcome Json → List (Found F) → Type 0
  IsFreeList answer found =
      ((a.api_key ≡ "") × (a.dev_stub_enabled ≡ true) × (found ≡ fallback_model c a ∷ []))
      ⊎ ((a.api_key ≢ "")
          × ((payload : Json) × (rows : List Json) × (answer ≡ gives payload)
              × (rows_of payload ≡ some rows)
              × All (IsFree 1 rows) found))

  answered-IsFreeList :
      (answer : Outcome Json) (found : List (Found F))
      → str_eq a.api_key "" ≡ false
      → discover_models c a answer ≡ gives found
      → IsFreeList answer found
  unfolding discover_models
  answered-IsFreeList (gives payload) found k h =
      let (rows, given, read) =
        >>=-eq-some (rows_of payload) (λ rows. read_rows {F = F} c a 1 rows) found
          (outcome_of-gives _ found (ground (arith, h, k))) in
      inr (
        ground (arith, k, eq_iff a.api_key ""),
        (payload, rows, refl, given, read_rows-IsFree 1 rows found read),
      )
  answered-IsFreeList (fails e) found k h = absurd (ground (arith, h, k))
  answered-IsFreeList raises found k h = absurd (ground (arith, h, k))

  -- Without a key a discovery gives the stub model alone, and that only where the stub is enabled; with a
  -- key it gives only models of rows of the answer that have an id and whose prompt and completion price
  -- is the text "0", each ranked by its row's place.
  pub discover_models-IsFreeList :
      (answer : Outcome Json) (found : List (Found F))
      → discover_models c a answer ≡ gives found
      → IsFreeList answer found
  unfolding discover_models
  discover_models-IsFreeList answer found h = elim (Bool-cases (str_eq a.api_key "")) [
    | inr k ↦ answered-IsFreeList answer found k h
    | inl k ↦ elim (Bool-cases a.dev_stub_enabled) [
      | inl s ↦ inl (ground (arith, k, eq_iff a.api_key ""), s, ground (arith, h, k, s))
      | inr s ↦ absurd (ground (arith, h, k, s))
    ]
  ]
