-- ===== src/Database/Unique.antt =====
-- The statements on `models` keep the primary key: no id is listed twice.
use free_lunch.Floats.{Floats}
use free_lunch.Database.Models.{Model, Table, find_model, update_where, HasUniqueIds}
use free_lunch.Database.Writes.{
  Write, record_failure, record_success, set_active, deactivate_unseen, deactivate_provider,
  upsert_model, set_score, failed_row, succeeded_row, upsert_row, apply_write, flush,
}
use free_lunch.Prelude.{
  ◌≡◌, refl, String, Bool, false, none, List, [], ◌∷◌, arith, str_eq, eq_iff, Bool-cases, inl, inr,
}

module _ {F : Type 0} where
  find_model-none :
      (k : String) (p : Model F → Bool) (f : Model F → Model F) (ms : Table F)
      → ((m : Model F) → (f m).id ≡ m.id)
      → find_model k ms ≡ none
      → find_model k (update_where p f ms) ≡ none
  find_model-none k p f [] same h = h
  find_model-none k p f (m ∷ ms) same h = ground (arith, same m, h, find_model-none k p f ms same)

  update_where-HasUniqueIds :
      (p : Model F → Bool) (f : Model F → Model F) (ms : Table F)
      → ((m : Model F) → (f m).id ≡ m.id)
      → HasUniqueIds ms
      → HasUniqueIds (update_where p f ms)
  update_where-HasUniqueIds p f [] same u = u
  update_where-HasUniqueIds p f (m ∷ ms) same u = elim (Bool-cases (p m)) [
    | inl e ↦
        rw (e, same m)
          (find_model-none m.id p f ms same u.0, update_where-HasUniqueIds p f ms same u.1)
    | inr e ↦
        rw (e) (find_model-none m.id p f ms same u.0, update_where-HasUniqueIds p f ms same u.1)
  ]

module _ {F : Type 0} ⦃fl : Floats F⦄ where
  find_model-upsert :
      (k : String) (new : Model F) (ms : Table F)
      → str_eq new.id k ≡ false
      → find_model k ms ≡ none
      → find_model k (upsert_row new ms) ≡ none
  unfolding upsert_row
  find_model-upsert k new [] e h = rw (e) refl
  find_model-upsert k new (m ∷ ms) e h = ground (arith, e, h, find_model-upsert k new ms e)

  upsert_row-HasUniqueIds :
      (new : Model F) (ms : Table F) → HasUniqueIds ms → HasUniqueIds (upsert_row new ms)
  unfolding upsert_row
  upsert_row-HasUniqueIds new [] u = (refl, tt)
  upsert_row-HasUniqueIds new (m ∷ ms) u = elim (Bool-cases (str_eq m.id new.id)) [
    | inl e ↦ rw (e) u
    | inr e ↦ rw (e) (
      find_model-upsert m.id new ms (ground (arith, e, eq_iff m.id new.id, eq_iff new.id m.id)) u.0,
      upsert_row-HasUniqueIds new ms u.1,
    )
  ]

  apply_write-HasUniqueIds :
      (w : Write F) (t : Table F) → HasUniqueIds t → HasUniqueIds (apply_write w t)
  unfolding apply_write failed_row succeeded_row
  apply_write-HasUniqueIds (record_failure id now error backoff cooldown threshold) t u =
      update_where-HasUniqueIds _ _ t (λ m. refl) u
  apply_write-HasUniqueIds (record_success id now probed latency ttfb) t u =
      update_where-HasUniqueIds _ _ t (λ m. refl) u
  apply_write-HasUniqueIds (set_active id b) t u = update_where-HasUniqueIds _ _ t (λ m. refl) u
  apply_write-HasUniqueIds (deactivate_unseen provider seen) t u =
      update_where-HasUniqueIds _ _ t (λ m. refl) u
  apply_write-HasUniqueIds (deactivate_provider provider) t u =
      update_where-HasUniqueIds _ _ t (λ m. refl) u
  apply_write-HasUniqueIds (upsert_model new) t u = upsert_row-HasUniqueIds new t u
  apply_write-HasUniqueIds (set_score id score now) t u =
      update_where-HasUniqueIds _ _ t (λ m. refl) u

  pub flush-HasUniqueIds :
      (ws : List (Write F)) (t : Table F) → HasUniqueIds t → HasUniqueIds (flush ws t)
  unfolding flush
  flush-HasUniqueIds [] t u = u
  flush-HasUniqueIds (w ∷ ws) t u =
      flush-HasUniqueIds ws (apply_write w t) (apply_write-HasUniqueIds w t u)
