-- ===== src/Database/Overrides/Read.antt =====
-- What src/db.py reads back of a stored override.
use free_lunch.Dict.{Dict, lookup, insert, lookup-insert}
use free_lunch.Json.{Json, null, flag, whole, fraction, text, list, object}
use free_lunch.Database.Overrides.{
  Stored, run_override, serialized, deserialized, set_override, get_overrides,
}
use free_lunch.Prelude.{
  ℕ, String, ◌≡◌, ◌⊎◌, ◌↔◌, ◌∙◌, refl, sym, ap, false, Option, none, some, [], ◌∷◌, arith, str_eq,
  eq_refl, if◌then◌else◌, Bool-cases, Option-cases, inl, inr,
}

module _ (dumps : Json → String) (loads : String → Option Json) where
  abbrev read_row : Option Stored → Option Json
  read_row none = none
  read_row (some r) = some (deserialized dumps loads r.value)

  lookup-get_overrides :
      (k : String) (rows : Dict Stored)
      → lookup k (get_overrides dumps loads rows) ≡ read_row (lookup k rows)
  unfolding get_overrides
  lookup-get_overrides k [] = refl
  lookup-get_overrides k ((j, r) ∷ rows) = elim (Bool-cases (str_eq j k)) [
    | inl e ↦ rw (e) refl
    | inr e ↦ rw (e) (lookup-get_overrides k rows)
  ]

  -- What is read under a key after a value was stored under another or the same.
  after_set :
      (k j : String) (v : Json) (now : ℕ) (rows : Dict Stored)
      → lookup j (get_overrides dumps loads (run_override (set_override dumps loads k v now) rows))
        ≡ (if str_eq k j
            then some (deserialized dumps loads (serialized dumps loads v))
            else lookup j (get_overrides dumps loads rows))
  unfolding run_override set_override
  after_set k j v now rows = elim (Bool-cases (str_eq k j)) [
    | inl e ↦
        lookup-get_overrides j
          (insert k (record { value = serialized dumps loads v; updated_at = now }) rows)
        ∙ ap read_row
            (lookup-insert k j (record { value = serialized dumps loads v; updated_at = now }) rows)
        ∙ rw (e) refl
    | inr e ↦
        lookup-get_overrides j
          (insert k (record { value = serialized dumps loads v; updated_at = now }) rows)
        ∙ ap read_row
            (lookup-insert k j (record { value = serialized dumps loads v; updated_at = now }) rows)
        ∙ rw (e) (sym (lookup-get_overrides j rows))
  ]

  -- A text is read back where it is no JSON, or is the JSON of itself; any other value always is.
  abbrev pub IsReadable : Json → Type 0
  IsReadable v = elim v [ text s ↦ (loads s ≡ none) ⊎ (loads s ≡ some (text s)) | w ↦ Unit {0} ]

  deserialized-serialized :
      (v : Json)
      → loads (dumps v) ≡ some v
      → (deserialized dumps loads (serialized dumps loads v) ≡ v) ↔ IsReadable v
  deserialized-serialized (text s) loaded = elim (Option-cases (loads s)) [
    | inl e ↦ (λ h. inl e, λ p. rw (e, deserialized) refl)
    | inr (w, e) ↦ (λ h. inr (ground (arith, e, h)), λ p. ground (arith, e, p))
  ]
  deserialized-serialized null loaded = (λ h. tt, λ p. rw (loaded, deserialized) refl)
  deserialized-serialized (flag b) loaded = (λ h. tt, λ p. rw (loaded, deserialized) refl)
  deserialized-serialized (whole z) loaded = (λ h. tt, λ p. rw (loaded, deserialized) refl)
  deserialized-serialized (fraction b s) loaded = (λ h. tt, λ p. rw (loaded, deserialized) refl)
  deserialized-serialized (list vs) loaded = (λ h. tt, λ p. rw (loaded, deserialized) refl)
  deserialized-serialized (object d) loaded = (λ h. tt, λ p. rw (loaded, deserialized) refl)

  -- A stored override is read back as it was given exactly if it is no text, or a text that is no JSON or
  -- the JSON of itself, and other keys are read as before; where `loads` undoes `dumps` on it.
  pub get-set_override :
      (k : String) (v : Json) (now : ℕ) (rows : Dict Stored)
      → loads (dumps v) ≡ some v
      → ((lookup k
              (get_overrides dumps loads (run_override (set_override dumps loads k v now) rows))
            ≡ some v)
          ↔ IsReadable v)
        × ((j : String)
            → str_eq k j ≡ false
            → lookup j
                (get_overrides dumps loads (run_override (set_override dumps loads k v now) rows))
              ≡ lookup j (get_overrides dumps loads rows))
  get-set_override k v now rows loaded = (
    (
      λ h.
          (deserialized-serialized v loaded).0
            (ground (arith, h, after_set k k v now rows, eq_refl k)),
      λ p.
          ground
            (arith, (deserialized-serialized v loaded).1 p, after_set k k v now rows, eq_refl k),
    ),
    λ j e. ground (arith, after_set k j v now rows, e),
  )
