-- ===== src/Proxy/Parsing/Preferences.antt =====
-- The preference headers of a chat request in src/proxy.py: when reading them raises.
use free_lunch.Prelude.Int.{max_ℤ}
use free_lunch.Proxy.Parsing.{Numbers, raises, Headers, header_number, parse_routing_preferences}
use free_lunch.Prelude.{
  ℕ, ◌≡◌, ◌⊎◌, ◌↔◌, refl, String, Bool, true, false, Option, none, some, arith, Bool-cases,
  Option-cases, inl, inr,
}

module _ (n : Numbers) where
  -- A header that `isdigit` takes for a number and `int` does not read.
  abbrev pub IsNoInt : Option String → Type 0
  IsNoInt none = ⊥
  IsNoInt (some s) = (n.is_digit s ≡ true) × (n.int_of_text s ≡ none)

  header_number-cases :
      (h : Option String)
      → ((header_number n h ≡ none) × IsNoInt h)
        ⊎ ((k : Option ℕ) × (header_number n h ≡ some k) × (IsNoInt h → ⊥))
  header_number-cases none = inr (none, refl, λ e. e)
  header_number-cases (some s) = elim (Bool-cases (n.is_digit s)) [
    | inr other ↦ inr (none, ground (arith, other), λ e. ground (arith, other, e.0))
    | inl digits ↦ elim (Option-cases (n.int_of_text s)) [
      | inl bad ↦ inl (ground (arith, digits, bad), (digits, bad))
      | inr (z, good) ↦
          inr (some (max_ℤ z 0), ground (arith, digits, good), λ e. ground (arith, good, e.1))
    ]
  ]

  -- Reading the preferences raises an exception that is not answered exactly when they are enabled and one
  -- of the two numbers has a text that `isdigit` accepts and `int` does not.
  pub parse_routing_preferences-raises :
      (normalize : String → String) (enabled : Bool) (h : Headers)
      → (parse_routing_preferences n normalize enabled h ≡ raises)
        ↔ ((enabled ≡ true) × (IsNoInt h.max_latency_ms ⊎ IsNoInt h.min_context))
  unfolding parse_routing_preferences
  parse_routing_preferences-raises normalize false h =
      (λ e. absurd (ground (arith, e)), λ p. absurd (ground (arith, p.0)))
  parse_routing_preferences-raises normalize true h = elim (header_number-cases h.max_latency_ms) [
    | inl bad ↦ (λ e. (refl, inl bad.1), λ p. rw (bad.0) refl)
    | inr (latency, read, fine) ↦ elim (header_number-cases h.min_context) [
      | inl bad ↦ (λ e. (refl, inr bad.1), λ p. rw (read, bad.0) refl)
      | inr (tokens, also, well) ↦ (
        λ e. absurd (ground (arith, e, read, also)),
        λ p. elim p.1 [ inl q ↦ absurd (fine q) | inr q ↦ absurd (well q) ],
      )
    ]
  ]
