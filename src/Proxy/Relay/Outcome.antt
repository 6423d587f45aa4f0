-- ===== src/Proxy/Relay/Outcome.antt =====
-- What the client and the records of src/proxy.py see of a relayed stream.
use mathlib.Core.Path.{subst}
use free_lunch.Prelude.{
  ℕ, ◌+◌, String, ◌≡◌, refl, ap, Bool, true, false, ◌||◌, none, List, [], ◌∷◌, ◌++◌, arith,
  if◌then◌else◌, take, length, any, All, ◌⊎◌, inl, inr, ◌∙◌, sym, Option-cases,
}
use free_lunch.Floats.{Floats}
use free_lunch.Routing.Candidates.{Candidate, RoutingRequirements}
use free_lunch.Proxy.Attempts.{Event, Stream, ended, breaks, event, Effect, Timing}
use free_lunch.Proxy.Failover.Answers.{count, is_success}
use free_lunch.Proxy.Relay.{
  EventReading, Reading, Relayed, RelayState, absorb, read_event, catch, relay_loop, settle,
  relay_stream, done_marker,
}

-- The texts of a stream's events.
abbrev pub raws : Stream → List String
raws ended = []
raws (breaks e) = []
raws (event e rest) = e.raw ∷ raws rest

any-append :
    {A : Type 0} (p : A → Bool) (xs ys : List A) → any p (xs ++ ys) ≡ (any p xs || any p ys)
any-append p [] ys = refl
any-append p (x ∷ xs) ys = ground (arith, any-append p xs ys)

Sum-cases : {A B : Type 0} (s : A ⊎ B) → ((a : A) × (s ≡ inl a)) ⊎ ((b : B) × (s ≡ inr b))
Sum-cases (inl a) = inl (a, refl)
Sum-cases (inr b) = inr (b, refl)

-- Whether an event is read as the end of the answer.
abbrev pub tells_end : String ⊎ Reading → Bool
tells_end s = elim s [ inl message ↦ false | inr r ↦ r.done ]

-- An event that is read without an exception and without an error.
abbrev pub IsFine : String ⊎ Reading → Type 0
IsFine s = (r : Reading) × (s ≡ inr r) × (r.error ≡ none)

module _ (timing : Timing) (gone : ℕ → Bool) (reads : String → String ⊎ Reading) where
  relay_loop-sent :
      (now : ℕ) (st : RelayState) (s : Stream)
      → (relay_loop timing gone reads now st s).sent
        ≡ take (length (relay_loop timing gone reads now st s).sent) (raws s)
  unfolding relay_loop
  relay_loop-sent now st ended = ground arith
  relay_loop-sent now st (breaks e) = ground arith
  relay_loop-sent now st (event e rest) = elim (Sum-cases (reads e.raw)) [
    | inl (message, same) ↦ rw (same, relay_loop) (ground arith)
    | inr (r, same) ↦
        rw (same, relay_loop) (ground (arith, relay_loop-sent (now + e.wait) (absorb st r) rest))
  ]

  -- Its state knows whether the end of the answer was among what it sent.
  relay_loop-done :
      (now : ℕ) (st : RelayState) (s : Stream)
      → (relay_loop timing gone reads now st s).state.done ≡ (
          st.done
          || any (λ raw. tells_end (reads raw)) (relay_loop timing gone reads now st s).sent)
  unfolding relay_loop catch
  relay_loop-done now st ended = ground arith
  relay_loop-done now st (breaks e) = ground arith
  relay_loop-done now st (event e rest) = elim (Sum-cases (reads e.raw)) [
    | inl (message, same) ↦ ground (arith, same)
    | inr (r, same) ↦ ground (arith, same, relay_loop-done (now + e.wait) (absorb st r) rest)
  ]

  -- Without an error at the end nothing that was sent told of one.
  relay_loop-error :
      (now : ℕ) (st : RelayState) (s : Stream)
      → (relay_loop timing gone reads now st s).state.error ≡ none
      → (st.error ≡ none)
        × All (λ raw. IsFine (reads raw)) (relay_loop timing gone reads now st s).sent
  unfolding relay_loop catch
  relay_loop-error now st ended h = ground arith
  relay_loop-error now st (breaks e) h = ground arith
  relay_loop-error now st (event e rest) h = elim (Sum-cases (reads e.raw)) [
    | inl (message, same) ↦ ground (arith, same)
    | inr (r, same) ↦ ground (arith, same, relay_loop-error (now + e.wait) (absorb st r) rest)
  ]

module _ {F Msgs : Type 0} ⦃fl : Floats F⦄ (timing : Timing) (gone : ℕ → Bool)
    (req : RoutingRequirements Msgs) (x : EventReading) where
  relay_stream-read :
      (i : ℕ) (c : Candidate F) (now : ℕ) (first : Event) (rest : Stream) (st : Reading)
      → read_event x first.raw ≡ inr st
      → relay_stream timing gone req x i c now first rest ≡ (
        (if gone now then [] else first.raw ∷ [])
            ++ (relay_loop timing gone (read_event x) now st rest).sent
            ++ (settle timing gone req i c now
                (relay_loop timing gone (read_event x) now st rest)).0,
        (settle timing gone req i c now (relay_loop timing gone (read_event x) now st rest)).1,
      )
  unfolding relay_stream
  relay_stream-read i c now first rest st same = rw (same, relay_stream) refl

  -- If the first event is read without an exception, the client gets the events of the provider, unchanged
  -- and in order, up to some point, then possibly the end marker, and nothing else; a client that has left
  -- at the start may miss the first. If the first event raises, nothing is sent and nothing is recorded.
  pub relay_stream-sent :
      (i : ℕ) (c : Candidate F) (now : ℕ) (first : Event) (rest : Stream)
      → ((st : Reading) × (read_event x first.raw ≡ inr st)
          × ((k : ℕ) × (tail : List String) × ((relay_stream timing gone req x i c now first rest).0
                ≡ (if gone now then [] else first.raw ∷ []) ++ take k (raws rest) ++ tail)
              × ((tail ≡ []) ⊎ (tail ≡ done_marker ∷ []))))
        ⊎ ((message : String) × (read_event x first.raw ≡ inl message)
            × (relay_stream timing gone req x i c now first rest ≡ ([], [])))
  unfolding relay_stream settle
  relay_stream-sent i c now first rest = elim (Sum-cases (read_event x first.raw)) [
    | inl (message, same) ↦ inr (message, same, rw (same, relay_stream) refl)
    | inr (st, same) ↦
        let r = relay_loop timing gone (read_event x) now st rest in
        inl (
          st,
          same,
          (
            length r.sent,
            (settle timing gone req i c now r).0,
            ap (λ (p : List String × List (Effect F)). p.0)
                  (relay_stream-read i c now first rest st same)
                ∙ ap
                    (λ xs.
                      (if gone now then [] else first.raw ∷ [])
                      ++ xs
                      ++ (settle timing gone req i c now r).0)
                    (relay_loop-sent timing gone (read_event x) now st rest),
            ground arith,
          ),
        )
  ]

  settle-success :
      (i : ℕ) (c : Candidate F) (now : ℕ) (r : Relayed)
      → count is_success (settle timing gone req i c now r).1 ≡ 1
      → (r.state.error ≡ none)
        × ((r.state.done ≡ true) ⊎ ((settle timing gone req i c now r).0 ≡ done_marker ∷ []))
  unfolding settle
  settle-success i c now r h = elim (Option-cases r.state.error) [
    | inl e ↦ (e, ground (arith, h, e))
    | inr (error, e) ↦ absurd (ground (arith, h, e))
  ]

  -- If a success is recorded, the client was there at the start and the end marker is read as the
  -- end, then the first event and all that were sent later were read without an exception and told of no
  -- error, and the client was told the end of the answer, by the provider or by the marker.
  pub relay_success :
      (i : ℕ) (c : Candidate F) (now : ℕ) (first : Event) (rest : Stream)
      → count is_success (relay_stream timing gone req x i c now first rest).1 ≡ 1
      → gone now ≡ false
      → tells_end (read_event x done_marker) ≡ true
      → (st : Reading) × (read_event x first.raw ≡ inr st)
        × (st.error ≡ none)
        × All
            (λ raw. IsFine (read_event x raw))
            (relay_loop timing gone (read_event x) now st rest).sent
        × (any
              (λ raw. tells_end (read_event x raw))
              (relay_stream timing gone req x i c now first rest).0
            ≡ true)
  unfolding relay_stream settle
  relay_success i c now first rest h here marker = elim (Sum-cases (read_event x first.raw)) [
    | inl (message, same) ↦ absurd (ground (arith, h, same))
    | inr (st, same) ↦
        let r = relay_loop timing gone (read_event x) now st rest in
        let told : String → Bool = λ raw. tells_end (read_event x raw) in
        let whole = relay_stream-read i c now first rest st same in
        let ends =
          settle-success i c now r
            (subst (λ (p : List String × List (Effect F)). count is_success p.1 ≡ 1) whole h) in
        let fine = relay_loop-error timing gone (read_event x) now st rest ends.0 in
        let end = relay_loop-done timing gone (read_event x) now st rest in
        (
          st,
          same,
          fine.0,
          fine.1,
          subst (λ (p : List String × List (Effect F)). any told p.0 ≡ true) (sym whole)
              (ground (
                arith,
                here,
                same,
                marker,
                ends.1,
                end,
                any-append told r.sent (settle timing gone req i c now r).0,
              )),
        )
  ]
