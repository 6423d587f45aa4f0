-- ===== src/Providers/EventStream/Whole.antt =====
-- The events of src/providers/openai_compatible.py do not depend on how the bytes are cut into chunks.
use mathlib.Core.Path.{subst}
use mathlib.Core.List.{append_assoc, append-nil}
use free_lunch.Providers.EventStream.{
  Pending, nothing_yet, Reader, reading, too_long, closed, complete, check_buffer, read_chunk,
  read_chunks, last_line, finish, send_event, event_stream,
}
use free_lunch.Providers.EventStream.Lines.{
  closed_lines, open_line, lines-append, take_lines, take_lines-append, drain-Drained,
}
use free_lunch.Prelude.{
  ℕ, String, ◌≡◌, ◌∙◌, refl, sym, ap, Option, none, some, List, [], ◌∷◌, ◌++◌, arith, ltb, length,
  Option-cases, Bool-cases, inl, inr,
}

-- The chunks one after the other.
unfoldable pub concat : List (List ℕ) → List ℕ
concat [] = []
concat (c ∷ cs) = c ++ concat cs

module _ (max_bytes : ℕ) (decode : List ℕ → String) where
  -- The events of a whole answer, line by line, or `none` where one is too long.
  unfoldable pub whole_events : List ℕ → Option (List String)
  unfolding take_lines closed_lines open_line
  whole_events bs = elim (take_lines max_bytes decode (closed_lines bs) nothing_yet) [
    | none ↦ none
    | some p ↦ elim (last_line max_bytes decode (open_line bs) p) [
      | none ↦ none
      | some q ↦ some (send_event q).sent
    ]
  ]

  -- The reader has read these bytes from the start.
  abbrev HasRead : List ℕ → Pending → List ℕ → Type 0
  HasRead bs p buffer =
      (take_lines max_bytes decode (closed_lines bs) nothing_yet ≡ some p) × (buffer ≡ open_line bs)

  HasRead-append :
      (bs chunk : List ℕ) (p q : Pending) (buffer : List ℕ)
      → HasRead bs p buffer
      → take_lines max_bytes decode (closed_lines (buffer ++ chunk)) p ≡ some q
      → HasRead (bs ++ chunk) q (open_line (buffer ++ chunk))
  HasRead-append bs chunk p q buffer h e =
      let cut : closed_lines (bs ++ chunk) ≡ closed_lines bs ++ closed_lines (buffer ++ chunk) =
        (lines-append bs chunk).0 ∙ rw (h.1) refl in
      (
        ap (λ ls. take_lines max_bytes decode ls nothing_yet) cut
            ∙ (take_lines-append max_bytes decode (closed_lines bs) _ nothing_yet ∙ rw (h.0) e),
        rw (h.1) (sym (lines-append bs chunk).1),
      )

  check_buffer-reading :
      (p q : Pending) (buffer rest : List ℕ)
      → check_buffer max_bytes decode (reading p buffer) ≡ reading q rest
      → (p ≡ q) × (buffer ≡ rest)
  check_buffer-reading p q buffer rest h = elim (Bool-cases (ltb max_bytes (length buffer))) [
    | inl e ↦ ground (arith, h, e)
    | inr e ↦ ground (arith, h, e)
  ]

  -- A reader that still reads after a chunk has taken it in.
  read_chunk-HasRead :
      (bs chunk : List ℕ) (p q : Pending) (buffer rest : List ℕ)
      → HasRead bs p buffer
      → read_chunk max_bytes decode chunk (reading p buffer) ≡ reading q rest
      → HasRead (bs ++ chunk) q rest
  read_chunk-HasRead bs chunk p q buffer rest h e =
      elim (drain-Drained max_bytes decode (length (buffer ++ chunk)) p (buffer ++ chunk)
        (omega arith)) [
          | inl (r, t, d) ↦
              let same : (r ≡ q) × (open_line (buffer ++ chunk) ≡ rest) =
                check_buffer-reading r q _ rest (sym (ap (check_buffer max_bytes decode) d) ∙ e) in
              rw (← same.0, ← same.1) (HasRead-append bs chunk p r buffer h t)
          | inr (sent, t, d) ↦
              let bad : too_long sent ≡ reading q rest =
                sym (ap (check_buffer max_bytes decode) d) ∙ e in
              ground (arith, bad)
        ]

  read_chunks-too_long :
      (cs : List (List ℕ)) (sent : List String)
      → read_chunks max_bytes decode cs (too_long sent) ≡ too_long sent
  unfolding read_chunks
  read_chunks-too_long [] sent = refl
  read_chunks-too_long (c ∷ cs) sent = read_chunks-too_long cs sent

  -- Whatever follows from a reader that still reads follows from the readers that can get there.
  from_reading :
      (P : Type 0) (cs : List (List ℕ)) (r : Reader) (q : Pending) (rest : List ℕ)
      → read_chunks max_bytes decode cs r ≡ reading q rest
      → ((p : Pending) (b : List ℕ) → r ≡ reading p b → P)
      → P
  from_reading P cs (reading p b) q rest e k = k p b refl
  from_reading P cs (too_long sent) q rest e k =
      let bad : too_long sent ≡ reading q rest = sym (read_chunks-too_long cs sent) ∙ e in
      ground (arith, bad)

  read_chunks-HasRead :
      (cs : List (List ℕ)) (bs : List ℕ) (p q : Pending) (buffer rest : List ℕ)
      → HasRead bs p buffer
      → read_chunks max_bytes decode cs (reading p buffer) ≡ reading q rest
      → HasRead (bs ++ concat cs) q rest
  unfolding read_chunks concat
  read_chunks-HasRead [] bs p q buffer rest h e =
      let same : (p ≡ q) × (buffer ≡ rest) = ground (arith, e) in
      rw (← same.0, ← same.1) (subst (λ xs. HasRead xs p buffer) (sym (append-nil bs)) h)
  read_chunks-HasRead (c ∷ cs) bs p q buffer rest h e =
      from_reading (HasRead (bs ++ (c ++ concat cs)) q rest) cs
        (read_chunk max_bytes decode c (reading p buffer)) q rest e
        (λ r b f.
          subst (λ xs. HasRead xs q rest) (append_assoc bs c (concat cs))
            (read_chunks-HasRead cs (bs ++ c) r q b rest (read_chunk-HasRead bs c p r buffer b h f)
              (ap (read_chunks max_bytes decode cs) (sym f) ∙ e)))

  finish-complete :
      (r : Reader) (events : List String)
      → finish max_bytes decode closed r ≡ (events, complete)
      → (p : Pending) × (q : Pending) × (buffer : List ℕ) × (r ≡ reading p buffer)
        × (last_line max_bytes decode buffer p ≡ some q)
        × ((send_event q).sent ≡ events)
  finish-complete (too_long sent) events h = ground (arith, h)
  finish-complete (reading p buffer) events h =
      elim (Option-cases (last_line max_bytes decode buffer p)) [
        | inl e ↦ ground (arith, h, e)
        | inr (q, e) ↦ (p, q, buffer, refl, e, ground (arith, h, e))
      ]

  -- A stream that ends well has sent the events of the whole answer, read line by line, however the
  -- bytes were cut into chunks.
  pub event_stream-whole :
      (chunks : List (List ℕ)) (events : List String)
      → event_stream max_bytes decode chunks closed ≡ (events, complete)
      → whole_events (concat chunks) ≡ some events
  unfolding event_stream whole_events
  event_stream-whole chunks events h =
      let (p, q, buffer, r, l, s) =
        finish-complete (read_chunks max_bytes decode chunks (reading nothing_yet [])) events h in
      let done : HasRead (concat chunks) p buffer =
        read_chunks-HasRead chunks [] nothing_yet p [] buffer (refl, refl) r in
      let last : last_line max_bytes decode (open_line (concat chunks)) p ≡ some q =
        ap (λ b. last_line max_bytes decode b p) (sym done.1) ∙ l in
      rw (whole_events, done.0, last, s) refl
