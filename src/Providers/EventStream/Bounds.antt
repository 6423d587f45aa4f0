-- ===== src/Providers/EventStream/Bounds.antt =====
-- The size limit of src/providers/openai_compatible.py lets every answer through that is smaller.
use free_lunch.Providers.EventStream.{
  Pending, nothing_yet, Reader, reading, closed, complete, strip_cr, send_event, is_comment,
  add_line, take_line, end_line, read_chunk, read_chunks, finish, event_stream,
}
use free_lunch.Providers.EventStream.Lines.{
  closed_lines, open_line, take_lines, take_lines-some, drain-Drained,
}
use free_lunch.Providers.EventStream.Whole.{concat}
use free_lunch.Prelude.{
  ℕ, ◌+◌, ◌≤◌, String, ◌≡◌, ◌∙◌, refl, ap, false, Option, some, List, [], ◌∷◌, ◌++◌, arith, ltb,
  length, length-append, total, List-cases, Bool-cases, inl, inr,
}

length-strip_cr : (bs : List ℕ) → length (strip_cr bs) ≤ length bs
length-strip_cr [] = omega arith
length-strip_cr (b ∷ bs) = elim (List-cases bs) [
  | inl e ↦ ground (arith, e)
  | inr (c, cs, e) ↦ ground (arith, e, length-strip_cr bs)
]

-- A line and its newline.
abbrev weight : List (List ℕ) → ℕ
weight ls = total (λ l. length l + 1) ls

weight-lines : (bs : List ℕ) → weight (closed_lines bs) + length (open_line bs) ≡ length bs
unfolding closed_lines open_line
weight-lines [] = omega arith
weight-lines (b ∷ bs) = elim (List-cases (closed_lines bs)) [
  | inl e ↦ ground (arith, e, weight-lines bs)
  | inr (l, ls, e) ↦ ground (arith, e, weight-lines bs)
]

module _ (max_bytes : ℕ) (decode : List ℕ → String) where
  -- A line's end that has room for the line goes on, and counts no more than the line.
  abbrev Fits : ℕ → Option Pending → Type 0
  Fits n o = (q : Pending) × (o ≡ some q) × (q.bytes ≤ n)

  add_line-Fits :
      (l : List ℕ) (p : Pending)
      → p.bytes + length l + 1 ≤ max_bytes
      → Fits (p.bytes + length l + 1) (add_line max_bytes decode l p)
  add_line-Fits l p h =
      let room : ltb max_bytes (p.bytes + length l + 1) ≡ false = ground (arith, h) in
      let q : Pending = record {
        sent = p.sent;
        lines = p.lines ++ decode l ∷ [];
        bytes = p.bytes + length l + 1;
      } in
      (q, rw (room) refl, omega arith)

  send_event-Fits : (n : ℕ) (p : Pending) → p.bytes ≤ n → (send_event p).bytes ≤ n
  send_event-Fits n p h = elim (List-cases p.lines) [
    | inl e ↦ ground (arith, e, h)
    | inr (l, ls, e) ↦ ground (arith, e)
  ]

  take_line-Fits :
      (l : List ℕ) (p : Pending)
      → p.bytes + length l + 1 ≤ max_bytes
      → Fits (p.bytes + length l + 1) (take_line max_bytes decode l p)
  take_line-Fits [] p h = (send_event p, refl, send_event-Fits _ p (omega arith))
  take_line-Fits (b ∷ bs) p h = elim (Bool-cases (is_comment (decode (b ∷ bs)))) [
    | inl e ↦ (p, rw (e) refl, omega arith)
    | inr e ↦ rw (e) (add_line-Fits (b ∷ bs) p h)
  ]

  end_line-Fits :
      (raw : List ℕ) (p : Pending)
      → p.bytes + length raw + 1 ≤ max_bytes
      → Fits (p.bytes + length raw + 1) (end_line max_bytes decode raw p)
  end_line-Fits raw p h =
      let short : length (strip_cr raw) ≤ length raw = length-strip_cr raw in
      let room : ltb max_bytes (length (strip_cr raw)) ≡ false = ground (arith, h, short) in
      let (q, e, k) = take_line-Fits (strip_cr raw) p (omega arith) in (q, rw (room) e, omega arith)

  take_lines-Fits :
      (ls : List (List ℕ)) (p : Pending)
      → p.bytes + weight ls ≤ max_bytes
      → Fits (p.bytes + weight ls) (take_lines max_bytes decode ls p)
  unfolding take_lines
  take_lines-Fits [] p h = (p, refl, omega arith)
  take_lines-Fits (l ∷ ls) p h =
      let (q, e, k) = end_line-Fits l p (omega arith) in
      let (r, f, m) = take_lines-Fits ls q (omega arith) in
      (r, take_lines-some max_bytes decode l ls p q e ∙ f, omega arith)

  -- A reader that has read `n` bytes and still reads.
  abbrev IsReading : ℕ → Reader → Type 0
  IsReading n r = (p : Pending) × (b : List ℕ) × (r ≡ reading p b) × (p.bytes + length b ≤ n)

  read_chunk-IsReading :
      (n : ℕ) (chunk : List ℕ) (r : Reader)
      → n + length chunk ≤ max_bytes
      → IsReading n r
      → IsReading (n + length chunk) (read_chunk max_bytes decode chunk r)
  read_chunk-IsReading n chunk r h (p, b, e, k) =
      let all : length (b ++ chunk) ≡ length b + length chunk = length-append b chunk in
      let cut : weight (closed_lines (b ++ chunk)) + length (open_line (b ++ chunk))
          ≡ length (b ++ chunk) =
        weight-lines (b ++ chunk) in
      let (q, t, m) = take_lines-Fits (closed_lines (b ++ chunk)) p (omega arith) in
      let room : ltb max_bytes (length (open_line (b ++ chunk))) ≡ false =
        ground (arith, h, k, cut, all) in
      elim (drain-Drained max_bytes decode (length (b ++ chunk)) p (b ++ chunk) (omega arith)) [
        | inr (sent, u, d) ↦ ground (arith, u, t)
        | inl (o, u, d) ↦
            let same : o ≡ q = ground (arith, u, t) in
            (q, open_line (b ++ chunk), rw (e, d, room, same) refl, omega arith)
      ]

  read_chunks-IsReading :
      (cs : List (List ℕ)) (n : ℕ) (r : Reader)
      → n + length (concat cs) ≤ max_bytes
      → IsReading n r
      → IsReading (n + length (concat cs)) (read_chunks max_bytes decode cs r)
  unfolding concat read_chunks
  read_chunks-IsReading [] n r h (p, b, e, k) = (p, b, e, omega arith)
  read_chunks-IsReading (c ∷ cs) n r h k =
      let all : length (c ++ concat cs) ≡ length c + length (concat cs) =
        length-append c (concat cs) in
      let (p, b, e, m) =
        read_chunks-IsReading cs (n + length c) (read_chunk max_bytes decode c r) (omega arith)
          (read_chunk-IsReading n c r (omega arith) k) in
      (p, b, e, omega arith)

  finish-complete :
      (p : Pending) (b : List ℕ)
      → p.bytes + length b + 1 ≤ max_bytes
      → (finish max_bytes decode closed (reading p b)).1 ≡ complete
  finish-complete p [] h = refl
  finish-complete p (c ∷ b) h =
      let short : length (strip_cr (c ∷ b)) ≤ length (c ∷ b) = length-strip_cr (c ∷ b) in
      let (q, e, k) = add_line-Fits (strip_cr (c ∷ b)) p (omega arith) in rw (finish, e) refl

  -- A stream whose bytes come to their end is complete, not too long, if all its bytes and one more
  -- are within the limit.
  pub event_stream-complete :
      (chunks : List (List ℕ))
      → length (concat chunks) + 1 ≤ max_bytes
      → (event_stream max_bytes decode chunks closed).1 ≡ complete
  unfolding event_stream
  event_stream-complete chunks h =
      let (p, b, e, k) =
        read_chunks-IsReading chunks 0 (reading nothing_yet []) (omega arith)
          (nothing_yet, [], refl, omega arith) in
      ap (λ r. (finish max_bytes decode closed r).1) e ∙ finish-complete p b (omega arith)
