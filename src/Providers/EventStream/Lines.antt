-- ===== src/Providers/EventStream/Lines.antt =====
-- The lines of a text of bytes, and how the reader of src/providers/openai_compatible.py goes over them.
use free_lunch.Providers.EventStream.{
  Pending, Reader, reading, too_long, partition, end_line, drain,
}
use free_lunch.Prelude.{
  ℕ, zero, suc, ◌⊎◌, ◌≤◌, String, ◌≡◌, ◌∙◌, refl, ap, Option, none, some, List, [], ◌∷◌, ◌++◌,
  arith, ◌==◌, if◌then◌else◌, length, Option-cases, List-cases, inl, inr,
}

-- The bytes before the first newline and the lines after it; the first part is a line only if a
-- newline follows, so the text's lines are `closed_lines` and what is left is `open_line`.
unfoldable pub closed_lines : List ℕ → List (List ℕ)
closed_lines [] = []
closed_lines (b ∷ bs) =
    let rest = closed_lines bs in
    if b == 10 then [] ∷ rest else elim rest [ [] ↦ [] | l ∷ ls ↦ (b ∷ l) ∷ ls ]

unfoldable pub open_line : List ℕ → List ℕ
unfolding closed_lines
open_line [] = []
open_line (b ∷ bs) =
    let rest = open_line bs in
    if b == 10 then rest else elim (closed_lines bs) [ [] ↦ b ∷ rest | l ∷ ls ↦ rest ]

-- A text cut at its first newline.
partition-none : (bs : List ℕ) → partition bs ≡ none → (closed_lines bs ≡ []) × (open_line bs ≡ bs)
unfolding closed_lines open_line
partition-none [] h = (refl, refl)
partition-none (b ∷ bs) h = ground (arith, h, partition-none bs)

partition-some :
    (bs : List ℕ) (cut : List ℕ × List ℕ)
    → partition bs ≡ some cut
    → (closed_lines bs ≡ cut.0 ∷ closed_lines cut.1)
      × (open_line bs ≡ open_line cut.1)
      × (suc (length cut.1) ≤ length bs)
unfolding closed_lines open_line
partition-some [] cut h = ground (arith, h)
partition-some (b ∷ bs) cut h = elim (Option-cases (partition bs)) [
  | inl e ↦ ground (arith, h, e)
  | inr (d, e) ↦ ground (arith, h, e, partition-some bs d e)
]

open_line-all : (bs : List ℕ) → closed_lines bs ≡ [] → open_line bs ≡ bs
unfolding closed_lines open_line
open_line-all [] h = refl
open_line-all (b ∷ bs) h = elim (List-cases (closed_lines bs)) [
  | inl e ↦ ground (arith, h, e, open_line-all bs)
  | inr (l, ls, e) ↦ ground (arith, h, e)
]

-- An open line has no newline in it, so more bytes only make it longer.
pub lines-append :
    (xs ys : List ℕ)
    → (closed_lines (xs ++ ys) ≡ closed_lines xs ++ closed_lines (open_line xs ++ ys))
      × (open_line (xs ++ ys) ≡ open_line (open_line xs ++ ys))
unfolding closed_lines open_line
lines-append [] ys = (refl, refl)
lines-append (b ∷ xs) ys = elim (List-cases (closed_lines xs)) [
  | inl e ↦ rw (e, open_line-all xs e) (ground (arith, e, open_line-all xs, lines-append xs ys))
  | inr (l, ls, e) ↦ ground (arith, e, lines-append xs ys)
]

module _ (max_bytes : ℕ) (decode : List ℕ → String) where
  -- Lines taken one after the other.
  unfoldable pub take_lines : List (List ℕ) → Pending → Option Pending
  take_lines [] p = some p
  take_lines (l ∷ ls) p = elim (end_line max_bytes decode l p) [
    | none ↦ none
    | some q ↦ take_lines ls q
  ]

  take_lines-none :
      (l : List ℕ) (ls : List (List ℕ)) (p : Pending)
      → end_line max_bytes decode l p ≡ none
      → take_lines (l ∷ ls) p ≡ none
  unfolding take_lines
  take_lines-none l ls p e = rw (e, take_lines) refl

  pub take_lines-some :
      (l : List ℕ) (ls : List (List ℕ)) (p q : Pending)
      → end_line max_bytes decode l p ≡ some q
      → take_lines (l ∷ ls) p ≡ take_lines ls q
  unfolding take_lines
  take_lines-some l ls p q e = rw (e, take_lines) refl

  pub take_lines-append :
      (ls ms : List (List ℕ)) (p : Pending)
      → take_lines (ls ++ ms) p ≡ elim (take_lines ls p) [ none ↦ none | some q ↦ take_lines ms q ]
  unfolding take_lines
  take_lines-append [] ms p = refl
  take_lines-append (l ∷ ls) ms p = elim (Option-cases (end_line max_bytes decode l p)) [
    | inl e ↦ rw (take_lines-none l (ls ++ ms) p e, take_lines-none l ls p e) refl
    | inr (q, e) ↦
        rw (take_lines-some l (ls ++ ms) p q e, take_lines-some l ls p q e)
          (take_lines-append ls ms q)
  ]

  -- The reader has taken the lines and keeps the open one, or one of them is too long.
  abbrev pub Drained : Pending → List ℕ → Reader → Type 0
  Drained p buffer r =
      ((q : Pending) × (take_lines (closed_lines buffer) p ≡ some q)
        × (r ≡ reading q (open_line buffer)))
      ⊎ ((sent : List String) × (take_lines (closed_lines buffer) p ≡ none) × (r ≡ too_long sent))

  drain-cut :
      (fuel : ℕ) (p : Pending) (buffer : List ℕ) (cut : List ℕ × List ℕ)
      → partition buffer ≡ some cut
      → ((q : Pending) → Drained q cut.1 (drain max_bytes decode fuel q cut.1))
      → Drained p buffer (drain max_bytes decode (suc fuel) p buffer)
  unfolding drain
  drain-cut fuel p buffer cut e ih =
      let lines : closed_lines buffer ≡ cut.0 ∷ closed_lines cut.1 =
        (partition-some buffer cut e).0 in
      let kept : open_line buffer ≡ open_line cut.1 = (partition-some buffer cut e).1 in
      elim (Option-cases (end_line max_bytes decode cut.0 p)) [
        | inl f ↦ inr (
          p.sent,
          ap (λ ls. take_lines ls p) lines ∙ take_lines-none cut.0 _ p f,
          rw (e, f, drain) refl,
        )
        | inr (q, f) ↦
            let go : drain max_bytes decode (suc fuel) p buffer
                ≡ drain max_bytes decode fuel q cut.1 =
              rw (e, f, drain) refl in
            let took : take_lines (closed_lines buffer) p ≡ take_lines (closed_lines cut.1) q =
              ap (λ ls. take_lines ls p) lines ∙ take_lines-some cut.0 _ p q f in
            rw (go, took, kept) (ih q)
      ]

  pub drain-Drained :
      (fuel : ℕ) (p : Pending) (buffer : List ℕ)
      → length buffer ≤ fuel
      → Drained p buffer (drain max_bytes decode fuel p buffer)
  unfolding drain take_lines closed_lines open_line
  drain-Drained zero p [] k = inl (p, refl, refl)
  drain-Drained zero p (b ∷ buffer) k = ground (arith, k)
  drain-Drained (suc fuel) p buffer k = elim (Option-cases (partition buffer)) [
    | inl e ↦
        let none_left : (closed_lines buffer ≡ []) × (open_line buffer ≡ buffer) =
          partition-none buffer e in
        inl (p, ap (λ ls. take_lines ls p) none_left.0, rw (e, drain, none_left.1) refl)
    | inr (cut, e) ↦
        drain-cut fuel p buffer cut e
          (λ q. drain-Drained fuel q cut.1 (ground (arith, k, partition-some buffer cut e)))
  ]
