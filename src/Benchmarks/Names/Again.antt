-- ===== src/Benchmarks/Names/Again.antt =====
-- A normalized name of src/benchmarks.py is normal: its words come back, and none is dropped again.
use mathlib.Core.Path.{subst}
use Prim.Native.Char.{Char, char, code}
use Prim.Native.String
use text.Mathlib.TextLemmas.{nil-append, cons-append, append-nil}
use free_lunch.Prelude.Members.{select-All}
use free_lunch.Prelude.{
  String, ◌≡◌, refl, ap, sym, ◌∙◌, Bool, true, false, not, ◌&&◌, ◌||◌, ◌==◌, List, [], ◌∷◌, arith,
  str_eq, select, All, All-map, Bool-cases, inl, inr,
}
use free_lunch.Benchmarks.Names.{
  is_plain, put_run, split_runs, runs, is_noise, join, normalize_model_name,
}

-- A word: one character or more, all letters and digits.
unfoldable pub all_plain : String → Bool
all_plain String.[] = true
all_plain (String.◌∷◌ c s) = is_plain c && all_plain s

abbrev pub IsWord : String → Type 0
IsWord w = (all_plain w ≡ true) × (str_eq w "" ≡ false)

-- The run at the start is plain, and the others are words.
put_run-words :
    (w : String) (ws : List String) → all_plain w ≡ true → All IsWord ws → All IsWord (put_run w ws)
put_run-words w ws h k = elim (Bool-cases (str_eq w "")) [
  | inl e ↦ rw (e) k
  | inr e ↦ rw (e) ((h, e), k)
]

split_runs-plain :
    (c : Char) (s : String)
    → is_plain c ≡ true
    → split_runs (String.◌∷◌ c s) ≡ (String.◌∷◌ c (split_runs s).0, (split_runs s).1)
unfolding split_runs
split_runs-plain c s e = rw (e, split_runs) refl

split_runs-other :
    (c : Char) (s : String) → is_plain c ≡ false → split_runs (String.◌∷◌ c s) ≡ (String.[], runs s)
unfolding split_runs runs
split_runs-other c s e = rw (e, split_runs) refl

all_plain-cons :
    (c : Char) (s : String)
    → is_plain c ≡ true
    → all_plain s ≡ true
    → all_plain (String.◌∷◌ c s) ≡ true
unfolding all_plain
all_plain-cons c s e h = ap (λ b. b && all_plain s) e ∙ h

-- The two parts of a split: a plain text and words.
abbrev AreWords : String × List String → Type 0
AreWords p = (all_plain p.0 ≡ true) × All IsWord p.1

split_runs-words : (s : String) → AreWords (split_runs s)
unfolding split_runs all_plain runs
split_runs-words String.[] = (refl, tt)
split_runs-words (String.◌∷◌ c s) = elim (Bool-cases (is_plain c)) [
  | inl e ↦
      subst AreWords (sym (split_runs-plain c s e))
        (all_plain-cons c (split_runs s).0 e (split_runs-words s).0, (split_runs-words s).1)
  | inr e ↦ subst AreWords (sym (split_runs-other c s e)) (
    refl,
    put_run-words (split_runs s).0 (split_runs s).1 (split_runs-words s).0 (split_runs-words s).1,
  )
]

runs-words : (s : String) → All IsWord (runs s)
unfolding runs
runs-words s =
    put_run-words (split_runs s).0 (split_runs s).1 (split_runs-words s).0 (split_runs-words s).1

-- A word before a text goes to the text's first run.
split_runs-word :
    (w s : String)
    → all_plain w ≡ true
    → split_runs (String.◌++◌ w s) ≡ (String.◌++◌ w (split_runs s).0, (split_runs s).1)
unfolding split_runs all_plain
split_runs-word String.[] s h = rw (nil-append s, nil-append (split_runs s).0) refl
split_runs-word (String.◌∷◌ c w) s h = elim (Bool-cases (is_plain c)) [
  | inl e ↦
      let ih : split_runs (String.◌++◌ w s) ≡ (String.◌++◌ w (split_runs s).0, (split_runs s).1) =
        split_runs-word w s (ground (arith, h, e)) in
      rw (cons-append c w s, cons-append c w (split_runs s).0, split_runs, e, ih) refl
  | inr e ↦ ground (arith, h, e)
]

-- A space ends a run.
split_runs-space : (s : String) → split_runs (String.◌++◌ " " s) ≡ (String.[], runs s)
unfolding is_plain
split_runs-space s =
    let e : String.◌++◌ " " s ≡ String.◌∷◌ (char 32 tt) s =
      rw (cons-append (char 32 tt) "" s, nil-append s) refl in
    rw (e) (split_runs-other (char 32 tt) s refl)

put_run-word : (w : String) (ws : List String) → str_eq w "" ≡ false → put_run w ws ≡ w ∷ ws
put_run-word w ws h = rw (h) refl

runs-word :
    (w s : String) (ws : List String)
    → IsWord w
    → split_runs s ≡ (String.[], ws)
    → runs (String.◌++◌ w s) ≡ w ∷ ws
unfolding runs
runs-word w s ws h e = rw (split_runs-word w s h.0, e, append-nil w) (put_run-word w ws h.1)

-- The words of joined words are those words.
runs-join : (ws : List String) → All IsWord ws → runs (join ws) ≡ ws
unfolding join runs split_runs
runs-join [] h = refl
runs-join (w ∷ []) h =
    let e : runs (String.◌++◌ w "") ≡ w ∷ [] = runs-word w "" [] h.0 refl in
    subst (λ t. runs t ≡ w ∷ []) (append-nil w) e
runs-join (w ∷ u ∷ us) h =
    runs-word w (String.◌++◌ " " (join (u ∷ us))) (u ∷ us) h.0
      (split_runs-space (join (u ∷ us)) ∙ ap (λ r. (String.[], r)) (runs-join (u ∷ us) h.1))

abbrev kept : String → Bool
kept t = not (is_noise t)

select-kept : (p : String → Bool) (ws : List String) → All (λ t. p t ≡ true) ws → select p ws ≡ ws
select-kept p [] h = refl
select-kept p (w ∷ ws) h = rw (h.0, select-kept p ws h.1) refl

-- Letters, digits and spaces.
unfoldable pub is_lowered : String → Bool
is_lowered String.[] = true
is_lowered (String.◌∷◌ c s) = (is_plain c || (code c == 32)) && is_lowered s

is_lowered-plain :
    (w s : String) → all_plain w ≡ true → is_lowered s ≡ true → is_lowered (String.◌++◌ w s) ≡ true
unfolding is_lowered all_plain
is_lowered-plain String.[] s h k = rw (nil-append s) k
is_lowered-plain (String.◌∷◌ c w) s h k =
    rw (cons-append c w s, is_lowered) (ground (arith, h, k, is_lowered-plain w s))

is_lowered-space : (s : String) → is_lowered s ≡ true → is_lowered (String.◌++◌ " " s) ≡ true
unfolding is_lowered is_plain
is_lowered-space s k =
    let e : String.◌++◌ " " s ≡ String.◌∷◌ (char 32 tt) s =
      rw (cons-append (char 32 tt) "" s, nil-append s) refl in
    rw (e, is_lowered) k

is_lowered-join : (ws : List String) → All IsWord ws → is_lowered (join ws) ≡ true
unfolding join is_lowered
is_lowered-join [] h = refl
is_lowered-join (w ∷ []) h =
    subst (λ t. is_lowered t ≡ true) (append-nil w) (is_lowered-plain w "" h.0.0 refl)
is_lowered-join (w ∷ u ∷ us) h =
    is_lowered-plain w (String.◌++◌ " " (join (u ∷ us))) h.0.0
      (is_lowered-space (join (u ∷ us)) (is_lowered-join (u ∷ us) h.1))

-- A normalized name is normalized already, where `lower` leaves a text of lower-case letters, digits
-- and spaces as it is.
pub normalize-normalize :
    (lower : String → String) (name : String)
    → ((s : String) → is_lowered s ≡ true → lower s ≡ s)
    → normalize_model_name lower (normalize_model_name lower name) ≡ normalize_model_name lower name
unfolding normalize_model_name
normalize-normalize lower name h =
    let words : All (λ w. (kept w ≡ true) × IsWord w) (select kept (runs (lower name))) =
      select-All kept IsWord (runs (lower name)) (runs-words (lower name)) in
    let plain : All IsWord (select kept (runs (lower name))) = All-map _ _ _ (λ w k. k.1) words in
    let good : All (λ w. kept w ≡ true) (select kept (runs (lower name))) =
      All-map _ _ _ (λ w k. k.0) words in
    ap (λ t. join (select kept (runs t))) (h _ (is_lowered-join _ plain))
    ∙ (ap (λ ws. join (select kept ws)) (runs-join _ plain) ∙ ap join (select-kept kept _ good))
