-- ===== src/Health/Probes.antt =====
-- `_select_bootstrap_candidates` and `_select_probe_candidates` of src/health.py: which models are
-- probed. `ORDER BY … LIMIT n` is a stable sort and its first n rows; the code breaks no ties.
pub mod Choice
mod Tests
use free_lunch.Prelude.{
  ℕ, suc, ◌+◌, ◌-◌, ◌*◌, String, Bool, true, false, not, ◌&&◌, ◌||◌, Option, none, some, List, [],
  ◌∷◌, ◌++◌, str_eq, ltb, leb, if◌then◌else◌, length, take, select, any, map, or_else, is_some,
}
use free_lunch.Prelude.Int.{ℤ, pos, leb_ℤ, max_ℤ}
use free_lunch.Prelude.Sort.{sort_desc}
use free_lunch.Floats.{Floats}
use free_lunch.Settings.{Settings}
use free_lunch.Database.Models.{Model, Table, find_model}

-- A candidate of a probe; a bootstrap candidate has no reason.
pub record ProbeCandidate : Type 0 where
  pub id : String
  pub provider_id : String
  pub provider_model_id : String
  pub probe_reason : String

abbrev pub is_same : String → ProbeCandidate → Bool
is_same k c = str_eq c.id k

-- The loop over the rows: an id is taken once, and the limit is looked at when one was taken.
unfoldable pub take_unseen : ℤ → List ProbeCandidate → List ProbeCandidate → List ProbeCandidate
take_unseen limit out [] = out
take_unseen limit out (r ∷ rs) = elim (any (is_same r.id) out) [
  | true ↦ take_unseen limit out rs
  | false ↦ elim (leb_ℤ limit (pos (length (out ++ r ∷ [])))) [
    | true ↦ out ++ r ∷ []
    | false ↦ take_unseen limit (out ++ r ∷ []) rs
  ]
]

-- `column IS NULL OR column < instant`
abbrev pub is_before : ℕ → Option ℕ → Bool
is_before at none = true
is_before at (some t) = ltb t at

module _ {F : Type 0} where
  abbrev pub probe_of : String → Model F → ProbeCandidate
  probe_of reason m = record {
    id = m.id;
    provider_id = m.provider_id;
    provider_model_id = m.provider_model_id;
    probe_reason = reason;
  }

  abbrev pub is_active : Model F → Bool
  is_active m = m.is_active

  -- The `WHERE` clauses of the three queries.
  abbrev pub is_cooled_down : ℕ → Model F → Bool
  is_cooled_down now m = m.is_active && elim m.cooldown_until [ none ↦ false | some t ↦ ltb t now ]

  abbrev pub is_never_probed : Model F → Bool
  is_never_probed m = m.is_active && not (is_some m.last_probe_at)

  abbrev pub is_stale : ℕ → Model F → Bool
  is_stale before m =
      m.is_active && (is_before before m.last_success_at && is_before before m.last_probe_at)

  -- The row of the fallback model, if it is active.
  abbrev pub active_fallback : String → Table F → List (Model F)
  active_fallback k table =
      if str_eq k ""
      then []
      else elim (find_model k table) [ none ↦ [] | some m ↦ if m.is_active then m ∷ [] else [] ]

module _ {F : Type 0} ⦃fl : Floats F⦄ where
  abbrev pub by_score : Model F → Model F → Bool
  by_score a b = fl.lt a.composite_score b.composite_score

  -- The later cooldown is listed later, and of equal ones the lower score.
  abbrev pub by_cooldown : Model F → Model F → Bool
  by_cooldown a b =
      let s = or_else a.cooldown_until 0 in
      let t = or_else b.cooldown_until 0 in
      if ltb t s then true else if ltb s t then false else by_score a b

  unfoldable pub select_bootstrap_candidates : Table F → String → ℤ → List ProbeCandidate
  unfolding take_unseen
  select_bootstrap_candidates table fallback limit = take_unseen limit [] (
      map (probe_of "") (active_fallback fallback table)
      ++ map (probe_of "") (take (max_ℤ limit 0) (sort_desc by_score (select is_active table))))

  -- The three queries, one after the other, with their reasons. `stale_before` is the instant
  -- `health_stale_after_minutes` before now.
  unfoldable pub probe_rows : Table F → Settings → ℕ → List ProbeCandidate
  probe_rows table s now =
      let stale_before = now - s.health_stale_after_minutes * 60 in
      map (probe_of "cooldown_recovery") (
        take s.health_max_probes_per_run
          (sort_desc by_cooldown (select (is_cooled_down now) table)))
      ++ map (probe_of "never_probed")
          (take s.health_max_probes_per_run (sort_desc by_score (select is_never_probed table)))
      ++ map (probe_of "stale") (
          take s.health_top_n_stale_probe
            (sort_desc by_score (select (is_stale stale_before) table)))

  unfoldable pub select_probe_candidates : Table F → Settings → ℕ → List ProbeCandidate
  unfolding take_unseen probe_rows
  select_probe_candidates table s now =
      take_unseen (pos s.health_max_probes_per_run) [] (probe_rows table s now)
