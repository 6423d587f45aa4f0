-- ===== src/Health/Probes/Tests.antt =====
-- The choice of probes from a table of three models, one of which is cooling down.
use free_lunch.Prelude.{String, ◌≡◌, refl, some, List, [], ◌∷◌, map}
use free_lunch.Prelude.Int.{ℤ, pos, negsuc}
use free_lunch.Prelude.Sort.{sort_desc}
use free_lunch.Floats.{thousandths}
use free_lunch.Settings.{Settings, defaults}
use free_lunch.Database.Models.{Table, new_row}
use free_lunch.Health.Probes.{
  ProbeCandidate, probe_rows, select_probe_candidates, select_bootstrap_candidates,
}

abbrev table : Table ℤ
table =
    record (new_row (pos 0) "p/a" "p" "a") { last_probe_at = some 900; last_success_at = some 900 }
    ∷ record (new_row (pos 0) "p/b" "p" "b") { composite_score = pos 5 }
    ∷ record (new_row (pos 0) "p/c" "p" "c") { cooldown_until = some 950; last_probe_at = some 900 }
    ∷ []

-- With a limit of 0 the stale model is still probed, although no probe was asked for.
abbrev none_asked : Settings
none_asked = record defaults { health_max_probes_per_run = 0 }

ids : List ProbeCandidate → List String
ids cs = map (λ c. c.id) cs

probes_one_at_limit_0 : ids (select_probe_candidates table none_asked 1_000) ≡ "p/b" ∷ []
unfolding ids select_probe_candidates probe_rows sort_desc
probes_one_at_limit_0 = refl

probes_fallback_at_limit_0 : ids (select_bootstrap_candidates table "p/a" (negsuc 0)) ≡ "p/a" ∷ []
unfolding ids select_bootstrap_candidates sort_desc
probes_fallback_at_limit_0 = refl
