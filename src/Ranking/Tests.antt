-- ===== src/Ranking/Tests.antt =====
-- A ranking of two rows of src/ranking.py, of which one is active, in thousandths.
use free_lunch.Prelude.{String, ◌≡◌, refl, false, [], ◌∷◌, map, select, if◌then◌else◌}
use free_lunch.Prelude.Int.{ℤ, pos}
use free_lunch.Floats.{thousandths}
use free_lunch.Dict.{Dict}
use free_lunch.Database.Models.{Table, new_row}
use free_lunch.Database.Writes.{scored_row, flush}
use free_lunch.Settings.{defaults}
use free_lunch.Ranking.Telemetry.{TelemetrySnapshot, telemetry}
use free_lunch.Ranking.{
  normalize, usage_score, availability_score, ranges, factor_values, final_score, row_score,
  recompute_ranking,
}
use free_lunch.Ranking.Written.{flush-recompute_ranking}

abbrev weights : Dict ℤ
weights = ("availability", pos 500) ∷ ("feature_support", pos 500) ∷ []

abbrev table : Table ℤ
table =
    new_row (pos 0) "p/a" "p" "a"
    ∷ record (new_row (pos 0) "p/b" "p" "b") { is_active = false }
    ∷ []

abbrev quiet : String → TelemetrySnapshot ℤ
quiet k = telemetry [] 0 k

-- Half of full availability, and half of one feature of four.
one_score :
    row_score (λ x. x) defaults weights 9 quiet (ranges quiet table) (new_row (pos 0) "p/a" "p" "a")
    ≡ pos 62500
unfolding row_score ranges factor_values final_score telemetry normalize usage_score
    availability_score
one_score = refl

flush-recompute_ranking_example :
    flush (recompute_ranking (λ x. x) defaults weights 9 quiet table).0 table
    ≡ map
        (λ m.
          if m.is_active
          then scored_row
              (row_score
                (λ x. x)
                defaults
                weights
                9
                quiet
                (ranges quiet (select (λ n. n.is_active) table))
                m)
              9
              m
          else m)
        table
flush-recompute_ranking_example =
    flush-recompute_ranking (λ x. x) defaults weights 9 quiet table (refl, (refl, tt))
