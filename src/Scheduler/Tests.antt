-- ===== src/Scheduler/Tests.antt =====
-- Runs of src/scheduler.py: jobs that overlap, and a pipeline over one provider.
use free_lunch.Prelude.{ℕ, ◌≡◌, refl, String, true, Option, none, some, List, [], ◌∷◌}
use free_lunch.Prelude.Int.{ℤ, pos}
use free_lunch.Floats.{thousandths}
use free_lunch.Database.Models.{Table, new_row}
use free_lunch.Settings.{defaults}
use free_lunch.Ranking.Telemetry.{telemetry}
use free_lunch.Health.Batch.{start_batch}
use free_lunch.Scheduler.{
  JobStatus, JobEvent, starts, returns, raises, register_jobs, track_all, entry_of,
}
use free_lunch.Scheduler.Tracking.{entry_after, track_all-entry_of}
use free_lunch.Scheduler.Pipeline.{Surroundings, rank_and_probe, run_discovery_pipeline}
use free_lunch.Scheduler.Pipeline.Current.{IsCurrent, run_discovery_pipeline-IsCurrent}
use free_lunch.Database.Writes.{flush}
use free_lunch.Discovery.{Found, run_discovery}

abbrev jobs : JobStatus
jobs = register_jobs []

-- The ranking runs while a discovery does, and the discovery fails.
abbrev overlap : List JobEvent
overlap =
    starts "discovery" 5 ∷ starts "ranking" 6 ∷ raises "discovery" "down" ∷ returns "ranking" 8 ∷ []

track_all-entry_of_example :
    entry_of "ranking" (track_all overlap jobs)
    ≡ entry_after "ranking" overlap (entry_of "ranking" jobs)
track_all-entry_of_example = track_all-entry_of "ranking" overlap jobs

abbrev around : Surroundings ℤ
around = record {
  settings = defaults;
  now = 9;
  later = 9;
  round4 = λ x. x;
  weights = [];
  by_model = λ k. telemetry [] 0 k;
  read = record { int_of_float = λ x. none; int_of_text = λ s. none; lower = λ s. s };
  cached = λ k. none;
  batch = λ cs. start_batch [];
  strip = λ s. s;
  runtime = ("p", true) ∷ [];
  configured = "p" ∷ [];
}

abbrev table : Table ℤ
table = new_row (pos 0) "p/a" "p" "a" ∷ []

abbrev answers : List (String × Option (List (Found ℤ)))
answers = ("p", some []) ∷ []

run_discovery_pipeline-IsCurrent_example :
    IsCurrent
      (λ (n : ℕ) family hint. n)
      around
      (rank_and_probe around 0 (flush (run_discovery around.read 9 around.cached answers).0 table))
unfolding run_discovery_pipeline run_discovery
run_discovery_pipeline-IsCurrent_example =
    run_discovery_pipeline-IsCurrent (λ (n : ℕ) family hint. n) around answers table
      (rank_and_probe around 0 (flush (run_discovery around.read 9 around.cached answers).0 table))
      (refl, tt) refl
