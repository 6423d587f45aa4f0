-- ===== src/Scheduler.antt =====
-- src/scheduler.py: the tracking of jobs. A job that runs is between its start and its end, and jobs may
-- overlap, so a run of the scheduler is a list of starts and ends in any order. The clock is in seconds.
pub mod Tracking
pub mod Pipeline
mod Tests
use free_lunch.Dict.{Dict, lookup, insert}
use free_lunch.Health.Marks.{clip}
use free_lunch.Prelude.{ℕ, ◌+◌, String, Option, none, some, List, [], ◌∷◌, or_else}

-- An entry of `job_status`; a key that is missing is `none`.
pub record JobEntry : Type 0 where
  pub run_count : ℕ
  pub last_started_at : Option ℕ
  pub last_success_at : Option ℕ
  pub last_error : Option String

-- `{"run_count": 0}`
abbrev pub new_entry : JobEntry
new_entry = record {
  run_count = 0;
  last_started_at = none;
  last_success_at = none;
  last_error = none;
}

abbrev pub JobStatus : Type 0
JobStatus = Dict JobEntry

-- The entry of a job, which `setdefault` makes.
abbrev pub entry_of : String → JobStatus → JobEntry
entry_of name jobs = or_else (lookup name jobs) new_entry

unfoldable pub mark_job_start : ℕ → String → JobStatus → JobStatus
mark_job_start now name jobs =
    insert name (record (entry_of name jobs) { last_started_at = some now }) jobs

-- The entry is the one in the dictionary, so that a mark is an update there.
unfoldable pub mark_job_success : ℕ → String → JobStatus → JobStatus
mark_job_success now name jobs =
    insert name
      (record (entry_of name jobs) {
        last_success_at = some now;
        last_error = none;
        run_count = (entry_of name jobs).run_count + 1;
      })
      jobs

unfoldable pub mark_job_failure : String → String → JobStatus → JobStatus
unfolding clip
mark_job_failure error name jobs =
    insert name
      (record (entry_of name jobs) {
        last_error = some (clip 500 error);
        run_count = (entry_of name jobs).run_count + 1;
      })
      jobs

-- What `_track_job` and `_track_job_async` do around a job: at its start, and when it returns or raises.
pub data JobEvent : Type 0 where
  starts : String → ℕ → JobEvent
  returns : String → ℕ → JobEvent
  raises : String → String → JobEvent

unfoldable pub track : JobEvent → JobStatus → JobStatus
unfolding mark_job_start mark_job_success mark_job_failure
track (starts name now) jobs = mark_job_start now name jobs
track (returns name now) jobs = mark_job_success now name jobs
track (raises name error) jobs = mark_job_failure error name jobs

unfoldable pub track_all : List JobEvent → JobStatus → JobStatus
unfolding track
track_all [] jobs = jobs
track_all (e ∷ es) jobs = track_all es (track e jobs)

-- `register_jobs` enters the jobs that are not there yet.
abbrev pub set_default : String → JobStatus → JobStatus
set_default name jobs = elim (lookup name jobs) [
  | none ↦ insert name new_entry jobs
  | some e ↦ jobs
]

abbrev pub register_all : List String → JobStatus → JobStatus
register_all [] jobs = jobs
register_all (k ∷ ks) jobs = register_all ks (set_default k jobs)

unfoldable pub register_jobs : JobStatus → JobStatus
register_jobs jobs =
    register_all ("discovery" ∷ "ranking" ∷ "health" ∷ "maintenance" ∷ "config_refresh" ∷ []) jobs
