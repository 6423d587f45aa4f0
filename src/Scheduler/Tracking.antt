-- ===== src/Scheduler/Tracking.antt =====
-- The status of a job of src/scheduler.py tells its own runs, whatever other jobs do meanwhile.
use free_lunch.Dict.{insert, lookup-insert}
use free_lunch.Health.Marks.{clip}
use free_lunch.Scheduler.{
  JobEntry, JobStatus, entry_of, mark_job_start, mark_job_success, mark_job_failure, JobEvent,
  starts, returns, raises, track, track_all,
}
use free_lunch.Prelude.{
  ℕ, ◌+◌, ◌≡◌, ◌∙◌, refl, ap, String, Bool, true, false, Option, none, some, List, [], ◌∷◌, arith,
  str_eq, eq_iff, if◌then◌else◌, Bool-cases, inl, inr,
}

-- The job that an event is of.
abbrev pub job_of : JobEvent → String
job_of (starts name now) = name
job_of (returns name now) = name
job_of (raises name error) = name

-- The runs that ended among some events.
abbrev is_end : JobEvent → Bool
is_end (starts name now) = false
is_end (returns name now) = true
is_end (raises name error) = true

abbrev pub ends_of : String → List JobEvent → ℕ
ends_of k [] = 0
ends_of k (e ∷ es) = (if str_eq (job_of e) k then if is_end e then 1 else 0 else 0) + ends_of k es

-- What the last start, the last return and the last end of a job leave, or else a value from before.
abbrev started_by : JobEvent → Option ℕ → Option ℕ
started_by (starts name now) old = some now
started_by (returns name now) old = old
started_by (raises name error) old = old

abbrev returned_by : JobEvent → Option ℕ → Option ℕ
returned_by (starts name now) old = old
returned_by (returns name now) old = some now
returned_by (raises name error) old = old

abbrev error_by : JobEvent → Option String → Option String
error_by (starts name now) old = old
error_by (returns name now) old = none
error_by (raises name error) old = some (clip 500 error)

abbrev pub last_of : {A : Type 0} → (JobEvent → A → A) → String → List JobEvent → A → A
last_of f k [] old = old
last_of f k (e ∷ es) old = last_of f k es (if str_eq (job_of e) k then f e old else old)

-- The entry of a job after some events.
abbrev pub entry_after : String → List JobEvent → JobEntry → JobEntry
entry_after k es old = record {
  run_count = old.run_count + ends_of k es;
  last_started_at = last_of started_by k es old.last_started_at;
  last_success_at = last_of returned_by k es old.last_success_at;
  last_error = last_of error_by k es old.last_error;
}

entry_of-insert :
    (k name : String) (v : JobEntry) (jobs : JobStatus)
    → entry_of k (insert name v jobs) ≡ (if str_eq name k then v else entry_of k jobs)
entry_of-insert k name v jobs = ground (arith, lookup-insert name k v jobs)

-- An entry that is written under a name is read under that name, and leaves the others.
written :
    (k name : String) (f : JobEntry → JobEntry) (jobs : JobStatus)
    → entry_of k (insert name (f (entry_of name jobs)) jobs)
      ≡ (if str_eq name k then f (entry_of k jobs) else entry_of k jobs)
written k name f jobs = elim (Bool-cases (str_eq name k)) [
  | inl e ↦
      let same : name ≡ k = ground (arith, e, eq_iff name k) in
      entry_of-insert k name (f (entry_of name jobs)) jobs
      ∙ rw (e) (ap (λ i. f (entry_of i jobs)) same)
  | inr e ↦ entry_of-insert k name (f (entry_of name jobs)) jobs ∙ rw (e) refl
]

track-entry_of :
    (k : String) (e : JobEvent) (jobs : JobStatus)
    → entry_of k (track e jobs) ≡ entry_after k (e ∷ []) (entry_of k jobs)
unfolding track mark_job_start mark_job_success mark_job_failure
track-entry_of k (starts name now) jobs =
    written k name (λ j. record j { last_started_at = some now }) jobs ∙ ground arith
track-entry_of k (returns name now) jobs =
    written k name
      (λ j. record j { last_success_at = some now; last_error = none; run_count = j.run_count + 1 })
      jobs
    ∙ ground arith
track-entry_of k (raises name error) jobs =
    written k name
      (λ j. record j { last_error = some (clip 500 error); run_count = j.run_count + 1 }) jobs
    ∙ ground arith

-- After any starts and ends of jobs, in any order, a job's entry counts its own ends, holds the times of
-- its last start and of its last success, and the clipped error of its last end, or none if that was a
-- success; where there was no such event, it holds what it held before. Other jobs have no effect on it.
pub track_all-entry_of :
    (k : String) (es : List JobEvent) (jobs : JobStatus)
    → entry_of k (track_all es jobs) ≡ entry_after k es (entry_of k jobs)
unfolding track_all
track_all-entry_of k [] jobs = ground arith
track_all-entry_of k (e ∷ es) jobs =
    track_all-entry_of k es (track e jobs)
    ∙ ap (entry_after k es) (track-entry_of k e jobs)
    ∙ ground arith
