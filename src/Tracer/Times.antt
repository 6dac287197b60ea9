-- ===== src/Tracer/Times.antt =====
-- The waits that summary of cmd/tracer/main.go collects, job by job.
use job_scheduler_tooling.Prelude.{
  ◌≡◌, refl, sym, ◌∙◌, String, Bool, false, not, ◌&&◌, ◌||◌, List, [], ◌∷◌, Option, none, some,
  arith, str_eq, eq_iff, if◌then◌else◌, All, Bool-cases, inl, inr, subst,
}
use job_scheduler_tooling.Prelude.Int.{ℤ}
use job_scheduler_tooling.Prelude.Dict.{
  Dict, lookup, insert, IsUnique, lookup-insert, insert-IsUnique,
}
use job_scheduler_tooling.Queue.{Time, is_zero, time_sub}
use job_scheduler_tooling.Tracer.{Event, JobTimes, note_times, times_of, job_times, waits_of}
use job_scheduler_tooling.Tracer.Ids.{
  count, ListsOnce, one_if_some, keys, count-keys_insert, looked_up-All,
}

-- Some event of the log is about this job.
unfoldable pub occurs : List Event → String → Bool
occurs [] id = false
occurs (e ∷ events) id = str_eq e.job_id id || occurs events id

-- The time of the last event of this type about the job; the zero time where there is none.
unfoldable pub last_time : String → List Event → String → Option Time
last_time type [] id = none
last_time type (e ∷ events) id = elim (last_time type events id) [
  | some t ↦ some t
  | none ↦ if str_eq e.job_id id && str_eq e.event_type type then some e.timestamp else none
]

abbrev pub time_or : Time → Option Time → Time
time_or before none = before
time_or before (some t) = t

abbrev pub time_of : String → List Event → String → Time
time_of type events id = time_or 0 (last_time type events id)

-- The wait of a job that was submitted and started.
unfoldable pub wait_of : List Event → String → Option ℤ
wait_of events id =
    let submitted = time_of "submitted" events id in
    let started = time_of "started" events id in
    if not (is_zero submitted) && not (is_zero started)
    then some (time_sub started submitted)
    else none

abbrev pub add_wait : Option ℤ → List ℤ → List ℤ
add_wait none waits = waits
add_wait (some w) waits = w ∷ waits

-- The waits of these jobs.
unfoldable pub waits_by : List Event → List String → List ℤ
waits_by events [] = []
waits_by events (id ∷ ids) = add_wait (wait_of events id) (waits_by events ids)

-- The map after one event.
abbrev noted : Dict JobTimes → Event → Dict JobTimes
noted jobs e = insert e.job_id (note_times (times_of (lookup e.job_id jobs)) e) jobs

job_times-IsUnique :
    (jobs : Dict JobTimes) (events : List Event) → IsUnique jobs → IsUnique (job_times jobs events)
unfolding job_times
job_times-IsUnique jobs [] u = u
job_times-IsUnique jobs (e ∷ events) u =
    job_times-IsUnique (noted jobs e) events (insert-IsUnique e.job_id _ jobs u)

-- The event is about the job and of the type.
abbrev is_about : String → String → Event → Bool
is_about id type e = str_eq e.job_id id && str_eq e.event_type type

-- `note_times` where the job is the event's, and any other job.
noted-submitted :
    (id : String) (jobs : Dict JobTimes) (e : Event)
    → (times_of (lookup id (noted jobs e))).submitted
      ≡ (if is_about id "submitted" e then e.timestamp else (times_of (lookup id jobs)).submitted)
unfolding note_times
noted-submitted id jobs e = elim (Bool-cases (str_eq e.job_id id)) [
  | inl same ↦
      rw (lookup-insert e.job_id id (note_times (times_of (lookup e.job_id jobs)) e) jobs, same)
        (rw ((eq_iff e.job_id id).0 same) (ground arith))
  | inr other ↦
      rw (lookup-insert e.job_id id (note_times (times_of (lookup e.job_id jobs)) e) jobs, other)
        refl
]

noted-started :
    (id : String) (jobs : Dict JobTimes) (e : Event)
    → (times_of (lookup id (noted jobs e))).started
      ≡ (if is_about id "started" e then e.timestamp else (times_of (lookup id jobs)).started)
unfolding note_times
noted-started id jobs e = elim (Bool-cases (str_eq e.job_id id)) [
  | inl same ↦
      rw (lookup-insert e.job_id id (note_times (times_of (lookup e.job_id jobs)) e) jobs, same)
        (rw ((eq_iff e.job_id id).0 same) (elim (Bool-cases (str_eq e.event_type "submitted")) [
          | inl s ↦ rw ((eq_iff e.event_type "submitted").0 s) refl
          | inr n ↦ rw n (ground arith)
        ]))
  | inr other ↦
      rw (lookup-insert e.job_id id (note_times (times_of (lookup e.job_id jobs)) e) jobs, other)
        refl
]

-- What the map has of a job after more events.
job_times-submitted :
    (id : String) (jobs : Dict JobTimes) (events : List Event)
    → (times_of (lookup id (job_times jobs events))).submitted
      ≡ time_or (times_of (lookup id jobs)).submitted (last_time "submitted" events id)
unfolding job_times last_time
job_times-submitted id jobs [] = refl
job_times-submitted id jobs (e ∷ events) =
    job_times-submitted id (noted jobs e) events ∙ (rw (noted-submitted id jobs e) (ground arith))

job_times-started :
    (id : String) (jobs : Dict JobTimes) (events : List Event)
    → (times_of (lookup id (job_times jobs events))).started
      ≡ time_or (times_of (lookup id jobs)).started (last_time "started" events id)
unfolding job_times last_time
job_times-started id jobs [] = refl
job_times-started id jobs (e ∷ events) =
    job_times-started id (noted jobs e) events ∙ (rw (noted-started id jobs e) (ground arith))

noted-some :
    (id : String) (jobs : Dict JobTimes) (e : Event)
    → one_if_some (lookup id (noted jobs e))
      ≡ (if str_eq e.job_id id then 1 else one_if_some (lookup id jobs))
noted-some id jobs e =
    ground (arith, lookup-insert e.job_id id (note_times (times_of (lookup e.job_id jobs)) e) jobs)

noted-count :
    (id : String) (jobs : Dict JobTimes) (e : Event)
    → count id (keys jobs) ≡ one_if_some (lookup id jobs)
    → count id (keys (noted jobs e)) ≡ one_if_some (lookup id (noted jobs e))
noted-count id jobs e h =
    let all = count-keys_insert id e.job_id (note_times (times_of (lookup e.job_id jobs)) e) jobs in
    elim (Bool-cases (str_eq e.job_id id)) [
      | inl same ↦
          let held : count id (keys jobs) ≡ one_if_some (lookup e.job_id jobs) =
            subst (λ j. count id (keys jobs) ≡ one_if_some (lookup j jobs))
              (sym ((eq_iff e.job_id id).0 same)) h in
          rw (noted-some id jobs e, same) (omega (arith, rw same at all, held))
      | inr other ↦ ground (arith, all, noted-some id jobs e, other, h)
    ]

job_times-count :
    (id : String) (jobs : Dict JobTimes) (events : List Event)
    → count id (keys jobs) ≡ one_if_some (lookup id jobs)
    → count id (keys (job_times jobs events))
      ≡ (if occurs events id then 1 else one_if_some (lookup id jobs))
unfolding job_times occurs
job_times-count id jobs [] h = h
job_times-count id jobs (e ∷ events) h =
    job_times-count id (noted jobs e) events (noted-count id jobs e h)
    ∙ (rw (noted-some id jobs e) (ground arith))

-- The map has each job of the log once.
pub job_times-ListsOnce :
    (events : List Event) → ListsOnce (occurs events) (keys (job_times [] events))
unfolding lookup
job_times-ListsOnce events id = job_times-count id [] events refl

-- The waits of a map whose entries have the times of the log.
waits_of-by :
    (events : List Event) (jobs : Dict JobTimes)
    → All
        (λ (x : String × JobTimes).
          (x.1.submitted ≡ time_of "submitted" events x.0)
          × (x.1.started ≡ time_of "started" events x.0))
        jobs
    → waits_of jobs ≡ waits_by events (keys jobs)
unfolding waits_of waits_by wait_of
waits_of-by events [] h = refl
waits_of-by events ((id, t) ∷ jobs) ((s, b), more) =
    rw (s, b, waits_of-by events jobs more) (ground arith)

-- The waits that summary collects are those of the jobs in its map.
pub waits_of-job_times :
    (events : List Event)
    → waits_of (job_times [] events) ≡ waits_by events (keys (job_times [] events))
unfolding IsUnique lookup
waits_of-job_times events = waits_of-by events (job_times [] events) (
    looked_up-All _ (job_times [] events) (job_times-IsUnique [] events tt) (λ id t found. (
      rw found at (job_times-submitted id [] events),
      rw found at (job_times-started id [] events),
    )))
