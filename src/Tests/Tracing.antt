-- ===== src/Tests/Tracing.antt =====
-- cmd/tracer/main.go on a short log.
use job_scheduler_tooling.Prelude.{◌≡◌, refl, ℕ, String, List, [], ◌∷◌}
use job_scheduler_tooling.Prelude.Int.{pos, negsuc}
use job_scheduler_tooling.Prelude.Partial.{Yields}
use job_scheduler_tooling.Queue.{Time}
use job_scheduler_tooling.Tracer.{Event, device_status, summary, div_duration}
use job_scheduler_tooling.Tracer.Status.{IsStatus, device_status-IsStatus}
use job_scheduler_tooling.Tracer.Waits.{SummarizesLog, summary-SummarizesLog}

abbrev event : Time → String → String → ℕ → Event
event timestamp job_id event_type version = record {
  timestamp = timestamp;
  job_id = job_id;
  event_type = event_type;
  node_name = "";
  priority = pos 0;
  attempt = pos 1;
  version = pos version;
}

-- Two devices, whose events are out of order, and two jobs.
abbrev events : List Event
events =
    event 4 "device:valve" "config_set" 1
    ∷ event 1 "device:pump" "config_set" 1
    ∷ event 3 "device:pump" "acked" 1
    ∷ event 2 "device:pump" "push" 1
    ∷ event 5 "job-000" "submitted" 0
    ∷ event 6 "job-001" "submitted" 0
    ∷ event 9 "job-000" "started" 0
    ∷ event 7 "job-001" "started" 0
    ∷ []

-- Go divides towards zero.
towards_zero : div_duration (negsuc 6) 2 ≡ negsuc 2
unfolding div_duration
towards_zero = refl

device_status-IsStatus_example : IsStatus events (device_status events)
device_status-IsStatus_example = device_status-IsStatus events

summary-SummarizesLog_example : Yields (SummarizesLog events) (summary events)
summary-SummarizesLog_example = summary-SummarizesLog events
