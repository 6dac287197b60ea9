-- ===== src/Telemetry.antt =====
-- internal/telemetry/telemetry.go: events, and the log that a recorder writes. The JSON and SQL
-- sinks are taken to succeed; `Detail`, a text for people, is left out of the events.
use job_scheduler_tooling.Prelude.{String, List, [], ◌∷◌, ◌++◌, Option, none, some}
use job_scheduler_tooling.Prelude.Int.{ℤ}
use job_scheduler_tooling.Queue.{Time}

pub record Event : Type 0 where
  pub timestamp : Time
  pub job_id : String
  pub event_type : String
  pub node_name : String
  pub priority : ℤ
  pub model : String
  pub batch_size : ℤ
  pub attempt : ℤ
  pub triage_action : String
  pub version : ℤ

-- A recorder by what it has written, the oldest event first; `none` is the nil recorder.
abbrev pub Recorder : Type 0
Recorder = Option (List Event)

-- Recorder.Record behind the callers' test for nil.
unfoldable pub record_event : Recorder → Event → Recorder
record_event none e = none
record_event (some log) e = some (log ++ e ∷ [])
