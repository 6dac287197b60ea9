-- ===== src/Tracer.antt =====
-- cmd/tracer/main.go: what the tracer makes of an event log. Printing is I/O: the functions return
-- what is printed. sort.Slice may put events of equal times in any order; here they keep theirs, as
-- under sort.SliceStable. A JSON decoder turns each line into an event or refuses it.
pub mod Ids
pub mod Status
pub mod Fields
pub mod Order
pub mod Times
pub mod Rows
pub mod Waits
pub mod Agreement
pub mod Entries
use job_scheduler_tooling.Prelude.{
  ℕ, ◌+◌, ◌-◌, ◌/◌, String, Bool, not, ◌&&◌, List, [], ◌∷◌, ◌++◌, Option, none, some, ltb, ◌==◌,
  str_eq, if◌then◌else◌, length, get_elem?,
}
use job_scheduler_tooling.Prelude.Int.{ℤ, pos, negsuc, add64, leb_ℤ, ltb_ℤ, eqb_ℤ}
use job_scheduler_tooling.Prelude.Dict.{Dict, lookup, insert}
use job_scheduler_tooling.Prelude.Partial.{◌>>=◌}
use job_scheduler_tooling.Prelude.Sort.{sort}
use job_scheduler_tooling.Text.{after_prefix, less_text}
use job_scheduler_tooling.Queue.{Time, is_zero, time_sub}
use job_scheduler_tooling.Telemetry

-- The fields that the tracer decodes, `Detail` left out.
pub record Event : Type 0 where
  pub timestamp : Time
  pub job_id : String
  pub event_type : String
  pub node_name : String
  pub priority : ℤ
  pub attempt : ℤ
  pub version : ℤ

-- An event as the JSON of the recorder carries it over.
abbrev pub read_event : Telemetry.Event → Event
read_event e = record {
  timestamp = e.timestamp;
  job_id = e.job_id;
  event_type = e.event_type;
  node_name = e.node_name;
  priority = e.priority;
  attempt = e.attempt;
  version = e.version;
}

-- The loop of loadEvents over the lines as json.Unmarshal takes them: a malformed one is skipped.
unfoldable pub load_events : List (Option Event) → List Event
load_events [] = []
load_events (none ∷ lines) = load_events lines
load_events (some e ∷ lines) = e ∷ load_events lines

abbrev pub earlier : Event → Event → Bool
earlier a b = ltb a.timestamp b.timestamp

unfoldable pub timeline_of : String → List Event → List Event
timeline_of job_id [] = []
timeline_of job_id (e ∷ events) =
    let rest = timeline_of job_id events in if str_eq e.job_id job_id then e ∷ rest else rest

-- The variables of the loop in traceJob.
pub record Trace : Type 0 where
  pub submitted : Time
  pub started : Time
  pub wait_reasons : ℕ

unfoldable pub trace_event : Trace → Event → Trace
trace_event t e =
    if str_eq e.event_type "submitted"
    then record t { submitted = e.timestamp }
    else if str_eq e.event_type "started"
    then record t { started = e.timestamp }
    else if str_eq e.event_type "wait_reason"
    then record t { wait_reasons = t.wait_reasons + 1 }
    else t

unfoldable pub trace_events : Trace → List Event → Trace
trace_events t [] = t
trace_events t (e ∷ events) = trace_events (trace_event t e) events

-- The last line that traceJob prints.
pub data Verdict : Type 0 where
  waited : (submitted started : Time) (wait : ℤ) (wait_reasons : ℕ) → Verdict
  never_started : (submitted : Time) → Verdict
  no_verdict : Verdict

unfoldable pub verdict : Trace → Verdict
verdict t =
    if not (is_zero t.submitted) && not (is_zero t.started)
    then waited t.submitted t.started (time_sub t.started t.submitted) t.wait_reasons
    else if not (is_zero t.submitted)
    then never_started t.submitted
    else no_verdict

-- traceJob: `none` where it finds no event.
unfoldable pub trace_job : List Event → String → Option (List Event × Verdict)
trace_job events job_id =
    let timeline = sort earlier (timeline_of job_id events) in
    if length (timeline_of job_id events) == 0
    then none
    else some (
      timeline,
      verdict (trace_events (record { submitted = 0; started = 0; wait_reasons = 0 }) timeline),
    )

-- `jobTimes` of summary.
pub record JobTimes : Type 0 where
  pub submitted : Time
  pub started : Time

unfoldable pub note_times : JobTimes → Event → JobTimes
note_times t e =
    if str_eq e.event_type "submitted"
    then record t { submitted = e.timestamp }
    else if str_eq e.event_type "started"
    then record t { started = e.timestamp }
    else t

abbrev pub times_of : Option JobTimes → JobTimes
times_of none = record { submitted = 0; started = 0 }
times_of (some t) = t

unfoldable pub job_times : Dict JobTimes → List Event → Dict JobTimes
job_times jobs [] = jobs
job_times jobs (e ∷ events) =
    job_times (insert e.job_id (note_times (times_of (lookup e.job_id jobs)) e) jobs) events

unfoldable pub waits_of : Dict JobTimes → List ℤ
waits_of [] = []
waits_of ((id, t) ∷ jobs) =
    let rest = waits_of jobs in
    if not (is_zero t.submitted) && not (is_zero t.started)
    then time_sub t.started t.submitted ∷ rest
    else rest

unfoldable pub total_wait : ℤ → List ℤ → ℤ
total_wait total [] = total
total_wait total (w ∷ waits) = total_wait (add64 total w) waits

-- Go's division of a duration by a positive count: towards zero.
unfoldable pub div_duration : ℤ → ℕ → ℤ
div_duration (pos t) n = pos (t / n)
div_duration (negsuc t) n = let q = (t + 1) / n in if q == 0 then pos 0 else negsuc (q - 1)

pub record Summary : Type 0 where
  pub count : ℕ
  pub min : ℤ
  pub median : ℤ
  pub max : ℤ
  pub mean : ℤ

-- The statistics of sorted waits; `none` is an index out of range.
unfoldable pub summarize : List ℤ → Option Summary
summarize waits = do
  min ← get_elem? waits 0
  median ← get_elem? waits (length waits / 2)
  max ← get_elem? waits (length waits - 1)
  some (record {
    count = length waits;
    min = min;
    median = median;
    max = max;
    mean = div_duration (total_wait (pos 0) waits) (length waits);
  })

-- summary: `some none` where there is nothing to summarize.
unfoldable pub summary : List Event → Option (Option Summary)
summary events =
    let waits = waits_of (job_times [] events) in
    if length waits == 0 then some none else summarize (sort ltb_ℤ waits) >>= λ s. some (some s)

pub record DeviceRow : Type 0 where
  pub id : String
  pub desired : ℤ
  pub acked : ℤ
  pub attempts : ℤ
  pub failed_at : ℤ
  pub timeouts : ℕ
  pub dup_ignored : ℕ
  pub stale_acks : ℕ

unfoldable pub new_row : String → DeviceRow
new_row id = record {
  id = id;
  desired = pos 0;
  acked = pos 0;
  attempts = pos 0;
  failed_at = pos 0;
  timeouts = 0;
  dup_ignored = 0;
  stale_acks = 0;
}

-- deviceRow.state.
unfoldable pub row_state : DeviceRow → String
row_state r =
    if eqb_ℤ r.desired (pos 0)
    then "idle"
    else if leb_ℤ r.desired r.acked
    then "acked"
    else if eqb_ℤ r.failed_at r.desired
    then "failed"
    else "pending"

-- The `switch` of deviceStatus.
unfoldable pub update_row : DeviceRow → Event → DeviceRow
update_row r e =
    if str_eq e.event_type "config_set"
    then record r { desired = e.version; attempts = pos 0 }
    else if str_eq e.event_type "push"
    then (if eqb_ℤ e.version r.desired then record r { attempts = e.attempt } else r)
    else if str_eq e.event_type "acked"
    then (if ltb_ℤ r.acked e.version then record r { acked = e.version } else r)
    else if str_eq e.event_type "push_failed"
    then record r { failed_at = e.version }
    else if str_eq e.event_type "ack_timeout"
    then record r { timeouts = r.timeouts + 1 }
    else if str_eq e.event_type "duplicate_ignored_by_device"
    then record r { dup_ignored = r.dup_ignored + 1 }
    else if str_eq e.event_type "stale_ack_ignored"
    then record r { stale_acks = r.stale_acks + 1 }
    else r

abbrev pub row_of : String → Option DeviceRow → DeviceRow
row_of id none = new_row id
row_of id (some r) = r

-- The loop of deviceStatus over the sorted events; `order` holds the keys of `rows`.
unfoldable pub fill_rows : Dict DeviceRow → List String → List Event → Dict DeviceRow × List String
fill_rows rows order [] = (rows, order)
fill_rows rows order (e ∷ events) = elim (after_prefix "device:" e.job_id) [
  | none ↦ fill_rows rows order events
  | some id ↦
      fill_rows (insert id (update_row (row_of id (lookup id rows)) e) rows)
        (elim (lookup id rows) [ none ↦ order ++ id ∷ [] | some _ ↦ order ]) events
]

-- The rows in the order of `order`; a missing key would be a nil row.
unfoldable pub collect_rows : Dict DeviceRow → List String → List (Option DeviceRow)
collect_rows rows [] = []
collect_rows rows (id ∷ order) = lookup id rows ∷ collect_rows rows order

-- deviceStatus.
unfoldable pub device_status : List Event → List (Option DeviceRow)
device_status events =
    let (rows, order) = fill_rows [] [] (sort earlier events) in
    collect_rows rows (sort less_text order)
