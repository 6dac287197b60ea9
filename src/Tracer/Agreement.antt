-- ===== src/Tracer/Agreement.antt =====
-- The tracer's rows beside the registry's entries (cmd/tracer/main.go and
-- internal/devices/devices.go).
use job_scheduler_tooling.Prelude.{
  ℕ, ◌+◌, ◌≡◌, refl, String, List, [], ◌∷◌, ◌++◌, map, Option, none, some, arith, if◌then◌else◌,
  if_split,
}
use job_scheduler_tooling.Prelude.Int.{pos}
use job_scheduler_tooling.Telemetry
use job_scheduler_tooling.Devices.{
  Options, Change, Entry, is_failed, set_config, retry, loop_top, loop_sent, finish, new_entry,
  defaults,
}
use job_scheduler_tooling.Devices.Delivery.{
  Delivery, new_delivery, Step, configured, retried, closed, began, delivered, processed, woke,
  interrupted, finished, Reach, here, next, Inv,
}
use job_scheduler_tooling.Devices.Delivery.Runs.{Reach-Inv, new_delivery-Inv, defaults_positive}
use job_scheduler_tooling.Tracer.{Event, read_event, DeviceRow, new_row, row_state, device_status}
use job_scheduler_tooling.Tracer.Fields.{row_from}
use job_scheduler_tooling.Tracer.Order.{IsInTime}
use job_scheduler_tooling.Tracer.Rows.{of_device, device_row}
use job_scheduler_tooling.Tracer.Status.{row_for, row_for-device_status}
use job_scheduler_tooling.Tracer.Entries.{
  state_name, Agrees, row_after, set_config-Agrees, same-Agrees, loop_top-Agrees, row_after-append,
  loop_sent-Agrees,
}

-- The events that a step records, and whether it is a Retry of a failed device.
unfoldable pub events_of : {o : Options} {s s' : Delivery} → Step o s s' → List Telemetry.Event
events_of {s = s} (configured now cfg _) = (set_config now cfg s.entry).events
events_of {s = s} (retried _) = (retry s.entry).events
events_of {o} {s = s} (began now before after _ _) = (loop_top o s.cancelled now s.entry).1
events_of {s = s} (processed now p r before after _ _) = (loop_sent now p r s.entry).0.1
events_of _ = []

unfoldable pub retries_of : {o : Options} {s s' : Delivery} → Step o s s' → ℕ
retries_of {s = s} (retried _) = if is_failed s.entry.state then 1 else 0
retries_of _ = 0

Step-Agrees :
    {o : Options} {s s' : Delivery} (t : Step o s s') (r : DeviceRow)
    → Inv o s
    → retries_of t ≡ 0
    → Agrees s.entry r
    → Agrees s'.entry (row_after r (events_of t))
unfolding events_of retries_of row_from retry
Step-Agrees {s = s} (configured now cfg e) r v n a =
    rw e (set_config-Agrees now cfg s.entry r (omega (arith, v.stands.behind, v.stands.ahead)) a)
Step-Agrees {s = s} (retried e) r v n a = rw e (
    (if_split (λ (c : Change). Agrees c.entry (row_after r c.events)) (is_failed s.entry.state)
      (λ f. absurd (ground (arith, n, f))) (λ _. a)))
Step-Agrees {s = s} (closed e) r v n a = rw e a
Step-Agrees {o} {s} (began now before after at e) r v n a =
    rw e (loop_top-Agrees o s.cancelled now s.entry r a)
Step-Agrees {s = s} (delivered drop_push drop_ack err p before after at e) r v n a = rw e a
Step-Agrees {s = s} (processed now p sent before after at e) r v n a =
    rw e (loop_sent-Agrees now p sent s.entry r a)
Step-Agrees {s = s} (woke before after at e) r v n a = rw e a
Step-Agrees {s = s} (interrupted before after c at e) r v n a = rw e a
Step-Agrees {s = s} (finished before after at e) r v n a =
    rw e (unfold finish in same-Agrees s.entry _ r r refl refl refl refl refl refl a)

-- The log of a run, and its effective retries.
unfoldable pub trace : {o : Options} {s s' : Delivery} → Reach o s s' → List Telemetry.Event
trace here = []
trace (next r t) = trace r ++ events_of t

unfoldable pub retries : {o : Options} {s s' : Delivery} → Reach o s s' → ℕ
retries here = 0
retries (next r t) = retries r + retries_of t

Reach-Agrees :
    {o : Options} {s s' : Delivery} (run : Reach o s s') (r : DeviceRow)
    → Inv o s
    → retries run ≡ 0
    → Agrees s.entry r
    → Agrees s'.entry (row_after r (trace run))
unfolding trace retries row_from
Reach-Agrees here r v n a = a
Reach-Agrees {o} {s} (next {u} run t) r v n a = rw (row_after-append r (trace run) (events_of t)) (
    Step-Agrees t (row_after r (trace run)) (Reach-Inv o s u v run) (omega (arith, n))
      (Reach-Agrees run r v (omega (arith, n)) a))

new-Agrees : (id : String) → Agrees (new_entry id) (new_row id)
unfolding new_entry new_row row_state
new-Agrees id = record {
  desired = refl;
  acked = refl;
  failed_at = 0;
  failed_at_is = refl;
  old = omega arith;
  state = refl;
}

-- What the tracer shows of a device whose registry recorded these events.
abbrev pub ShowsEntry : Entry → List Telemetry.Event → Option DeviceRow → Type 0
ShowsEntry e recorded none = recorded ≡ []
ShowsEntry e recorded (some row) =
    (row.desired ≡ pos e.desired_version)
    × (row.acked ≡ pos e.acked_version)
    × (row_state row ≡ state_name e.state)

recorded-ShowsEntry :
    (e : Entry) (id : String) (recorded : List Telemetry.Event)
    → Agrees e (row_after (new_row id) recorded)
    → ShowsEntry e recorded (device_row id (map read_event recorded))
unfolding device_row
recorded-ShowsEntry e id [] a = refl
recorded-ShowsEntry e id (x ∷ recorded) a = (a.desired, a.acked, a.state)

-- In a run of a new device in which no failed push is retried by hand: of a log in which the events of
-- the device are those that the registry recorded in the run, in this order, beside any events of other
-- devices and of jobs, and in which no clock reading goes back, deviceStatus shows a row of the device,
-- unless nothing was recorded, with the desired version, the acknowledged version and the state that
-- the registry's own Status shows.
pub trace-Agrees :
    (options : Options) (id : String) (s : Delivery)
    (run : Reach (defaults options) (new_delivery id) s) (log : List Event)
    → retries run ≡ 0
    → IsInTime log
    → of_device id log ≡ map read_event (trace run)
    → ShowsEntry s.entry (trace run) (row_for id (device_status log))
trace-Agrees options id s run log n in_time recorded =
    let v = new_delivery-Inv (defaults options) id (defaults_positive options) in
    let a = Reach-Agrees run (new_row id) v n (unfold new_delivery in new-Agrees id) in
    rw (row_for-device_status id log in_time, recorded)
      (recorded-ShowsEntry s.entry id (trace run) a)
