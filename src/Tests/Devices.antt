-- ===== src/Tests/Devices.antt =====
-- internal/devices on a concrete run: a configuration is set, the first push is lost, the second
-- arrives.
use job_scheduler_tooling.Prelude.{
  List, ◌≡◌, ◌≤◌, refl, String, true, false, [], ◌∷◌, length, none, some, map, zero, suc, arith, ℕ,
  ◌/◌, ◌<◌, leb, if◌then◌else◌,
}
use job_scheduler_tooling.Prelude.Int.{pos, ◌≤ℤ◌}
use job_scheduler_tooling.Prelude.Dict.{Dict}
use job_scheduler_tooling.Devices.{
  Push, Options, defaults, set_config, ensure_loop, loop_top, loop_sent, attempt_push, fresh_budget,
  accept_ack, new_entry, replied, Sent, unanswered,
}
use job_scheduler_tooling.Devices.Registry.{Registry, new_registry, register}
use job_scheduler_tooling.Prelude.Partial.{Yields}
use job_scheduler_tooling.Devices.PushLoop.{push_loop, Settled, set_config-Settles}
use job_scheduler_tooling.Text.{cut, after_prefix}
use job_scheduler_tooling.Devices.Http.{Request, version, handle, device_handler, put_config}
use job_scheduler_tooling.Devices.Http.Answers.{Answers, handle-Answers}
use job_scheduler_tooling.Tracer.{Event, read_event, device_status}
use job_scheduler_tooling.Tracer.Order.{IsInTime}
use job_scheduler_tooling.Tracer.Rows.{of_device}
use job_scheduler_tooling.Tracer.Status.{row_for}
use job_scheduler_tooling.Tracer.Agreement.{
  trace, events_of, retries, retries_of, ShowsEntry, trace-Agrees,
}
use job_scheduler_tooling.Devices.Sim.{receive, deliver, new_device}
use job_scheduler_tooling.Devices.Standing.{is_acked, is_pending}
use job_scheduler_tooling.Devices.Delivery.{
  Delivery, new_delivery, Reach, here, next, configured, began, delivered, processed, changed,
  at_top, sending, returned,
}
use job_scheduler_tooling.Devices.Delivery.Runs.{acked-Delivered, loops-Bounded, pending-Served}
use job_scheduler_tooling.Prelude.Dict.Keys.{Has}
use job_scheduler_tooling.Devices.Network.{SimNetwork, new_sim_network}
use job_scheduler_tooling.Devices.Fleet.{camera, camera_ids, version_of, run_demo, main_fleet}
use job_scheduler_tooling.Devices.Fleet.Demo.{demo-Versions}

abbrev options : Options
options = record { ack_timeout = pos 0; max_attempts = pos 2; backoff = pos 0 }

abbrev cfg : Dict String
cfg = ("rate", "10") ∷ []

abbrev push : Push
push = record { device_id = "sensor"; version = 1; config = cfg; attempt = 1 }

abbrev set : Delivery
set = changed (set_config 1 cfg (new_delivery "sensor").entry) (new_delivery "sensor")

abbrev started : Delivery
started = record set {
  entry = (loop_top (defaults options) false 2 set.entry).0;
  loops = sending push ∷ [];
}

abbrev arrived : Delivery
arrived = record started {
  device = (receive push started.device).0;
  loops = returned push (replied (receive push started.device).1) ∷ [];
}

abbrev accepted : Delivery
accepted = record arrived {
  entry = (loop_sent 3 push (replied (receive push started.device).1) arrived.entry).0.0;
  loops = at_top ∷ [];
}

to_started : Reach (defaults options) (new_delivery "sensor") started
unfolding new_delivery new_entry set_config ensure_loop loop_top attempt_push fresh_budget defaults
to_started = next (next here (configured 1 cfg refl)) (began 2 [] [] refl refl)

to_accepted : Reach (defaults options) (new_delivery "sensor") accepted
unfolding new_delivery new_entry new_device set_config ensure_loop loop_top attempt_push
    fresh_budget defaults deliver receive loop_sent accept_ack
to_accepted =
    next (next to_started (delivered false false "" push [] [] refl refl))
      (processed 3 push (replied (receive push started.device).1) [] [] refl refl)

accepted-acked : is_acked accepted.entry.state ≡ true
unfolding new_delivery new_entry new_device set_config ensure_loop loop_top attempt_push
    fresh_budget defaults receive loop_sent accept_ack
accepted-acked = refl

acked-Delivered_example :
    (accepted.device.version ≡ accepted.entry.desired_version)
    × (accepted.device.config ≡ accepted.entry.config)
acked-Delivered_example = acked-Delivered options "sensor" accepted to_accepted accepted-acked

loops-Bounded_example :
    (length accepted.loops ≤ 1) × (pos accepted.entry.attempts ≤ℤ (defaults options).max_attempts)
loops-Bounded_example = loops-Bounded options "sensor" accepted to_accepted

started-pending : is_pending started.entry.state ≡ true
unfolding new_delivery new_entry set_config ensure_loop loop_top attempt_push fresh_budget defaults
started-pending = refl

started-open : started.cancelled ≡ false
unfolding new_delivery
started-open = refl

pending-Served_example : length started.loops ≡ 1
pending-Served_example =
    pending-Served options "sensor" started to_started started-pending started-open

abbrev registry : Registry
registry = (register "sensor" (new_registry none options)).0

-- A transport that loses the first push and hands the second over.
abbrev flaky : Push → Sent
flaky p = elim p.attempt [
  | zero ↦ unanswered "lost"
  | suc n ↦ elim n [
    | zero ↦ unanswered "lost"
    | suc _ ↦ replied (receive p (new_device "sensor")).1
  ]
]

set_config-Settles_example :
    Yields (Settled flaky 3 0 (set_config 1 cfg (new_entry "sensor")).entry) (
      push_loop 4
        (record options { max_attempts = pos 3 })
        flaky
        1
        (set_config 1 cfg (new_entry "sensor")).entry)
set_config-Settles_example =
    set_config-Settles (record options { max_attempts = pos 3 }) flaky 1 cfg 3 (new_entry "sensor")
      refl (unfold new_entry in omega arith) (unfold new_entry in omega arith)

abbrev bad_put : Request
bad_put = record { method = "PUT"; path = "/devices/sensor/config"; body = none }

abbrev unknown_put : Request
unknown_put = record { method = "PUT"; path = "/devices/valve/config"; body = some cfg }

handle-Answers_example : Answers 1 unknown_put registry (handle 1 unknown_put registry)
handle-Answers_example = handle-Answers 1 unknown_put registry

-- A body that is no JSON object of texts.
bad_put-code : (handle 1 bad_put registry).1.code ≡ 400
unfolding handle device_handler put_config cut after_prefix
bad_put-code = refl

to_accepted-retries : retries to_accepted ≡ 0
unfolding retries retries_of to_accepted to_started
to_accepted-retries = refl

-- The log has an event of a job first.
abbrev job_event : Event
job_event = record {
  timestamp = 0;
  job_id = "job-000";
  event_type = "submitted";
  node_name = "";
  priority = pos 3;
  attempt = pos 0;
  version = pos 0;
}

abbrev log : List Event
log = job_event ∷ map read_event (trace to_accepted)

log-IsInTime : IsInTime log
unfolding trace events_of to_accepted to_started new_delivery new_entry new_device set_config
    ensure_loop loop_top attempt_push fresh_budget defaults deliver receive loop_sent accept_ack
log-IsInTime = omega arith

log-of_device : of_device "sensor" log ≡ map read_event (trace to_accepted)
unfolding trace events_of to_accepted to_started of_device new_delivery new_entry new_device
    set_config ensure_loop loop_top attempt_push fresh_budget defaults deliver receive loop_sent
    accept_ack
log-of_device = refl

trace-Agrees_example :
    ShowsEntry accepted.entry (trace to_accepted) (row_for "sensor" (device_status log))
trace-Agrees_example =
    trace-Agrees options "sensor" accepted to_accepted log to_accepted-retries log-IsInTime
      log-of_device

abbrev quiet : SimNetwork
quiet = new_sim_network (λ _ _ _. false) (λ _ _ _. false)

demo-Versions_example :
    Yields
      (λ f.
        (j : ℕ)
        → 0 < j
        → j ≤ 3
        → Has f.network.devices (camera j)
          × (version_of
                (camera j)
                (run_demo (λ _. cfg) (λ _. cfg) (λ r. r) 1 (camera_ids 3 1) f.registry)
              ≡ some (if leb j (3 / 2) then 2 else 1)))
      (main_fleet 3 options none quiet)
demo-Versions_example =
    demo-Versions 3 options none quiet (λ _. cfg) (λ _. cfg) (λ r. r) 1 (λ r id. refl)
