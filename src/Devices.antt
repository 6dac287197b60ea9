-- ===== src/Devices.antt =====
-- internal/devices/devices.go: the registry that pushes versioned configurations to devices. Every
-- method, and every critical section of a push loop, holds the lock and is one function. A version
-- counts the configurations set for a device and stays far below 2^63; an ack with a negative
-- version differs from the desired one as any other wrong ack does. Durations only bound waits.
pub mod Registry
pub mod PushLoop
pub mod Http
pub mod Sim
pub mod Network
pub mod Fleet
pub mod Standing
pub mod Delivery
use job_scheduler_tooling.Prelude.{
  ℕ, ◌+◌, String, ◌+++◌, Bool, true, false, not, ◌||◌, List, [], ◌∷◌, ◌++◌, leb, ltb, ◌==◌,
  if◌then◌else◌,
}
use job_scheduler_tooling.Prelude.Int.{ℤ, pos, leb_ℤ}
use job_scheduler_tooling.Prelude.Dict.{Dict}
use job_scheduler_tooling.Queue.{Time}
use job_scheduler_tooling.Telemetry.{Event}

pub record Push : Type 0 where
  pub device_id : String
  pub version : ℕ
  pub config : Dict String
  pub attempt : ℕ

pub record Ack : Type 0 where
  pub device_id : String
  pub version : ℕ
  pub applied : Bool

-- What Transport.Send returns.
pub data Sent : Type 0 where
  replied : Ack → Sent
  unanswered : String → Sent

pub data State : Type 0 where
  idle pending acked failed : State

pub record Options : Type 0 where
  pub ack_timeout : ℤ
  pub max_attempts : ℤ
  pub backoff : ℤ

-- Durations are in nanoseconds.
unfoldable pub defaults : Options → Options
defaults o = record {
  ack_timeout = if leb_ℤ o.ack_timeout (pos 0) then pos 500000000 else o.ack_timeout;
  max_attempts = if leb_ℤ o.max_attempts (pos 0) then pos 4 else o.max_attempts;
  backoff = if leb_ℤ o.backoff (pos 0) then pos 100000000 else o.backoff;
}

-- `entry`, with the fields of the Status that it embeds.
pub record Entry : Type 0 where
  pub id : String
  pub desired_version : ℕ
  pub acked_version : ℕ
  pub state : State
  pub attempts : ℕ
  pub last_error : String
  pub config : Dict String
  pub loop_running : Bool
  pub pushed_for : ℕ

unfoldable pub new_entry : String → Entry
new_entry id = record {
  id = id;
  desired_version = 0;
  acked_version = 0;
  state = State.idle;
  attempts = 0;
  last_error = "";
  config = [];
  loop_running = false;
  pushed_for = 0;
}

-- The changes that a call makes to an entry: the entry, the events, and whether it starts a loop.
pub record Change : Type 0 where
  pub entry : Entry
  pub events : List Event
  pub starts : Bool

abbrev pub device_event : Time → String → String → ℕ → ℕ → Event
device_event now id typ version attempt = record {
  timestamp = now;
  job_id = "device:" +++ id;
  event_type = typ;
  node_name = "";
  priority = pos 0;
  model = "";
  batch_size = pos 0;
  attempt = pos attempt;
  triage_action = "";
  version = pos version;
}

-- `if !e.loopRunning { e.loopRunning = true; go r.pushLoop(e) }`
unfoldable pub ensure_loop : Entry → List Event → Change
ensure_loop e events = record {
  entry = record e { loop_running = true };
  events = events;
  starts = not e.loop_running;
}

-- SetConfig on the entry it finds.
unfoldable pub set_config : Time → Dict String → Entry → Change
set_config now cfg e =
    let version = e.desired_version + 1 in
    ensure_loop
      (record e { desired_version = version; config = cfg; state = State.pending; last_error = "" })
      (device_event now e.id "config_set" version 0 ∷ [])

abbrev pub is_failed : State → Bool
is_failed State.failed = true
is_failed _ = false

-- Retry on the entry it finds.
unfoldable pub retry : Entry → Change
retry e =
    if is_failed e.state
    then ensure_loop (record e { state = State.pending; pushed_for = 0; last_error = "" }) []
    else record { entry = e; events = []; starts = false }

-- Where a push loop goes from its first critical section.
pub data Next : Type 0 where
  stops : Next
  sends : Push → Next

-- `if e.pushedFor != version`: a new desired version has a fresh attempt budget.
unfoldable pub fresh_budget : Entry → Entry
fresh_budget e =
    if e.pushed_for == e.desired_version
    then e
    else record e { pushed_for = e.desired_version; attempts = 0 }

-- The rest of the first critical section, with something to push.
unfoldable pub attempt_push : Options → Time → Entry → Entry × List Event × Next
attempt_push o now e =
    if leb_ℤ o.max_attempts (pos e.attempts)
    then (
      record e { state = State.failed; loop_running = false },
      device_event now e.id "push_failed" e.desired_version e.attempts ∷ [],
      stops,
    )
    else (
      record e { attempts = e.attempts + 1 },
      device_event now e.id "push" e.desired_version (e.attempts + 1) ∷ [],
      sends (record {
        device_id = e.id;
        version = e.desired_version;
        config = e.config;
        attempt = e.attempts + 1;
      }),
    )

-- pushLoop from the top to Send; `cancelled` is whether the context is.
unfoldable pub loop_top : Options → Bool → Time → Entry → Entry × List Event × Next
loop_top o cancelled now e =
    if cancelled || leb e.desired_version e.acked_version
    then (record e { loop_running = false }, [], stops)
    else attempt_push o now (fresh_budget e)

-- The default branch of the `switch` after Send.
unfoldable pub accept_ack : Time → Push → Ack → Entry → Entry × List Event
accept_ack now p ack e =
    let duplicate =
      if ack.applied
      then []
      else device_event now e.id "duplicate_ignored_by_device" p.version p.attempt ∷ [] in
    if ltb e.acked_version ack.version
    then (
      record e { acked_version = ack.version; state = State.acked; last_error = "" },
      duplicate ++ device_event now e.id "acked" ack.version p.attempt ∷ [],
    )
    else (e, duplicate)

-- pushLoop from the return of Send on; `true` where it sleeps before it goes on.
unfoldable pub loop_sent : Time → Push → Sent → Entry → (Entry × List Event) × Bool
loop_sent now p (unanswered err) e = (
  (record e { last_error = err }, device_event now e.id "ack_timeout" p.version p.attempt ∷ []),
  true,
)
loop_sent now p (replied ack) e =
    if ack.version == e.desired_version
    then (accept_ack now p ack e, false)
    else ((e, device_event now e.id "stale_ack_ignored" ack.version p.attempt ∷ []), false)

unfoldable pub finish : Entry → Entry
finish e = record e { loop_running = false }
