-- ===== src/Devices/Fleet.antt =====
-- cmd/devices/main.go: the devices that main registers, and the configurations of its demo.
pub mod Demo
use job_scheduler_tooling.Prelude.{
  ℕ, zero, suc, ◌+◌, ◌/◌, String, List, [], ◌∷◌, Option, none, some, if◌then◌else◌, take, length,
}
use job_scheduler_tooling.Prelude.Dict.{Dict}
use job_scheduler_tooling.Text.Decimal.{numbered_02}
use job_scheduler_tooling.Queue.{Time}
use job_scheduler_tooling.Telemetry.{Recorder}
use job_scheduler_tooling.Devices.{Options, Entry}
use job_scheduler_tooling.Devices.Registry.{Registry, new_registry, register, set_config_of, status}
use job_scheduler_tooling.Devices.Network.{SimNetwork, add_device}

abbrev pub camera : ℕ → String
camera n = numbered_02 "cam-" n

-- The IDs of main, from a number on.
unfoldable pub camera_ids : ℕ → ℕ → List String
camera_ids zero k = []
camera_ids (suc n) k = camera k ∷ camera_ids n (k + 1)

pub record Fleet : Type 0 where
  pub network : SimNetwork
  pub registry : Registry

-- The loop of main that adds and registers the devices; `none` is log.Fatal.
unfoldable pub set_up : List String → Fleet → Option Fleet
set_up [] f = some f
set_up (id ∷ ids) f =
    let (r, registered) = register id f.registry in
    let rest = set_up ids (record { network = add_device id f.network; registry = r }) in
    if registered then rest else none

-- A loop of runDemo over devices, which drops SetConfig's errors.
unfoldable pub configure : (String → Dict String) → Time → List String → Registry → Registry
configure cfg now [] r = r
configure cfg now (id ∷ ids) r = configure cfg now ids (set_config_of now id (cfg id) r).0

-- runDemo up to WaitSettled. The configurations are `first` and `second`, and what the push loops do
-- to the registry between the two loops is `between`.
unfoldable pub run_demo :
    (first second : String → Dict String)
    → (Registry → Registry)
    → Time
    → List String
    → Registry
    → Registry
run_demo first second between now ids r =
    configure second now (take (length ids / 2) ids) (between (configure first now ids r))

abbrev pub shown : Option Entry → Option ℕ
shown none = none
shown (some e) = some e.desired_version

-- The version that Status shows.
abbrev pub version_of : String → Registry → Option ℕ
version_of id r = shown (status id r)

-- main with -demo: the fleet as it is before the push loops act, and the registry after runDemo.
unfoldable pub main_fleet : ℕ → Options → Recorder → SimNetwork → Option Fleet
main_fleet n opts recorder network =
    set_up (camera_ids n 1) (record { network = network; registry = new_registry recorder opts })
