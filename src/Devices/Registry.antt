-- ===== src/Devices/Registry.antt =====
-- The registry over all devices (internal/devices/devices.go): each call finds the entry and leaves
-- the others alone. `loops` names the device of every push loop started.
use job_scheduler_tooling.Prelude.{
  ℕ, ◌+◌, ◌≡◌, refl, String, Bool, true, false, not, ◌||◌, List, [], ◌∷◌, ◌++◌, Option, none, some,
  if◌then◌else◌, str_eq,
}
use job_scheduler_tooling.Prelude.Dict.{Dict, lookup, insert, lookup-insert}
use job_scheduler_tooling.Prelude.Sort.{sort}
use job_scheduler_tooling.Text.{less_text}
use job_scheduler_tooling.Queue.{Time}
use job_scheduler_tooling.Telemetry.{Event, Recorder, record_event}
use job_scheduler_tooling.Devices.Standing.{is_pending}
use job_scheduler_tooling.Devices.{
  Options, Entry, Change, defaults, new_entry, set_config, retry, ensure_loop,
}

pub record Registry : Type 0 where
  pub opts : Options
  pub recorder : Recorder
  pub devs : Dict Entry
  pub loops : List String

unfoldable pub new_registry : Recorder → Options → Registry
new_registry recorder opts = record {
  opts = defaults opts;
  recorder = recorder;
  devs = [];
  loops = [];
}

-- Register; `false` is the error of a device registered already.
unfoldable pub register : String → Registry → Registry × Bool
register id r = elim (lookup id r.devs) [
  | some _ ↦ (r, false)
  | none ↦ (record r { devs = insert id (new_entry id) r.devs }, true)
]

abbrev pub record_all : Recorder → List Event → Recorder
record_all rec [] = rec
record_all rec (e ∷ es) = record_all (record_event rec e) es

unfoldable pub apply_change : String → Change → Registry → Registry
apply_change id c r = record r {
  recorder = record_all r.recorder c.events;
  devs = insert id c.entry r.devs;
  loops = if c.starts then r.loops ++ id ∷ [] else r.loops;
}

-- SetConfig on what it finds.
unfoldable pub set_config_found :
    Time → String → Dict String → Registry → Option Entry → Registry × Option ℕ
set_config_found now id cfg r none = (r, none)
set_config_found now id cfg r (some e) =
    let c = set_config now cfg e in (apply_change id c r, some c.entry.desired_version)

-- SetConfig: the version, or `none` for ErrUnknownDevice.
unfoldable pub set_config_of : Time → String → Dict String → Registry → Registry × Option ℕ
set_config_of now id cfg r = set_config_found now id cfg r (lookup id r.devs)

-- Retry; `false` is ErrUnknownDevice.
unfoldable pub retry_of : String → Registry → Registry × Bool
retry_of id r = elim (lookup id r.devs) [
  | none ↦ (r, false)
  | some e ↦ (apply_change id (retry e) r, true)
]

-- Status, as the entry that it shows a part of.
unfoldable pub status : String → Registry → Option Entry
status id r = lookup id r.devs

abbrev pub entries : Dict Entry → List Entry
entries [] = []
entries ((id, e) ∷ devs) = e ∷ entries devs

-- List, as the entries that it shows a part of.
unfoldable pub list : Registry → List Entry
list r = sort (λ a b. less_text a.id b.id) (entries r.devs)

-- Whether a round of WaitSettled finds a device that is pending.
unfoldable pub any_pending : List Entry → Bool
any_pending [] = false
any_pending (e ∷ es) = is_pending e.state || any_pending es

-- A round of WaitSettled: `true` where it returns.
unfoldable pub is_settled : Registry → Bool
is_settled r = not (any_pending (list r))

-- What Status tells of a device j after SetConfig, by what it told of the one configured.
abbrev pub Tells :
    Time → String → Dict String → Registry → String → Option Entry → Registry × Option ℕ → Type 0
Tells now id cfg r j none (r', v) = (r' ≡ r) × (v ≡ none)
Tells now id cfg r j (some e) (r', v) =
    (v ≡ some (e.desired_version + 1))
    × (status j r' ≡ (if str_eq id j then some (set_config now cfg e).entry else status j r))

found-Tells :
    (now : Time) (id : String) (cfg : Dict String) (r : Registry) (j : String) (o : Option Entry)
    → Tells now id cfg r j o (set_config_found now id cfg r o)
unfolding set_config_found apply_change status
found-Tells now id cfg r j none = (refl, refl)
found-Tells now id cfg r j (some e) =
    (unfold set_config ensure_loop in refl, lookup-insert id j _ r.devs)

-- After SetConfig on a device, and for every device j: an unknown device changes nothing and has no
-- version; a known one gets the next version, its entry is the one configured, and the entry of any
-- other device is what it was.
pub set_config_of-Tells :
    (now : Time) (id : String) (cfg : Dict String) (r : Registry) (j : String)
    → Tells now id cfg r j (status id r) (set_config_of now id cfg r)
unfolding set_config_of status
set_config_of-Tells now id cfg r j = found-Tells now id cfg r j (lookup id r.devs)
