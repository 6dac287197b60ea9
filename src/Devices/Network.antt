-- ===== src/Devices/Network.antt =====
-- SimNetwork of internal/devices/sim.go: the devices, and how often each push was sent.
use job_scheduler_tooling.Prelude.{
  ℕ, ◌+◌, String, Bool, [], Option, none, some, ◌+++◌, if◌then◌else◌,
}
use job_scheduler_tooling.Prelude.Dict.{Dict, lookup, insert}
use job_scheduler_tooling.Text.Decimal.{decimal}
use job_scheduler_tooling.Devices.{Push, Sent, unanswered}
use job_scheduler_tooling.Devices.Sim.{SimDevice, new_device, deliver}

-- The latency is not here: whether the context ends first is an argument of Send.
pub record SimNetwork : Type 0 where
  pub devices : Dict SimDevice
  pub sends : Dict ℕ
  pub drop_push : String → ℕ → ℕ → Bool
  pub drop_ack : String → ℕ → ℕ → Bool

unfoldable pub new_sim_network : (drop_push drop_ack : String → ℕ → ℕ → Bool) → SimNetwork
new_sim_network drop_push drop_ack = record {
  devices = [];
  sends = [];
  drop_push = drop_push;
  drop_ack = drop_ack;
}

unfoldable pub add_device : String → SimNetwork → SimNetwork
add_device id net = record net { devices = insert id (new_device id) net.devices }

unfoldable pub device : String → SimNetwork → Option SimDevice
device id net = lookup id net.devices

-- "%s@%d".
abbrev pub send_key : Push → String
send_key p = p.device_id +++ ("@" +++ decimal p.version p.version)

-- How many times this version has been sent to this device, with this time.
unfoldable pub nth_send : Push → SimNetwork → ℕ
nth_send p net = elim (lookup (send_key p) net.sends) [ none ↦ 1 | some n ↦ n + 1 ]

-- %q escapes no character of a printable ID, and its quotes are written out.
-- `expired` is whether the context ends during the latency, and `error` what it says.
unfoldable pub send : Bool → String → Push → SimNetwork → SimNetwork × Sent
send expired error p net =
    let n = nth_send p net in
    let net' = record net { sends = insert (send_key p) n net.sends } in
    elim (device p.device_id net) [
      | none ↦ (net', unanswered ("device \"" +++ (p.device_id +++ "\" unreachable")))
      | some d ↦
          if expired
          then (net', unanswered error)
          else let (d', sent) =
              deliver (net.drop_push p.device_id p.version n) (net.drop_ack p.device_id p.version n)
                error p d in
            (record net' { devices = insert p.device_id d' net'.devices }, sent)
    ]
