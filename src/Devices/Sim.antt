-- ===== src/Devices/Sim.antt =====
-- internal/devices/sim.go: the simulated device, and the network that may lose a push or an ack.
use job_scheduler_tooling.Prelude.{ℕ, ◌+◌, String, Bool, true, false, [], leb, if◌then◌else◌}
use job_scheduler_tooling.Prelude.Dict.{Dict}
use job_scheduler_tooling.Devices.{Push, Ack, Sent, replied, unanswered}

pub record SimDevice : Type 0 where
  pub id : String
  pub version : ℕ
  pub config : Dict String
  pub applies : ℕ
  pub received : ℕ

unfoldable pub new_device : String → SimDevice
new_device id = record { id = id; version = 0; config = []; applies = 0; received = 0 }

unfoldable pub receive : Push → SimDevice → SimDevice × Ack
receive p d =
    if leb p.version d.version
    then (
      record d { received = d.received + 1 },
      record { device_id = d.id; version = d.version; applied = false },
    )
    else (
      record d {
        received = d.received + 1;
        version = p.version;
        config = p.config;
        applies = d.applies + 1;
      },
      record { device_id = d.id; version = p.version; applied = true },
    )

-- Send to a device that is on the network: what gets lost is up to DropPush, DropAck and the
-- context, as is the error that a loss surfaces as.
unfoldable pub deliver : (drop_push drop_ack : Bool) → String → Push → SimDevice → SimDevice × Sent
deliver true drop_ack err p d = (d, unanswered err)
deliver false true err p d = let (d', _) = receive p d in (d', unanswered err)
deliver false false err p d = let (d', ack) = receive p d in (d', replied ack)
