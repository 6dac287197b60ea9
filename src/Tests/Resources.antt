-- ===== src/Tests/Resources.antt =====
-- internal/resource on concrete nodes.
use job_scheduler_tooling.Prelude.{◌≡◌, ◌↔◌, refl, true, List, [], ◌∷◌, some, arith}
use job_scheduler_tooling.Prelude.Int.{sub64}
use job_scheduler_tooling.Resource.{Node, fits, reserve, find_fit, slack}
use job_scheduler_tooling.Resource.BestFit.{Outcome, find_fit-Outcome}
use job_scheduler_tooling.Resource.Capacity.{IsSound, IsRequest, fits_iff_reserve-IsSound}
use job_scheduler_tooling.Tests.Samples.{request, machine}

abbrev pool : List Node
pool = machine "node-a" 16 4 ∷ machine "node-b" 16 13 ∷ machine "node-c" 16 15 ∷ []

-- node-c is too full, and node-b is tighter than node-a.
tightest : find_fit pool request ≡ some 1
unfolding find_fit fits slack sub64
tightest = refl

abbrev sound : IsSound (machine "node-a" 16 4)
sound = record {
  cpu = record { t = 16; u = 4; total_is = (refl, omega arith); used_is = refl; le = omega arith };
  mem = record {
    t = 65536;
    u = 0;
    total_is = (refl, omega arith);
    used_is = refl;
    le = omega arith;
  };
  gpu = record { t = 2; u = 0; total_is = (refl, omega arith); used_is = refl; le = omega arith };
}

abbrev sample_request : IsRequest request
sample_request = record {
  cores = 2;
  memory = 1024;
  gpu = 1;
  cores_is = (refl, omega arith);
  memory_is = (refl, omega arith);
  gpu_is = (refl, omega arith);
}

find_fit-Outcome_example : Outcome request pool 0 (find_fit pool request)
find_fit-Outcome_example = find_fit-Outcome pool request

fits_iff_reserve-IsSound_example :
    (fits (machine "node-a" 16 4) request ≡ true)
    ↔ IsSound (reserve (machine "node-a" 16 4) request)
fits_iff_reserve-IsSound_example =
    fits_iff_reserve-IsSound (machine "node-a" 16 4) request sound sample_request
