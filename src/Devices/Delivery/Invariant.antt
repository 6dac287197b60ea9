-- ===== src/Devices/Delivery/Invariant.antt =====
-- The invariant of a delivery (internal/devices/devices.go and sim.go), step by step.
use job_scheduler_tooling.Prelude.{
  ◌≡◌, ap, true, false, List, ◌∷◌, ◌++◌, arith, if_split, String, length, length-append, All,
  All-map, All-middle, All-put,
}
use job_scheduler_tooling.Prelude.Dict.{Dict}
use job_scheduler_tooling.Queue.{Time}
use job_scheduler_tooling.Devices.{
  Options, Entry, Change, is_failed, ensure_loop, set_config, retry,
}
use job_scheduler_tooling.Devices.Sim.{SimDevice}
use job_scheduler_tooling.Devices.Standing.{Standing, set_config-Standing, retry-Standing}
use job_scheduler_tooling.Devices.Delivery.{
  Location, Delivery, changed, Fits, Inv, ensured-one_loop, spawn-fits, newer-fits, closed-fits,
}

module _ (o : Options) (s : Delivery) (v : Inv o s) where
  pub configured-Inv :
      (now : Time) (cfg : Dict String) → Inv o (changed (set_config now cfg s.entry) s)
  unfolding set_config ensure_loop
  configured-Inv now cfg = record {
    stands = set_config-Standing o s.cancelled s.entry s.device v.stands now cfg;
    one_loop = ensured-one_loop s.entry.loop_running s.loops v.one_loop;
    fits = spawn-fits _ s.loops _ _ _ _ (
        All-map _ _ s.loops
          (newer-fits s.cancelled s.entry.desired_version s.device.version s.entry.config cfg)
          v.fits);
    some_left = v.some_left;
  }

  pub retried-Inv : Inv o (changed (retry s.entry) s)
  unfolding retry ensure_loop
  retried-Inv =
      (if_split (λ (c : Change). Standing o s.cancelled c.entry s.device → Inv o (changed c s))
          (is_failed s.entry.state)
          (λ _ h. record {
            stands = h;
            one_loop = ensured-one_loop s.entry.loop_running s.loops v.one_loop;
            fits = spawn-fits _ s.loops _ _ _ _ v.fits;
            some_left = v.some_left;
          })
          (λ _ _. v))
        (retry-Standing o s.cancelled s.entry s.device v.stands)

  pub closed-Inv : Inv o (record s { cancelled = true })
  closed-Inv = record {
    stands = record {
      behind = v.stands.behind;
      ahead = v.stands.ahead;
      same_config = v.stands.same_config;
      acked = v.stands.acked;
      pending = v.stands.pending;
      failed = v.stands.failed;
      served = λ _ k. cc;
      bounded = v.stands.bounded;
    };
    one_loop = v.one_loop;
    fits = All-map _ _ s.loops (closed-fits s.cancelled _ _ _) v.fits;
    some_left = v.some_left;
  }

  module _ (before after : List Location) (l : Location) (e : s.loops ≡ before ++ l ∷ after) where
    abbrev pub F : Location → Type 0
    F = Fits s.cancelled s.entry.desired_version s.entry.config s.device.version

    pub parts : F l × All F (before ++ after)
    parts = All-middle F before l after (rw e at v.fits)

    alone : (length (before ++ after) ≡ 0) × (s.entry.loop_running ≡ true)
    alone = ground (
      arith,
      v.one_loop,
      ap length e,
      length-append before (l ∷ after),
      length-append before after,
    )

    -- One location becomes another.
    pub moved-Inv :
        (c : Entry) (d : SimDevice) (l' : Location)
        → Standing o s.cancelled c d
        → c.loop_running ≡ s.entry.loop_running
        → All (Fits s.cancelled c.desired_version c.config d.version) (before ++ after)
        → Fits s.cancelled c.desired_version c.config d.version l'
        → Inv o (record s { entry = c; loops = before ++ l' ∷ after; device = d })
    moved-Inv c d l' h same all one = record {
      stands = h;
      one_loop =
          rw (same, alone.1)
            (omega (arith, alone.0, length-append before (l' ∷ after), length-append before after));
      fits = All-put _ before l' after one all;
      some_left = v.some_left;
    }

    -- A loop ends.
    pub ended-Inv :
        (c : Entry)
        → Standing o s.cancelled c s.device
        → c.loop_running ≡ false
        → All (Fits s.cancelled c.desired_version c.config s.device.version) (before ++ after)
        → Inv o (record s { entry = c; loops = before ++ after })
    ended-Inv c h stopped all = record {
      stands = h;
      one_loop = rw stopped alone.0;
      fits = all;
      some_left = v.some_left;
    }
