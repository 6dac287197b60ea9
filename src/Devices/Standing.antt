-- ===== src/Devices/Standing.antt =====
-- How a device's entry and the simulated device stand to each other, before and after each critical
-- section of the registry (internal/devices/devices.go and sim.go).
use job_scheduler_tooling.Prelude.{
  ℕ, ◌≤◌, ◌<◌, ◌≡◌, refl, Bool, true, false, List, arith, leb, ltb, ◌==◌, String, ◌||◌, if_split,
  ==_iff,
}
use job_scheduler_tooling.Prelude.Int.{pos, leb_ℤ, ◌≤ℤ◌}
use job_scheduler_tooling.Prelude.Dict.{Dict}
use job_scheduler_tooling.Queue.{Time}
use job_scheduler_tooling.Telemetry.{Event}
use job_scheduler_tooling.Devices.{
  Push, Ack, replied, State, Options, Entry, Next, stops, sends, is_failed, ensure_loop, set_config,
  retry, Change, fresh_budget, attempt_push, loop_top, accept_ack, loop_sent,
}
use job_scheduler_tooling.Devices.Sim.{SimDevice, receive}

abbrev pub is_acked : State → Bool
is_acked State.acked = true
is_acked _ = false

abbrev pub is_pending : State → Bool
is_pending State.pending = true
is_pending _ = false

-- `c` is whether the registry is closed.
pub record Standing (o : Options) (c : Bool) (e : Entry) (d : SimDevice) : Type 0 where
  pub behind : e.acked_version ≤ d.version
  pub ahead : d.version ≤ e.desired_version
  pub same_config : d.version ≡ e.desired_version → d.config ≡ e.config
  pub acked : is_acked e.state ≡ true → e.acked_version ≡ e.desired_version
  pub pending : is_pending e.state ≡ true → e.acked_version < e.desired_version
  pub failed : is_failed e.state ≡ true → e.acked_version < e.desired_version
  pub served : is_pending e.state ≡ true → c ≡ false → e.loop_running ≡ true
  pub bounded : pos e.attempts ≤ℤ o.max_attempts

module _ (o : Options) (c : Bool) (e : Entry) (d : SimDevice) (h : Standing o c e d) where
  pub set_config-Standing :
      (now : Time) (cfg : Dict String) → Standing o c (set_config now cfg e).entry d
  unfolding set_config ensure_loop
  set_config-Standing now cfg = record {
    behind = h.behind;
    ahead = omega (arith, h.ahead);
    same_config = λ k. ground (arith, h.ahead, k);
    acked = λ k. cc;
    pending = λ _. omega (arith, h.behind, h.ahead);
    failed = λ k. cc;
    served = λ _ _. refl;
    bounded = h.bounded;
  }

  pub retry-Standing : Standing o c (retry e).entry d
  unfolding retry ensure_loop
  retry-Standing =
      if_split (λ (r : Change). Standing o c r.entry d) (is_failed e.state)
        (λ f. record {
          behind = h.behind;
          ahead = h.ahead;
          same_config = h.same_config;
          acked = λ k. cc;
          pending = λ _. h.failed f;
          failed = λ k. cc;
          served = λ _ _. refl;
          bounded = h.bounded;
        })
        (λ _. h)

  fresh_budget-Standing : pos 0 ≤ℤ o.max_attempts → Standing o c (fresh_budget e) d
  unfolding fresh_budget
  fresh_budget-Standing some_left =
      if_split (λ (r : Entry). Standing o c r d) (e.pushed_for == e.desired_version) (λ _. h)
        (λ _. record {
          behind = h.behind;
          ahead = h.ahead;
          same_config = h.same_config;
          acked = h.acked;
          pending = h.pending;
          failed = h.failed;
          served = h.served;
          bounded = some_left;
        })

  pub sent-Standing :
      (now : Time) (p : Push) (ack : Ack)
      → ack.version ≤ d.version
      → Standing o c (loop_sent now p (replied ack) e).0.0 d
  unfolding loop_sent accept_ack
  sent-Standing now p ack le =
      if_split (λ (r : (Entry × List Event) × Bool). Standing o c r.0.0 d)
        (ack.version == e.desired_version)
        (λ same.
          if_split (λ (r : Entry × List Event). Standing o c r.0 d)
            (ltb e.acked_version ack.version)
            (λ _. record {
              behind = le;
              ahead = h.ahead;
              same_config = h.same_config;
              acked = λ _. (==_iff _ _).0 same;
              pending = λ k. cc;
              failed = λ k. cc;
              served = λ k. cc;
              bounded = h.bounded;
            })
            (λ _. h))
        (λ _. h)

  pub receive-Standing :
      (p : Push)
      → p.version ≤ e.desired_version
      → (p.version ≡ e.desired_version → p.config ≡ e.config)
      → Standing o c e (receive p d).0
  unfolding receive
  receive-Standing p le same =
      if_split (λ (r : SimDevice × Ack). Standing o c e r.0) (leb p.version d.version)
        (λ _. record {
          behind = h.behind;
          ahead = h.ahead;
          same_config = h.same_config;
          acked = h.acked;
          pending = h.pending;
          failed = h.failed;
          served = h.served;
          bounded = h.bounded;
        })
        (λ new. record {
          behind = ground (arith, h.behind, new);
          ahead = le;
          same_config = same;
          acked = h.acked;
          pending = h.pending;
          failed = h.failed;
          served = h.served;
          bounded = h.bounded;
        })

-- What the first critical section of a push loop leaves.
pub record Topped (o : Options) (c : Bool) (running_before : Bool) (desired : ℕ)
    (config : Dict String) (d : SimDevice) (r : Entry × List Event × Next) : Type 0 where
  pub stands : Standing o c r.0 d
  pub running : elim r.2 as (λ _. Type 0) [
    | stops ↦ r.0.loop_running ≡ false
    | sends p ↦
        (p.version ≡ r.0.desired_version)
        × (p.config ≡ r.0.config)
        × (r.0.loop_running ≡ running_before)
  ]
  pub desired_is : r.0.desired_version ≡ desired
  pub config_is : r.0.config ≡ config

attempt_push-Topped :
    (o : Options) (c : Bool) (e : Entry) (d : SimDevice) (now : Time)
    → Standing o c e d
    → e.acked_version < e.desired_version
    → Topped o c e.loop_running e.desired_version e.config d (attempt_push o now e)
unfolding attempt_push
attempt_push-Topped o c e d now h lt =
    if_split (Topped o c e.loop_running e.desired_version e.config d)
      (leb_ℤ o.max_attempts (pos e.attempts))
      (λ _. record {
        stands = record {
          behind = h.behind;
          ahead = h.ahead;
          same_config = h.same_config;
          acked = λ k. cc;
          pending = λ k. cc;
          failed = λ _. lt;
          served = λ k. cc;
          bounded = h.bounded;
        };
        running = refl;
        desired_is = refl;
        config_is = refl;
      })
      (λ more. record {
        stands = record {
          behind = h.behind;
          ahead = h.ahead;
          same_config = h.same_config;
          acked = h.acked;
          pending = h.pending;
          failed = h.failed;
          served = h.served;
          bounded = ground (arith, more);
        };
        running = (refl, refl, refl);
        desired_is = refl;
        config_is = refl;
      })

pub loop_top-Topped :
    (o : Options) (c : Bool) (e : Entry) (d : SimDevice) (now : Time)
    → pos 0 ≤ℤ o.max_attempts
    → Standing o c e d
    → Topped o c e.loop_running e.desired_version e.config d (loop_top o c now e)
unfolding loop_top fresh_budget
loop_top-Topped o c e d now some_left h =
    if_split (Topped o c e.loop_running e.desired_version e.config d)
      (c || leb e.desired_version e.acked_version)
      (λ over. record {
        stands = record {
          behind = h.behind;
          ahead = h.ahead;
          same_config = h.same_config;
          acked = h.acked;
          pending = h.pending;
          failed = h.failed;
          served = λ k l. ground (arith, over, h.pending k, l);
          bounded = h.bounded;
        };
        running = refl;
        desired_is = refl;
        config_is = refl;
      })
      (λ work.
        let b = fresh_budget-Standing o c e d h some_left in
        (if_split
            (λ e'.
              Standing o c e' d
              → Topped o c e.loop_running e.desired_version e.config d (attempt_push o now e'))
            (e.pushed_for == e.desired_version)
            (λ _ k. attempt_push-Topped o c e d now k (ground (arith, work)))
            (λ _ k. attempt_push-Topped o c _ d now k (ground (arith, work))))
          b)
