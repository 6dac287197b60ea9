-- ===== src/Devices/Delivery/Runs.antt =====
-- The runs of a delivery (internal/devices/devices.go and sim.go).
use job_scheduler_tooling.Prelude.{
  ℕ, ◌≤◌, ◌≡◌, refl, Bool, true, false, List, ◌∷◌, ◌++◌, arith, ltb, ◌==◌, if◌then◌else◌, if_split,
  String, length, All-map,
}
use job_scheduler_tooling.Prelude.Int.{pos, ◌≤ℤ◌}
use job_scheduler_tooling.Prelude.Dict.{Dict}
use job_scheduler_tooling.Queue.{Time}
use job_scheduler_tooling.Telemetry.{Event}
use job_scheduler_tooling.Devices.{
  Push, Sent, replied, unanswered, Options, Entry, Next, stops, sends, loop_sent, finish, new_entry,
  defaults, accept_ack,
}
use job_scheduler_tooling.Devices.Sim.{SimDevice, receive, deliver, new_device}
use job_scheduler_tooling.Devices.Standing.{
  Standing, Topped, loop_top-Topped, sent-Standing, receive-Standing, is_acked, is_pending,
}
use job_scheduler_tooling.Devices.Delivery.{
  Location, at_top, sending, returned, sleeping, finishing, Delivery, new_delivery, continue_with,
  Step, configured, retried, closed, began, delivered, processed, woke, interrupted, finished,
  Reach, here, next, Fits, Inv, moved-fits,
}
use job_scheduler_tooling.Devices.Delivery.Invariant.{
  configured-Inv, retried-Inv, closed-Inv, parts, moved-Inv, ended-Inv,
}

began-Inv :
    (o : Options) (s : Delivery) (now : Time) (before after : List Location) (e : Entry)
    (events : List Event) (n : Next)
    → Inv o s
    → s.loops ≡ before ++ at_top ∷ after
    → Topped o s.cancelled s.entry.loop_running s.entry.desired_version s.entry.config s.device
        (e, events, n)
    → Inv o (record s { entry = e; loops = before ++ continue_with n after })
began-Inv o s now before after e events stops v at t =
    ended-Inv o s v before after at_top at e t.stands t.running
      (rw (t.desired_is, t.config_is) (parts o s v before after at_top at).1)
began-Inv o s now before after e events (sends p) v at t =
    let (version, config, same) = t.running in
    moved-Inv o s v before after at_top at e s.device (sending p) t.stands same
      (rw (t.desired_is, t.config_is) (parts o s v before after at_top at).1)
      (omega (arith, version), λ _. config)

-- Sending moves the device to no older version, and a reply tells the version it then has.
receive_newer :
    (p : Push) (d : SimDevice)
    → (d.version ≤ (receive p d).0.version) × ((receive p d).1.version ≤ (receive p d).0.version)
unfolding receive
receive_newer p d = ground arith

delivered-Inv :
    (o : Options) (s : Delivery) (drop_push drop_ack : Bool) (err : String) (p : Push)
    (before after : List Location)
    → Inv o s
    → s.loops ≡ before ++ sending p ∷ after
    → Inv o (record s {
      device = (deliver drop_push drop_ack err p s.device).0;
      loops = before ++ returned p (deliver drop_push drop_ack err p s.device).1 ∷ after;
    })
unfolding deliver
delivered-Inv o s true drop_ack err p before after v at =
    moved-Inv o s v before after (sending p) at s.entry s.device _ v.stands refl
      (parts o s v before after (sending p) at).1 tt
delivered-Inv o s false drop_ack err p before after v at =
    let ((le, same), rest) = parts o s v before after (sending p) at in
    let (newer, told) = receive_newer p s.device in
    let go : (r : Sent)
        → Fits s.cancelled s.entry.desired_version s.entry.config (receive p s.device).0.version
            (returned p r)
        → Inv o
            (record s { device = (receive p s.device).0; loops = before ++ returned p r ∷ after }) =
      λ r fit.
        moved-Inv o s v before after (sending p) at s.entry (receive p s.device).0 (returned p r)
          (receive-Standing o s.cancelled s.entry s.device v.stands p le same) refl
          (All-map _ _ (before ++ after) (moved-fits s.cancelled _ _ _ _ newer) rest) fit in
    (elim drop_ack
      as (λ k. Inv o (record s {
        device = (deliver false k err p s.device).0;
        loops = before ++ returned p (deliver false k err p s.device).1 ∷ after;
      })) [ true ↦ go (unanswered err) tt | false ↦ go (replied (receive p s.device).1) told ])

sent_kept :
    (now : Time) (p : Push) (r : Sent) (e : Entry)
    → let e' = (loop_sent now p r e).0.0 in
      (e'.desired_version ≡ e.desired_version)
      × (e'.config ≡ e.config)
      × (e'.loop_running ≡ e.loop_running)
unfolding loop_sent accept_ack
sent_kept now p (unanswered err) e = (refl, refl, refl)
sent_kept now p (replied ack) e =
    let Kept : Entry → Type 0 = λ e'.
      (e'.desired_version ≡ e.desired_version)
      × (e'.config ≡ e.config)
      × (e'.loop_running ≡ e.loop_running) in
    if_split (λ (r : (Entry × List Event) × Bool). Kept r.0.0) (ack.version == e.desired_version)
      (λ _.
        if_split (λ (r : Entry × List Event). Kept r.0) (ltb e.acked_version ack.version)
          (λ _. (refl, refl, refl)) (λ _. (refl, refl, refl)))
      (λ _. (refl, refl, refl))

returned-Standing :
    (o : Options) (c : Bool) (e : Entry) (d : SimDevice) (now : Time) (p : Push) (r : Sent)
    → Standing o c e d
    → Fits c e.desired_version e.config d.version (returned p r)
    → Standing o c (loop_sent now p r e).0.0 d
unfolding loop_sent
returned-Standing o c e d now p (unanswered err) h fit = record {
  behind = h.behind;
  ahead = h.ahead;
  same_config = h.same_config;
  acked = h.acked;
  pending = h.pending;
  failed = h.failed;
  served = h.served;
  bounded = h.bounded;
}
returned-Standing o c e d now p (replied ack) h fit = sent-Standing o c e d h now p ack fit

sleep_or_top :
    (c : Bool) (desired version : ℕ) (config : Dict String) (sleeps : Bool)
    → Fits c desired config version (if sleeps then sleeping else at_top)
sleep_or_top c desired version config true = tt
sleep_or_top c desired version config false = tt

processed-Inv :
    (o : Options) (s : Delivery) (now : Time) (p : Push) (r : Sent) (before after : List Location)
    → Inv o s
    → s.loops ≡ before ++ returned p r ∷ after
    → Inv o (record s {
      entry = (loop_sent now p r s.entry).0.0;
      loops = before ++ (if (loop_sent now p r s.entry).1 then sleeping else at_top) ∷ after;
    })
processed-Inv o s now p r before after v at =
    let (fit, rest) = parts o s v before after (returned p r) at in
    let (desired, config, running) = sent_kept now p r s.entry in
    moved-Inv o s v before after (returned p r) at (loop_sent now p r s.entry).0.0 s.device _
      (returned-Standing o s.cancelled s.entry s.device now p r v.stands fit) running
      (rw (desired, config) rest) (sleep_or_top _ _ _ _ (loop_sent now p r s.entry).1)

finished-Inv :
    (o : Options) (s : Delivery) (before after : List Location)
    → Inv o s
    → s.loops ≡ before ++ finishing ∷ after
    → Inv o (record s { entry = finish s.entry; loops = before ++ after })
unfolding finish
finished-Inv o s before after v at =
    let (over, rest) = parts o s v before after finishing at in
    let h = v.stands in
    ended-Inv o s v before after finishing at _
      (record {
        behind = h.behind;
        ahead = h.ahead;
        same_config = h.same_config;
        acked = h.acked;
        pending = h.pending;
        failed = h.failed;
        served = λ _ k. cc;
        bounded = h.bounded;
      })
      refl rest

Step-Inv : (o : Options) (s s' : Delivery) → Inv o s → Step o s s' → Inv o s'
Step-Inv o s s' v (configured now cfg e) = rw e (configured-Inv o s v now cfg)
Step-Inv o s s' v (retried e) = rw e (retried-Inv o s v)
Step-Inv o s s' v (closed e) = rw e (closed-Inv o s v)
Step-Inv o s s' v (began now before after at e) = rw e (
    began-Inv o s now before after _ _ _ v at
      (loop_top-Topped o s.cancelled s.entry s.device now v.some_left v.stands))
Step-Inv o s s' v (delivered drop_push drop_ack err p before after at e) =
    rw e (delivered-Inv o s drop_push drop_ack err p before after v at)
Step-Inv o s s' v (processed now p r before after at e) =
    rw e (processed-Inv o s now p r before after v at)
Step-Inv o s s' v (woke before after at e) = rw e (
    moved-Inv o s v before after sleeping at s.entry s.device at_top v.stands refl
      (parts o s v before after sleeping at).1 tt)
Step-Inv o s s' v (interrupted before after c at e) = rw e (
    moved-Inv o s v before after sleeping at s.entry s.device finishing v.stands refl
      (parts o s v before after sleeping at).1 c)
Step-Inv o s s' v (finished before after at e) = rw e (finished-Inv o s before after v at)

pub new_delivery-Inv :
    (o : Options) (id : String) → pos 0 ≤ℤ o.max_attempts → Inv o (new_delivery id)
unfolding new_delivery new_entry new_device
new_delivery-Inv o id h = record {
  stands = record {
    behind = omega arith;
    ahead = omega arith;
    same_config = λ _. refl;
    acked = λ k. cc;
    pending = λ k. cc;
    failed = λ k. cc;
    served = λ k. cc;
    bounded = h;
  };
  one_loop = refl;
  fits = tt;
  some_left = h;
}

pub Reach-Inv : (o : Options) (s s' : Delivery) → Inv o s → Reach o s s' → Inv o s'
Reach-Inv o s s' v here = v
Reach-Inv o s s' v (next {u} r t) = Step-Inv o u s' (Reach-Inv o s u v r) t

pub defaults_positive : (o : Options) → pos 0 ≤ℤ (defaults o).max_attempts
unfolding defaults
defaults_positive o = ground arith

-- Whatever is configured, retried, lost, delivered late or closed, in a run of a new entry and its
-- device under the options that NewRegistry completes: when the entry says acked, the device runs
-- the desired version with the desired configuration.
pub acked-Delivered :
    (options : Options) (id : String) (s : Delivery)
    → Reach (defaults options) (new_delivery id) s
    → is_acked s.entry.state ≡ true
    → (s.device.version ≡ s.entry.desired_version) × (s.device.config ≡ s.entry.config)
acked-Delivered options id s r a =
    let v = Reach-Inv _ _ s (new_delivery-Inv _ id (defaults_positive options)) r in
    let same : s.device.version ≡ s.entry.desired_version =
      omega (arith, v.stands.acked a, v.stands.behind, v.stands.ahead) in
    (same, v.stands.same_config same)

-- In every run of a new entry and its device, under the options that NewRegistry completes: there is
-- never more than one push loop for the device, and the pushes counted are no more than MaxAttempts.
pub loops-Bounded :
    (options : Options) (id : String) (s : Delivery)
    → Reach (defaults options) (new_delivery id) s
    → (length s.loops ≤ 1) × (pos s.entry.attempts ≤ℤ (defaults options).max_attempts)
loops-Bounded options id s r =
    let v = Reach-Inv _ _ s (new_delivery-Inv _ id (defaults_positive options)) r in
    (ground (arith, v.one_loop), v.stands.bounded)

-- In every run of a new entry and its device, under the options that NewRegistry completes: as long
-- as the registry is open, a device whose entry is pending has exactly one push loop, so that no
-- configuration waits without one.
pub pending-Served :
    (options : Options) (id : String) (s : Delivery)
    → Reach (defaults options) (new_delivery id) s
    → is_pending s.entry.state ≡ true
    → s.cancelled ≡ false
    → length s.loops ≡ 1
pending-Served options id s r k c =
    let v = Reach-Inv _ _ s (new_delivery-Inv _ id (defaults_positive options)) r in
    rw (v.stands.served k c) at v.one_loop
