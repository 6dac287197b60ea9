-- ===== src/Devices/Delivery.antt =====
-- A device and its entry under any interleaving of the registry's callers, of the push loops that
-- they start, and of the network. Every step is one critical section, one delivery, or a sleep's end.
pub mod Invariant
pub mod Runs
use job_scheduler_tooling.Prelude.{
  ℕ, ◌+◌, ◌≤◌, ◌≡◌, refl, Bool, true, false, not, List, [], ◌∷◌, ◌++◌, arith, if◌then◌else◌, String,
  length, length-append, All, All-append,
}
use job_scheduler_tooling.Prelude.Int.{ℤ, pos, ◌≤ℤ◌}
use job_scheduler_tooling.Prelude.Dict.{Dict}
use job_scheduler_tooling.Queue.{Time}
use job_scheduler_tooling.Devices.{
  Push, Sent, replied, unanswered, Options, Entry, Change, Next, stops, sends, set_config, retry,
  loop_top, loop_sent, finish, new_entry,
}
use job_scheduler_tooling.Devices.Sim.{SimDevice, deliver, new_device}
use job_scheduler_tooling.Devices.Standing.{Standing}

-- Where a push loop is.
pub data Location : Type 0 where
  at_top : Location
  sending : Push → Location
  returned : Push → Sent → Location
  sleeping : Location
  finishing : Location

pub record Delivery : Type 0 where
  pub entry : Entry
  pub loops : List Location
  pub cancelled : Bool
  pub device : SimDevice

unfoldable pub new_delivery : String → Delivery
new_delivery id = record {
  entry = new_entry id;
  loops = [];
  cancelled = false;
  device = new_device id;
}

abbrev pub spawn : Bool → List Location → List Location
spawn true ls = ls ++ at_top ∷ []
spawn false ls = ls

abbrev pub changed : Change → Delivery → Delivery
changed c s = record s { entry = c.entry; loops = spawn c.starts s.loops }

abbrev pub continue_with : Next → List Location → List Location
continue_with stops ls = ls
continue_with (sends p) ls = sending p ∷ ls

pub data Step (o : Options) (s s' : Delivery) : Type 0 where
  configured :
      (now : Time) (cfg : Dict String) → s' ≡ changed (set_config now cfg s.entry) s → Step o s s'
  retried : s' ≡ changed (retry s.entry) s → Step o s s'
  closed : s' ≡ record s { cancelled = true } → Step o s s'
  began :
      (now : Time) (before after : List Location)
      → s.loops ≡ before ++ at_top ∷ after
      → s' ≡ (
          let (e, _, n) = loop_top o s.cancelled now s.entry in
          record s { entry = e; loops = before ++ continue_with n after })
      → Step o s s'
  delivered :
      (drop_push drop_ack : Bool) (err : String) (p : Push) (before after : List Location)
      → s.loops ≡ before ++ sending p ∷ after
      → s' ≡ (
          let (d, r) = deliver drop_push drop_ack err p s.device in
          record s { device = d; loops = before ++ returned p r ∷ after })
      → Step o s s'
  processed :
      (now : Time) (p : Push) (r : Sent) (before after : List Location)
      → s.loops ≡ before ++ returned p r ∷ after
      → s' ≡ (
          let ((e, _), sleeps) = loop_sent now p r s.entry in
          record s { entry = e; loops = before ++ (if sleeps then sleeping else at_top) ∷ after })
      → Step o s s'
  woke :
      (before after : List Location)
      → s.loops ≡ before ++ sleeping ∷ after
      → s' ≡ record s { loops = before ++ at_top ∷ after }
      → Step o s s'
  interrupted :
      (before after : List Location)
      → s.cancelled ≡ true
      → s.loops ≡ before ++ sleeping ∷ after
      → s' ≡ record s { loops = before ++ finishing ∷ after }
      → Step o s s'
  finished :
      (before after : List Location)
      → s.loops ≡ before ++ finishing ∷ after
      → s' ≡ record s { entry = finish s.entry; loops = before ++ after }
      → Step o s s'

pub data Reach (o : Options) (s : Delivery) : Delivery → Type 0 where
  here : Reach o s s
  next : {u v : Delivery} → Reach o s u → Step o u v → Reach o s v

-- What is on its way is no newer than what is desired, and no newer than the device when it comes
-- from there.
abbrev pub Fits : Bool → ℕ → Dict String → ℕ → Location → Type 0
Fits c desired config version at_top = Unit
Fits c desired config version (sending p) =
    (p.version ≤ desired) × (p.version ≡ desired → p.config ≡ config)
Fits c desired config version (returned p (replied a)) = a.version ≤ version
Fits c desired config version (returned p (unanswered err)) = Unit
Fits c desired config version sleeping = Unit
Fits c desired config version finishing = c ≡ true

pub record Inv (o : Options) (s : Delivery) : Type 0 where
  pub stands : Standing o s.cancelled s.entry s.device
  pub one_loop : length s.loops ≡ (if s.entry.loop_running then 1 else 0)
  pub fits : All (Fits s.cancelled s.entry.desired_version s.entry.config s.device.version) s.loops
  pub some_left : pos 0 ≤ℤ o.max_attempts

ensured-one_loop :
    (running : Bool) (ls : List Location)
    → length ls ≡ (if running then 1 else 0)
    → length (spawn (not running) ls) ≡ 1
ensured-one_loop true ls h = h
ensured-one_loop false ls h = omega (arith, h, length-append ls (at_top ∷ []))

spawn-fits :
    (starts : Bool) (ls : List Location) (c : Bool) (desired : ℕ) (config : Dict String)
    (version : ℕ)
    → All (Fits c desired config version) ls
    → All (Fits c desired config version) (spawn starts ls)
spawn-fits true ls c desired config version h = All-append _ ls (at_top ∷ []) h (tt, tt)
spawn-fits false ls c desired config version h = h

-- A configuration that is newer than all on the way.
newer-fits :
    (c : Bool) (desired version : ℕ) (config config' : Dict String) (l : Location)
    → Fits c desired config version l
    → Fits c (desired + 1) config' version l
newer-fits c desired version config config' at_top h = tt
newer-fits c desired version config config' (sending p) (le, _) =
    (omega (arith, le), λ k. absurd (omega (arith, k, le)))
newer-fits c desired version config config' (returned p (replied a)) h = h
newer-fits c desired version config config' (returned p (unanswered err)) h = tt
newer-fits c desired version config config' sleeping h = tt
newer-fits c desired version config config' finishing h = h

closed-fits :
    (c : Bool) (desired version : ℕ) (config : Dict String) (l : Location)
    → Fits c desired config version l
    → Fits true desired config version l
closed-fits c desired version config at_top h = tt
closed-fits c desired version config (sending p) h = h
closed-fits c desired version config (returned p (replied a)) h = h
closed-fits c desired version config (returned p (unanswered err)) h = tt
closed-fits c desired version config sleeping h = tt
closed-fits c desired version config finishing h = refl

-- A device only moves to newer versions.
moved-fits :
    (c : Bool) (desired version version' : ℕ) (config : Dict String)
    → version ≤ version'
    → (l : Location) → Fits c desired config version l
    → Fits c desired config version' l
moved-fits c desired version version' config le at_top h = tt
moved-fits c desired version version' config le (sending p) h = h
moved-fits c desired version version' config le (returned p (replied a)) h = omega (arith, h, le)
moved-fits c desired version version' config le (returned p (unanswered err)) h = tt
moved-fits c desired version version' config le sleeping h = tt
moved-fits c desired version version' config le finishing h = h
