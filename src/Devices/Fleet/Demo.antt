-- ===== src/Devices/Fleet/Demo.antt =====
-- The setup and the demo of cmd/devices/main.go leave every device at the version it was given.
use job_scheduler_tooling.Prelude.{
  ℕ, zero, suc, ◌+◌, ◌/◌, ◌==◌, ◌≤◌, ◌<◌, ◌≡◌, refl, ap, ◌∙◌, String, Bool, true, false, ◌&&◌, ◌∷◌,
  Option, none, some, arith, ltb, leb, if◌then◌else◌, str_eq, take, length, Bool-cases, inl, inr,
  sym, eq_refl, option_split, subst, eq_iff,
}
use job_scheduler_tooling.Prelude.Dict.{Dict, lookup, insert, lookup-insert}
use job_scheduler_tooling.Prelude.Dict.Keys.{Has, insert-Has, lookup-insert_other}
use job_scheduler_tooling.Prelude.Partial.{Yields, yields, Yields-weaken}
use job_scheduler_tooling.Text.Decimal.{numbered_02-injective}
use job_scheduler_tooling.Queue.{Time}
use job_scheduler_tooling.Telemetry.{Recorder}
use job_scheduler_tooling.Devices.{Options, Entry, new_entry, set_config, ensure_loop}
use job_scheduler_tooling.Devices.Registry.{
  Registry, new_registry, register, set_config_of, set_config_found, apply_change, status,
}
use job_scheduler_tooling.Devices.Network.{SimNetwork, add_device}
use job_scheduler_tooling.Devices.Sim.{new_device}
use job_scheduler_tooling.Devices.Fleet.{
  camera, camera_ids, Fleet, set_up, configure, run_demo, shown, version_of, main_fleet,
}

abbrev next_version : Option ℕ → Option ℕ
next_version none = none
next_version (some v) = some (v + 1)

same_camera : (j k : ℕ) → str_eq (camera j) (camera k) ≡ (j == k)
same_camera j k = elim (Bool-cases (str_eq (camera j) (camera k))) [
  | inl e ↦
      let same = numbered_02-injective "cam-" j k ((eq_iff (camera j) (camera k)).0 e) in
      ground (arith, e, same)
  | inr e ↦ elim (Bool-cases (j == k)) [
    | inl same ↦
        let n : j ≡ k = ground (arith, same) in cc ((eq_iff (camera j) (camera k)).1 (ap camera n))
    | inr other ↦ rw (e, other) refl
  ]
]

found-version :
    (now : Time) (id j : String) (cfg : Dict String) (r : Registry) (o : Option Entry)
    → lookup id r.devs ≡ o
    → shown (lookup j (set_config_found now id cfg r o).0.devs)
      ≡ (if str_eq id j then next_version (shown o) else shown (lookup j r.devs))
unfolding set_config_found apply_change
found-version now id j cfg r none h = elim (Bool-cases (str_eq id j)) [
  | inl e ↦
      let same : id ≡ j = (eq_iff id j).0 e in
      rw e (ap (λ i. shown (lookup i r.devs)) (sym same) ∙ ap shown h)
  | inr e ↦ rw e refl
]
found-version now id j cfg r (some e) h = elim (Bool-cases (str_eq id j)) [
  | inl same ↦
      rw (lookup-insert id j (set_config now cfg e).entry r.devs, same)
        (unfold set_config ensure_loop in refl)
  | inr other ↦ rw (lookup-insert id j (set_config now cfg e).entry r.devs, other) refl
]

set_config-version :
    (now : Time) (id j : String) (cfg : Dict String) (r : Registry)
    → version_of j (set_config_of now id cfg r).0
      ≡ (if str_eq id j then next_version (version_of id r) else version_of j r)
unfolding set_config_of status
set_config-version now id j cfg r = found-version now id j cfg r (lookup id r.devs) refl

configure-version :
    (cfg : String → Dict String) (now : Time) (n k j : ℕ) (r : Registry)
    → version_of (camera j) (configure cfg now (camera_ids n k) r) ≡ (
        if leb k j && ltb j (k + n)
        then next_version (version_of (camera j) r)
        else version_of (camera j) r)
unfolding configure camera_ids
configure-version cfg now zero k j r = ground arith
configure-version cfg now (suc n) k j r =
    let r' = (set_config_of now (camera k) (cfg (camera k)) r).0 in
    let rest = configure-version cfg now n (k + 1) j r' in
    let one = set_config-version now (camera k) (camera j) (cfg (camera k)) r in
    ground (arith, rest, one, same_camera k j)

take-camera_ids : (h n k : ℕ) → h ≤ n → take h (camera_ids n k) ≡ camera_ids h k
unfolding camera_ids
take-camera_ids zero n k le = refl
take-camera_ids (suc h) zero k le = absurd (omega (arith, le))
take-camera_ids (suc h) (suc n) k le =
    ap (λ ids. camera k ∷ ids) (take-camera_ids h n (k + 1) (omega (arith, le)))

length-camera_ids : (n k : ℕ) → length (camera_ids n k) ≡ n
unfolding camera_ids
length-camera_ids zero k = refl
length-camera_ids (suc n) k = omega (arith, length-camera_ids n (k + 1))

abbrev IsFree : ℕ → Fleet → Type 0
IsFree k f = (j : ℕ) → k ≤ j → lookup (camera j) f.registry.devs ≡ none

-- One device more.
abbrev with_camera : ℕ → Fleet → Fleet
with_camera k f = record {
  network = add_device (camera k) f.network;
  registry = (register (camera k) f.registry).0;
}

other_camera : (j k : ℕ) → k < j → str_eq (camera k) (camera j) ≡ false
other_camera j k lt = ground (arith, same_camera k j, lt)

register-devs :
    (id : String) (r : Registry)
    → lookup id r.devs ≡ none
    → (register id r).0.devs ≡ insert id (new_entry id) r.devs
unfolding register
register-devs id r h =
    option_split (λ (x : Registry × Bool). x.0.devs ≡ insert id (new_entry id) r.devs)
      (lookup id r.devs) (λ _. refl) (λ e found. cc (h, found))

with_camera-IsFree : (k : ℕ) (f : Fleet) → IsFree k f → IsFree (k + 1) (with_camera k f)
with_camera-IsFree k f free j le = rw (register-devs (camera k) f.registry (free k (omega arith))) (
    lookup-insert_other (camera k) (camera j) (new_entry (camera k)) f.registry.devs
      (other_camera j k (omega (arith, le)))
    ∙ free j (omega (arith, le)))

register-taken : (id : String) (r : Registry) → lookup id r.devs ≡ none → (register id r).1 ≡ true
unfolding register
register-taken id r h =
    option_split (λ (x : Registry × Bool). x.1 ≡ true) (lookup id r.devs) (λ _. refl)
      (λ e found. cc (h, found))

set_up-next :
    (n k : ℕ) (f : Fleet)
    → IsFree k f
    → set_up (camera_ids (suc n) k) f ≡ set_up (camera_ids n (k + 1)) (with_camera k f)
unfolding set_up camera_ids
set_up-next n k f free = rw (register-taken (camera k) f.registry (free k (omega arith))) refl

-- What is there of a device of main once it is set up.
abbrev IsReady : ℕ → Fleet → Type 0
IsReady j f = (version_of (camera j) f.registry ≡ some 0) × Has f.network.devices (camera j)

own_version :
    (k : ℕ) (f : Fleet)
    → shown (lookup (camera k) (insert (camera k) (new_entry (camera k)) f.registry.devs)) ≡ some 0
unfolding new_entry
own_version k f =
    rw
      (
        lookup-insert (camera k) (camera k) (new_entry (camera k)) f.registry.devs,
        eq_refl (camera k),
      )
      refl

insert_own : (k : ℕ) (f : Fleet) → Has (with_camera k f).network.devices (camera k)
unfolding add_device
insert_own k f = (
  new_device (camera k),
  rw
      (
        lookup-insert (camera k) (camera k) (new_device (camera k)) f.network.devices,
        eq_refl (camera k),
      )
      refl,
)

older_version :
    (j k : ℕ) (f : Fleet)
    → j < k
    → shown (lookup (camera j) (insert (camera k) (new_entry (camera k)) f.registry.devs))
      ≡ shown (lookup (camera j) f.registry.devs)
older_version j k f lt =
    let other : str_eq (camera k) (camera j) ≡ false = ground (arith, same_camera k j, lt) in
    ap shown
      (lookup-insert_other (camera k) (camera j) (new_entry (camera k)) f.registry.devs other)

with_camera-IsReady :
    (k : ℕ) (f : Fleet)
    → IsFree k f
    → IsReady k (with_camera k f) × ((j : ℕ) → j < k → IsReady j f → IsReady j (with_camera k f))
unfolding status add_device
with_camera-IsReady k f free =
    let devs = register-devs (camera k) f.registry (free k (omega arith)) in
    rw devs (
      (own_version k f, insert_own k f),
      λ j lt (v, h).
          (older_version j k f lt ∙ v, insert-Has (camera k) (camera j) _ f.network.devices h),
    )

set_up-IsReady :
    (n k : ℕ) (f : Fleet)
    → IsFree k f
    → ((j : ℕ) → j < k → 0 < j → IsReady j f)
    → Yields (λ g. (j : ℕ) → j < k + n → 0 < j → IsReady j g) (set_up (camera_ids n k) f)
unfolding set_up camera_ids
set_up-IsReady zero k f free ready = yields (λ j lt. ready j (omega (arith, lt)))
set_up-IsReady (suc n) k f free ready =
    let (own, older) = with_camera-IsReady k f free in
    let rest = set_up-IsReady n (k + 1) (with_camera k f) (with_camera-IsFree k f free) (λ j lt pos.
      elim (Bool-cases (j == k)) [
        | inl same ↦
            let e : k ≡ j = ground (arith, same) in subst (λ i. IsReady i (with_camera k f)) e own
        | inr other ↦
            let less : j < k = ground (arith, lt, other) in older j less (ready j less pos)
      ]) in
    let size : k + 1 + n ≡ k + suc n = omega arith in rw (set_up-next n k f free) (rw size at rest)

-- The command with any number of devices: every registration succeeds, each device is on the network,
-- and, as long as the push loops leave the desired versions alone, the demo leaves each device at
-- version 1, and those of the first half at version 2.
pub demo-Versions :
    (n : ℕ) (opts : Options) (recorder : Recorder) (network : SimNetwork)
    (first second : String → Dict String) (between : Registry → Registry) (now : Time)
    → ((r : Registry) (id : String) → version_of id (between r) ≡ version_of id r)
    → Yields
        (λ f.
          (j : ℕ)
          → 0 < j
          → j ≤ n
          → Has f.network.devices (camera j)
            × (version_of (camera j) (run_demo first second between now (camera_ids n 1) f.registry)
                ≡ some (if leb j (n / 2) then 2 else 1)))
        (main_fleet n opts recorder network)
unfolding main_fleet run_demo
demo-Versions n opts recorder network first second between now keeps =
    Yields-weaken
      (set_up-IsReady n 1 (record { network = network; registry = new_registry recorder opts })
        (λ j le. unfold new_registry lookup in refl) (λ j lt pos. absurd (omega (arith, lt, pos))))
      (λ f ready j pos le.
        let (zero_version, there) = ready j (omega (arith, le)) pos in
        let one = configure-version first now n 1 j f.registry in
        let mid = configure first now (camera_ids n 1) f.registry in
        let two = configure-version second now (n / 2) 1 j (between mid) in
        let same = keeps mid (camera j) in
        (
          there,
          rw (length-camera_ids n 1, take-camera_ids (n / 2) n 1 (omega arith))
              (ground (arith, zero_version, one, two, same, pos, le)),
        ))
