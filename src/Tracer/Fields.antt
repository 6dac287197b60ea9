-- ===== src/Tracer/Fields.antt =====
-- What a device's events make of its row in cmd/tracer/main.go, field by field.
use job_scheduler_tooling.Prelude.{
  ℕ, ◌+◌, ◌≡◌, refl, ◌∙◌, String, ◌&&◌, List, [], ◌∷◌, Option, none, some, arith, str_eq, eq_iff,
  if◌then◌else◌, Bool-cases, inl, inr,
}
use job_scheduler_tooling.Prelude.Int.{ℤ, pos, ltb_ℤ, eqb_ℤ, ◌≤ℤ◌}
use job_scheduler_tooling.Tracer.{Event, DeviceRow, new_row, update_row}

unfoldable pub row_from : DeviceRow → List Event → DeviceRow
row_from r [] = r
row_from r (e ∷ events) = row_from (update_row r e) events

-- The version of the last event of this type.
unfoldable pub last_version : String → List Event → Option ℤ
last_version type [] = none
last_version type (e ∷ events) = elim (last_version type events) [
  | some v ↦ some v
  | none ↦ if str_eq e.event_type type then some e.version else none
]

abbrev pub version_or : ℤ → Option ℤ → ℤ
version_or before none = before
version_or before (some v) = v

-- How many events are of this type.
unfoldable pub count_of : String → List Event → ℕ
count_of type [] = 0
count_of type (e ∷ events) = (if str_eq e.event_type type then 1 else 0) + count_of type events

abbrev pub max_ℤ : ℤ → ℤ → ℤ
max_ℤ a b = if ltb_ℤ a b then b else a

-- The highest version of an acked event, and 0 at least.
abbrev pub acked_version : Event → ℤ
acked_version e = if str_eq e.event_type "acked" then e.version else pos 0

unfoldable pub highest_acked : List Event → ℤ
highest_acked [] = pos 0
highest_acked (e ∷ events) = max_ℤ (acked_version e) (highest_acked events)

-- The attempt of the last push of the version that is desired when it is made, if no config_set comes
-- after it; 0 if one does.
unfoldable pub last_attempt : ℤ → List Event → Option ℤ
last_attempt desired [] = none
last_attempt desired (e ∷ events) =
    let is_config = str_eq e.event_type "config_set" in
    let is_push = str_eq e.event_type "push" && eqb_ℤ e.version desired in
    elim (last_attempt (if is_config then e.version else desired) events) [
      | some a ↦ some a
      | none ↦ if is_config then some (pos 0) else if is_push then some e.attempt else none
    ]

-- The row that these events of a device come to.
pub record IsRow (id : String) (events : List Event) (r : DeviceRow) : Type 0 where
  pub named : r.id ≡ id
  pub desired : r.desired ≡ version_or (pos 0) (last_version "config_set" events)
  pub attempts : r.attempts ≡ version_or (pos 0) (last_attempt (pos 0) events)
  pub acked : r.acked ≡ highest_acked events
  pub failed_at : r.failed_at ≡ version_or (pos 0) (last_version "push_failed" events)
  pub timeouts : r.timeouts ≡ count_of "ack_timeout" events
  pub dup_ignored : r.dup_ignored ≡ count_of "duplicate_ignored_by_device" events
  pub stale_acks : r.stale_acks ≡ count_of "stale_ack_ignored" events

-- A field that an event of one type sets to its version.
row_from-last :
    (field : DeviceRow → ℤ) (type : String)
    → ((r : DeviceRow) (e : Event)
        → field (update_row r e) ≡ (if str_eq e.event_type type then e.version else field r))
    → (r : DeviceRow) (events : List Event)
    → field (row_from r events) ≡ version_or (field r) (last_version type events)
unfolding row_from last_version
row_from-last field type step r [] = refl
row_from-last field type step r (e ∷ events) =
    row_from-last field type step (update_row r e) events ∙ (rw (step r e) (ground arith))

-- A field that counts the events of one type.
row_from-count :
    (field : DeviceRow → ℕ) (type : String)
    → ((r : DeviceRow) (e : Event)
        → field (update_row r e) ≡ field r + (if str_eq e.event_type type then 1 else 0))
    → (r : DeviceRow) (events : List Event)
    → field (row_from r events) ≡ field r + count_of type events
unfolding row_from count_of
row_from-count field type step r [] = omega arith
row_from-count field type step r (e ∷ events) =
    row_from-count field type step (update_row r e) events ∙ omega (arith, step r e)

max_assoc : (a b c : ℤ) → max_ℤ (max_ℤ a b) c ≡ max_ℤ a (max_ℤ b c)
max_assoc a b c = ground arith

highest_acked-low : (events : List Event) → pos 0 ≤ℤ highest_acked events
unfolding highest_acked
highest_acked-low [] = omega arith
highest_acked-low (e ∷ events) = ground (arith, highest_acked-low events)

acked-step :
    (r : DeviceRow) (e : Event)
    → pos 0 ≤ℤ r.acked
    → (update_row r e).acked ≡ max_ℤ r.acked (acked_version e)
unfolding update_row
acked-step r e low = elim (Bool-cases (str_eq e.event_type "acked")) [
  | inl is ↦ rw ((eq_iff e.event_type "acked").0 is) (ground arith)
  | inr other ↦ rw other (ground (arith, low))
]

row_from-acked :
    (r : DeviceRow) (events : List Event)
    → pos 0 ≤ℤ r.acked
    → (row_from r events).acked ≡ max_ℤ r.acked (highest_acked events)
unfolding row_from highest_acked
row_from-acked r [] low = ground (arith, low)
row_from-acked r (e ∷ events) low =
    let step = acked-step r e low in
    row_from-acked (update_row r e) events (rw step (ground (arith, low)))
    ∙ (rw step (max_assoc r.acked (acked_version e) (highest_acked events)))

pub row_from-id : (r : DeviceRow) (events : List Event) → (row_from r events).id ≡ r.id
unfolding row_from update_row
row_from-id r [] = refl
row_from-id r (e ∷ events) = row_from-id (update_row r e) events ∙ (ground arith)

failed_at-step :
    (r : DeviceRow) (e : Event)
    → (update_row r e).failed_at
      ≡ (if str_eq e.event_type "push_failed" then e.version else r.failed_at)
unfolding update_row
failed_at-step r e = elim (Bool-cases (str_eq e.event_type "push_failed")) [
  | inl is ↦ rw ((eq_iff e.event_type "push_failed").0 is) refl
  | inr other ↦ rw other (ground arith)
]

timeouts-step :
    (r : DeviceRow) (e : Event)
    → (update_row r e).timeouts ≡ r.timeouts + (if str_eq e.event_type "ack_timeout" then 1 else 0)
unfolding update_row
timeouts-step r e = elim (Bool-cases (str_eq e.event_type "ack_timeout")) [
  | inl is ↦ rw ((eq_iff e.event_type "ack_timeout").0 is) refl
  | inr other ↦ rw other (ground arith)
]

dup_ignored-step :
    (r : DeviceRow) (e : Event)
    → (update_row r e).dup_ignored
      ≡ r.dup_ignored + (if str_eq e.event_type "duplicate_ignored_by_device" then 1 else 0)
unfolding update_row
dup_ignored-step r e = elim (Bool-cases (str_eq e.event_type "duplicate_ignored_by_device")) [
  | inl is ↦ rw ((eq_iff e.event_type "duplicate_ignored_by_device").0 is) refl
  | inr other ↦ rw other (ground arith)
]

stale_acks-step :
    (r : DeviceRow) (e : Event)
    → (update_row r e).stale_acks
      ≡ r.stale_acks + (if str_eq e.event_type "stale_ack_ignored" then 1 else 0)
unfolding update_row
stale_acks-step r e = elim (Bool-cases (str_eq e.event_type "stale_ack_ignored")) [
  | inl is ↦ rw ((eq_iff e.event_type "stale_ack_ignored").0 is) refl
  | inr other ↦ rw other (ground arith)
]

desired-step :
    (r : DeviceRow) (e : Event)
    → (update_row r e).desired ≡ (if str_eq e.event_type "config_set" then e.version else r.desired)
unfolding update_row
desired-step r e = ground arith

attempts-step :
    (r : DeviceRow) (e : Event)
    → (update_row r e).attempts ≡ (
        if str_eq e.event_type "config_set"
        then pos 0
        else if str_eq e.event_type "push" && eqb_ℤ e.version r.desired
        then e.attempt
        else r.attempts)
unfolding update_row
attempts-step r e = ground arith

row_from-attempts :
    (r : DeviceRow) (events : List Event)
    → (row_from r events).attempts ≡ version_or r.attempts (last_attempt r.desired events)
unfolding row_from last_attempt
row_from-attempts r [] = refl
row_from-attempts r (e ∷ events) =
    row_from-attempts (update_row r e) events
    ∙ (rw (attempts-step r e, desired-step r e) (ground arith))

pub row_from-IsRow :
    (id : String) (events : List Event) → IsRow id events (row_from (new_row id) events)
unfolding new_row
row_from-IsRow id events = record {
  named = row_from-id (new_row id) events;
  desired = row_from-last (λ r. r.desired) "config_set" desired-step (new_row id) events;
  attempts = row_from-attempts (new_row id) events;
  acked =
      row_from-acked (new_row id) events (omega arith) ∙ ground (arith, highest_acked-low events);
  failed_at = row_from-last (λ r. r.failed_at) "push_failed" failed_at-step (new_row id) events;
  timeouts =
      row_from-count (λ r. r.timeouts) "ack_timeout" timeouts-step (new_row id) events
      ∙ omega arith;
  dup_ignored =
      row_from-count (λ r. r.dup_ignored) "duplicate_ignored_by_device" dup_ignored-step
        (new_row id) events
      ∙ omega arith;
  stale_acks =
      row_from-count (λ r. r.stale_acks) "stale_ack_ignored" stale_acks-step (new_row id) events
      ∙ omega arith;
}
