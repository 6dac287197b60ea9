-- ===== src/Tracer/Status.antt =====
-- The rows that deviceStatus of cmd/tracer/main.go returns.
use job_scheduler_tooling.Prelude.{
  ◌+◌, ◌<◌, ◌≡◌, refl, ap, ◌∙◌, String, true, false, ◌||◌, List, [], ◌∷◌, ◌⊎◌, Option, none, some,
  arith, ltb, str_eq, eq_iff, eq_refl, if◌then◌else◌, if_split, Bool-cases, inl, inr,
}
use job_scheduler_tooling.Prelude.Dict.{Dict, lookup}
use job_scheduler_tooling.Prelude.Sort.{sort, insert_sorted}
use job_scheduler_tooling.Text.{less_text}
use job_scheduler_tooling.Queue.{Time}
use job_scheduler_tooling.Tracer.{
  Event, DeviceRow, new_row, fill_rows, collect_rows, device_status, earlier,
}
use job_scheduler_tooling.Tracer.Fields.{row_from, row_from-id, IsRow, row_from-IsRow}
use job_scheduler_tooling.Tracer.Ids.{count, ListsOnce}
use job_scheduler_tooling.Tracer.Order.{
  IsInTime, at_time, sort-IsInTime, at_time-sort, sort_in_time, IsAscending, sort-IsAscending,
}
use job_scheduler_tooling.Tracer.Times.{occurs}
use job_scheduler_tooling.Tracer.Rows.{
  device_key, of_device, device_row, lookup-device_row, order-ListsOnce,
}

-- One row for each of these devices, in their order.
abbrev pub Shows : List Event → List String → List (Option DeviceRow) → Type 0
Shows sorted [] [] = Unit
Shows sorted [] (_ ∷ _) = ⊥
Shows sorted (id ∷ ids) [] = ⊥
Shows sorted (id ∷ ids) (none ∷ rows) = ⊥
Shows sorted (id ∷ ids) (some r ∷ rows) = IsRow id (of_device id sorted) r × Shows sorted ids rows

-- The log put in order of time, the events of one time in the order of the log.
abbrev pub IsLogInTime : List Event → List Event → Type 0
IsLogInTime events sorted = IsInTime sorted × ((t : Time) → at_time t sorted ≡ at_time t events)

abbrev pub IsStatus : List Event → List (Option DeviceRow) → Type 0
IsStatus events rows =
    (ids : List String) × (sorted : List Event) × ListsOnce (λ id. occurs events (device_key id))
      ids
    × IsAscending ids
    × IsLogInTime events sorted
    × Shows sorted ids rows

occurs-insert :
    (key : String) (e : Event) (events : List Event)
    → occurs (insert_sorted earlier e events) key ≡ occurs (e ∷ events) key
unfolding occurs insert_sorted
occurs-insert key e [] = refl
occurs-insert key e (f ∷ events) =
    if_split (λ l. occurs l key ≡ occurs (e ∷ f ∷ events) key) (earlier f e)
      (λ _. ground (arith, occurs-insert key e events)) (λ _. refl)

occurs-sort :
    (key : String) (events : List Event) → occurs (sort earlier events) key ≡ occurs events key
unfolding occurs sort
occurs-sort key [] = refl
occurs-sort key (e ∷ events) =
    occurs-insert key e (sort earlier events)
    ∙ ap (λ b. str_eq e.job_id key || b) (occurs-sort key events)

occurs-of_device :
    (id : String) (events : List Event)
    → occurs events (device_key id) ≡ true
    → ¬ (of_device id events ≡ [])
unfolding occurs of_device
occurs-of_device id [] h = cc h
occurs-of_device id (e ∷ events) h = elim (Bool-cases (str_eq e.job_id (device_key id))) [
  | inl is ↦ rw is (λ k. cc k)
  | inr other ↦ rw other (occurs-of_device id events (rw other at h))
]

absent-of_device :
    (id : String) (events : List Event)
    → occurs events (device_key id) ≡ false
    → of_device id events ≡ []
unfolding occurs of_device
absent-of_device id [] h = refl
absent-of_device id (e ∷ events) h = elim (Bool-cases (str_eq e.job_id (device_key id))) [
  | inl is ↦ absurd (cc (rw is at h))
  | inr other ↦ rw other (absent-of_device id events (rw other at h))
]

-- A device that the log names has a row.
occurs-device_row :
    (id : String) (events : List Event)
    → occurs events (device_key id) ≡ true
    → (r : DeviceRow) × (device_row id (of_device id events) ≡ some r)
      × IsRow id (of_device id events) r
occurs-device_row id events h = found (of_device id events) (occurs-of_device id events h)
  where
    found :
        (l : List Event) → ¬ (l ≡ []) → (r : DeviceRow) × (device_row id l ≡ some r) × IsRow id l r
    found [] k = absurd (k refl)
    found (e ∷ l) k =
        (row_from (new_row id) (e ∷ l), unfold device_row in refl, row_from-IsRow id (e ∷ l))

collect_rows-Shows :
    (sorted : List Event) (rows : Dict DeviceRow) (ids : List String)
    → ((id : String) → lookup id rows ≡ device_row id (of_device id sorted))
    → ((id : String) → 0 < count id ids → occurs sorted (device_key id) ≡ true)
    → Shows sorted ids (collect_rows rows ids)
unfolding collect_rows
collect_rows-Shows sorted rows [] at named = tt
collect_rows-Shows sorted rows (id ∷ ids) at named =
    let (r, is, row) = occurs-device_row id sorted (named id (ground (arith, eq_refl id))) in
    rw (at id ∙ is)
      (row, collect_rows-Shows sorted rows ids at (λ j more. named j (omega (arith, more))))

-- The rows of deviceStatus: there is one for each device that an event of the log is about, and no
-- other, and they stand in the order of the IDs. A row is what the device's own events say, taken in
-- the order of their times, and those of one time in the order of the log: the desired version is that
-- of the last config_set, the acked one the highest of the acked events, failedAt that of the last
-- push_failed, the attempts those of the last push of the desired version since the last config_set,
-- each 0 where there is no such event, and the three counters count their events.
pub device_status-IsStatus : (events : List Event) → IsStatus events (device_status events)
unfolding device_status
device_status-IsStatus events =
    let sorted : List Event = sort earlier events in
    let ids : List String = sort less_text (fill_rows [] [] sorted).1 in
    let once = order-ListsOnce sorted in
    (
      ids,
      sorted,
      λ id. once id ∙ rw (occurs-sort (device_key id) events) refl,
      sort-IsAscending (fill_rows [] [] sorted).1,
      (sort-IsInTime events, λ t. at_time-sort t events),
      collect_rows-Shows sorted (fill_rows [] [] sorted).0 ids (λ id. lookup-device_row id sorted)
          (λ id more. ground (arith, once id, more)),
    )

-- The row of a device in a list of rows.
unfoldable pub row_for : String → List (Option DeviceRow) → Option DeviceRow
row_for id [] = none
row_for id (none ∷ rows) = row_for id rows
row_for id (some r ∷ rows) = let rest = row_for id rows in if str_eq r.id id then some r else rest

device_row-cases :
    (id : String) (events : List Event)
    → (device_row id events ≡ none)
      ⊎ ((r : DeviceRow) × (device_row id events ≡ some r) × (r.id ≡ id))
unfolding device_row new_row
device_row-cases id [] = inl refl
device_row-cases id (e ∷ events) =
    inr (row_from (new_row id) (e ∷ events), refl, row_from-id (new_row id) (e ∷ events))

row_for-collect :
    (id : String) (sorted : List Event) (rows : Dict DeviceRow) (ids : List String)
    → ((j : String) → lookup j rows ≡ device_row j (of_device j sorted))
    → row_for id (collect_rows rows ids)
      ≡ (if ltb 0 (count id ids) then device_row id (of_device id sorted) else none)
unfolding row_for collect_rows
row_for-collect id sorted rows [] at = refl
row_for-collect id sorted rows (j ∷ ids) at =
    let rest = row_for-collect id sorted rows ids at in
    let none_more : 0 + count id ids ≡ count id ids = omega arith in
    elim (device_row-cases j (of_device j sorted)) [
      | inl gone ↦
          rw (at j ∙ gone, row_for)
            (rest ∙ (elim (Bool-cases (str_eq j id)) [
              | inl same ↦
                  let e : j ≡ id = (eq_iff j id).0 same in
                  let none_there : device_row id (of_device id sorted) ≡ none = rw e at gone in
                  rw none_there (ground arith)
              | inr differ ↦ rw (differ, none_more) refl
            ]))
      | inr (r, is, named) ↦
          rw (at j ∙ is, row_for, named)
            (elim (Bool-cases (str_eq j id)) [
              | inl same ↦
                  let e : j ≡ id = (eq_iff j id).0 same in
                  let there : device_row id (of_device id sorted) ≡ some r = rw e at is in
                  rw (same, there) (ground arith)
              | inr differ ↦ rw (differ, none_more) rest
            ])
    ]

-- The row that deviceStatus has of a device, if any, is that of the device's own events.
pub row_for-device_status :
    (id : String) (events : List Event)
    → IsInTime events
    → row_for id (device_status events) ≡ device_row id (of_device id events)
unfolding device_status
row_for-device_status id events in_time = rw (sort_in_time events in_time) (
    row_for-collect id events (fill_rows [] [] events).0 _ (λ j. lookup-device_row j events)
    ∙ (elim (Bool-cases (occurs events (device_key id))) [
      | inl is ↦ rw (order-ListsOnce events id, is) refl
      | inr gone ↦
          rw (order-ListsOnce events id, gone, absent-of_device id events gone)
            (unfold device_row in refl)
    ]))
