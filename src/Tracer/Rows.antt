-- ===== src/Tracer/Rows.antt =====
-- deviceStatus of cmd/tracer/main.go, device by device.
use job_scheduler_tooling.Prelude.{
  ◌≡◌, refl, sym, ap, ◌∙◌, String, false, List, [], ◌∷◌, ◌++◌, Option, none, some, arith, ◌+++◌,
  str_eq, eq_iff, eq_refl, if◌then◌else◌, Option-cases, Bool-cases, inl, inr,
}
use job_scheduler_tooling.Prelude.Dict.{Dict, lookup, insert, lookup-insert}
use job_scheduler_tooling.Prelude.Sort.{sort}
use job_scheduler_tooling.Text.{after_prefix, after_prefix-append, after_prefix_sound, less_text}
use job_scheduler_tooling.Tracer.{Event, DeviceRow, new_row, update_row, row_of, fill_rows}
use job_scheduler_tooling.Tracer.Fields.{row_from}
use job_scheduler_tooling.Tracer.Ids.{count, count-append, ListsOnce, one_if_some}
use job_scheduler_tooling.Tracer.Order.{count-sort}
use job_scheduler_tooling.Tracer.Times.{occurs}

-- The job ID under which the registry records the events of a device.
abbrev pub device_key : String → String
device_key id = "device:" +++ id

-- The events of one device, in their order.
unfoldable pub of_device : String → List Event → List Event
of_device id [] = []
of_device id (e ∷ events) =
    let rest = of_device id events in if str_eq e.job_id (device_key id) then e ∷ rest else rest

-- The row of a device with these events, which has none without any.
unfoldable pub device_row : String → List Event → Option DeviceRow
device_row id [] = none
device_row id (e ∷ events) = some (row_from (new_row id) (e ∷ events))

-- The test for the prefix is a test for the device's key.
other_key :
    (key id : String) → after_prefix "device:" key ≡ none → str_eq key (device_key id) ≡ false
other_key key id h = elim (Bool-cases (str_eq key (device_key id))) [
  | inl e ↦
      let same : key ≡ device_key id = (eq_iff key (device_key id)).0 e in
      absurd (cc (h, ap (after_prefix "device:") same, after_prefix-append "device:" id))
  | inr e ↦ e
]

own_key :
    (key id j : String)
    → after_prefix "device:" key ≡ some j
    → str_eq key (device_key id) ≡ str_eq j id
own_key key id j h =
    let is : key ≡ device_key j = after_prefix_sound "device:" key j h in
    elim (Bool-cases (str_eq j id)) [
      | inl e ↦ rw (is, (eq_iff j id).0 e, eq_refl (device_key id), eq_refl id) refl
      | inr e ↦ elim (Bool-cases (str_eq key (device_key id))) [
        | inl same ↦
            let equal : key ≡ device_key id = (eq_iff key (device_key id)).0 same in
            let one : some j ≡ some id =
              sym h ∙ ap (after_prefix "device:") equal ∙ after_prefix-append "device:" id in
            let twin : j ≡ id = cc one in absurd (cc ((eq_iff j id).1 twin, e))
        | inr differ ↦ differ ∙ sym e
      ]
    ]

-- A row that is there already, or none, after more events.
abbrev go_on : String → Option DeviceRow → List Event → Option DeviceRow
go_on id o [] = o
go_on id o (e ∷ events) = some (row_from (update_row (row_of id o) e) events)

go_on-some :
    (id : String) (r : DeviceRow) (events : List Event)
    → go_on id (some r) events ≡ some (row_from r events)
unfolding row_from
go_on-some id r [] = refl
go_on-some id r (e ∷ events) = refl

fill_rows-lookup :
    (id : String) (events : List Event) (rows : Dict DeviceRow) (order : List String)
    → lookup id (fill_rows rows order events).0 ≡ go_on id (lookup id rows) (of_device id events)
unfolding fill_rows of_device
fill_rows-lookup id [] rows order = refl
fill_rows-lookup id (e ∷ events) rows order =
    elim (Option-cases (after_prefix "device:" e.job_id)) [
      | inl other ↦
          rw (other, fill_rows, of_device)
            (rw (other_key e.job_id id other) (fill_rows-lookup id events rows order))
      | inr (j, mine) ↦
          rw (mine, fill_rows, of_device)
            (fill_rows-lookup id events _ _
              ∙ (rw (own_key e.job_id id j mine, lookup-insert j id _ rows)
                  (elim (Bool-cases (str_eq j id)) [
                    | inl same ↦
                        let e' : j ≡ id = (eq_iff j id).0 same in
                        rw (same, e') (go_on-some id _ (of_device id events))
                    | inr differ ↦ rw differ
                  ])))
    ]

go_on-none : (id : String) (events : List Event) → go_on id none events ≡ device_row id events
unfolding device_row row_from
go_on-none id [] = refl
go_on-none id (e ∷ events) = refl

abbrev next_order : List String → String → Option DeviceRow → List String
next_order order j none = order ++ j ∷ []
next_order order j (some _) = order

next_order-count :
    (id j : String) (row : DeviceRow) (rows : Dict DeviceRow) (order : List String)
    → count id order ≡ one_if_some (lookup id rows)
    → count id (next_order order j (lookup j rows)) ≡ one_if_some (lookup id (insert j row rows))
next_order-count id j row rows order h =
    rw (lookup-insert j id row rows) (elim (Bool-cases (str_eq j id)) [
      | inl same ↦
          let e : j ≡ id = (eq_iff j id).0 same in
          rw same (
            rw e (elim (Option-cases (lookup id rows)) [
              | inl new ↦
                  rw new (ground (arith, count-append id order (id ∷ []), eq_refl id, h, new))
              | inr (r, old) ↦ rw old (rw old at h)
            ]))
      | inr differ ↦ rw differ (elim (Option-cases (lookup j rows)) [
        | inl new ↦ rw new (ground (arith, count-append id order (j ∷ []), differ, h))
        | inr (r, old) ↦ rw old h
      ])
    ])

-- The keys that the loop puts into `order`.
fill_rows-count :
    (id : String) (events : List Event) (rows : Dict DeviceRow) (order : List String)
    → count id order ≡ one_if_some (lookup id rows)
    → count id (fill_rows rows order events).1
      ≡ (if occurs events (device_key id) then 1 else one_if_some (lookup id rows))
unfolding fill_rows occurs
fill_rows-count id [] rows order h = h
fill_rows-count id (e ∷ events) rows order h =
    elim (Option-cases (after_prefix "device:" e.job_id)) [
      | inl other ↦
          rw (other, fill_rows)
            (rw (other_key e.job_id id other) (fill_rows-count id events rows order h))
      | inr (j, mine) ↦
          rw (mine, fill_rows)
            (fill_rows-count id events _ _
                (next_order-count id j (update_row (row_of j (lookup j rows)) e) rows order h)
              ∙ (rw (own_key e.job_id id j mine, lookup-insert j id _ rows) (ground arith)))
    ]

-- A row in the map, or none.
pub lookup-device_row :
    (id : String) (sorted : List Event)
    → lookup id (fill_rows [] [] sorted).0 ≡ device_row id (of_device id sorted)
lookup-device_row id sorted =
    fill_rows-lookup id sorted [] [] ∙ (unfold lookup in go_on-none id (of_device id sorted))

-- Each device of the log is once in the order of the rows.
pub order-ListsOnce :
    (sorted : List Event)
    → ListsOnce (λ id. occurs sorted (device_key id)) (sort less_text (fill_rows [] [] sorted).1)
unfolding lookup
order-ListsOnce sorted id =
    count-sort id (fill_rows [] [] sorted).1 ∙ fill_rows-count id sorted [] [] refl
