-- ===== src/Tracer/Entries.antt =====
-- The tracer's row beside the registry's entry, over the sections of a push loop
-- (cmd/tracer/main.go and internal/devices/devices.go).
use mathlib.Core.List.{map-append}
use job_scheduler_tooling.Prelude.{
  ℕ, ◌+◌, ◌≤◌, ◌<◌, ◌≡◌, refl, ap, sym, ◌∙◌, String, Bool, ◌||◌, List, [], ◌∷◌, ◌++◌, map, arith,
  leb, ltb, ◌==◌, if◌then◌else◌, if_split, ==_iff,
}
use job_scheduler_tooling.Prelude.Int.{pos, leb_ℤ, ltb_ℤ, eqb_ℤ}
use job_scheduler_tooling.Prelude.Dict.{Dict}
use job_scheduler_tooling.Queue.{Time}
use job_scheduler_tooling.Telemetry
use job_scheduler_tooling.Devices.{
  Push, Ack, Sent, replied, unanswered, State, Options, Entry, Next, set_config, ensure_loop,
  loop_top, attempt_push, fresh_budget, loop_sent, accept_ack, device_event,
}
use job_scheduler_tooling.Tracer.{Event, read_event, DeviceRow, row_state, update_row}
use job_scheduler_tooling.Tracer.Fields.{row_from}

abbrev pub state_name : State → String
state_name State.idle = "idle"
state_name State.pending = "pending"
state_name State.acked = "acked"
state_name State.failed = "failed"

-- What the tracer has of an entry.
pub record Agrees (e : Entry) (r : DeviceRow) : Type 0 where
  pub desired : r.desired ≡ pos e.desired_version
  pub acked : r.acked ≡ pos e.acked_version
  pub failed_at : ℕ
  pub failed_at_is : r.failed_at ≡ pos failed_at
  pub old : failed_at ≤ e.desired_version
  pub state : row_state r ≡ state_name e.state

-- A row after the events of one critical section.
abbrev pub row_after : DeviceRow → List Telemetry.Event → DeviceRow
row_after r events = row_from r (map read_event events)

pub set_config-Agrees :
    (now : Time) (cfg : Dict String) (e : Entry) (r : DeviceRow)
    → e.acked_version ≤ e.desired_version
    → Agrees e r
    → Agrees (set_config now cfg e).entry (row_after r (set_config now cfg e).events)
unfolding set_config ensure_loop row_from update_row row_state
set_config-Agrees now cfg e r le a = record {
  desired = refl;
  acked = a.acked;
  failed_at = a.failed_at;
  failed_at_is = a.failed_at_is;
  old = omega (arith, a.old);
  state = rw (a.acked, a.failed_at_is) (ground (arith, a.old));
}

-- Where neither versions nor state change.
pub same-Agrees :
    (e e' : Entry) (r r' : DeviceRow)
    → e'.desired_version ≡ e.desired_version
    → e'.acked_version ≡ e.acked_version
    → e'.state ≡ e.state
    → r'.desired ≡ r.desired
    → r'.acked ≡ r.acked
    → r'.failed_at ≡ r.failed_at
    → Agrees e r
    → Agrees e' r'
unfolding row_state
same-Agrees e e' r r' d k s rd rk rf a = record {
  desired = rd ∙ (a.desired ∙ ap pos (sym d));
  acked = rk ∙ (a.acked ∙ ap pos (sym k));
  failed_at = a.failed_at;
  failed_at_is = rf ∙ a.failed_at_is;
  old = omega (arith, a.old, d);
  state = rw (rd, rk, rf) a.state ∙ ap state_name (sym s);
}

attempt_push-Agrees :
    (o : Options) (now : Time) (e : Entry) (r : DeviceRow)
    → e.acked_version < e.desired_version
    → Agrees e r
    → let (e', events, _) = attempt_push o now e in Agrees e' (row_after r events)
unfolding attempt_push row_from
attempt_push-Agrees o now e r lt a =
    if_split (λ (x : Entry × List Telemetry.Event × Next). Agrees x.0 (row_after r x.1))
      (leb_ℤ o.max_attempts (pos e.attempts))
      (λ _.
        unfold update_row in
        record {
          desired = a.desired;
          acked = a.acked;
          failed_at = e.desired_version;
          failed_at_is = refl;
          old = omega arith;
          state = unfold row_state in rw (a.desired, a.acked) (ground (arith, lt));
        })
      (λ _.
        unfold update_row in
        if_split (λ r'. Agrees (record e { attempts = e.attempts + 1 }) r')
          (eqb_ℤ (pos e.desired_version) r.desired)
          (λ _. same-Agrees e _ r _ refl refl refl refl refl refl a)
          (λ _. same-Agrees e _ r _ refl refl refl refl refl refl a))

pub loop_top-Agrees :
    (o : Options) (c : Bool) (now : Time) (e : Entry) (r : DeviceRow)
    → Agrees e r
    → let (e', events, _) = loop_top o c now e in Agrees e' (row_after r events)
unfolding loop_top row_from fresh_budget
loop_top-Agrees o c now e r a =
    if_split (λ (x : Entry × List Telemetry.Event × Next). Agrees x.0 (row_after r x.1))
      (c || leb e.desired_version e.acked_version)
      (λ _. same-Agrees e _ r _ refl refl refl refl refl refl a)
      (λ work.
        if_split
          (λ e'. let (e'', events, _) = attempt_push o now e' in Agrees e'' (row_after r events))
          (e.pushed_for == e.desired_version)
          (λ _. attempt_push-Agrees o now e r (ground (arith, work)) a)
          (λ _.
            attempt_push-Agrees o now _ r (ground (arith, work))
              (same-Agrees e _ r _ refl refl refl refl refl refl a)))

row_from-append :
    (r : DeviceRow) (xs ys : List Event) → row_from r (xs ++ ys) ≡ row_from (row_from r xs) ys
unfolding row_from
row_from-append r [] ys = refl
row_from-append r (x ∷ xs) ys = row_from-append (update_row r x) xs ys

pub row_after-append :
    (r : DeviceRow) (xs ys : List Telemetry.Event)
    → row_after r (xs ++ ys) ≡ row_after (row_after r xs) ys
row_after-append r xs ys =
    rw (map-append) (row_from-append r (map read_event xs) (map read_event ys))

acked-Agrees :
    (now : Time) (attempt version : ℕ) (e : Entry) (r : DeviceRow)
    → version ≡ e.desired_version
    → e.acked_version < version
    → Agrees e r
    → Agrees
        (record e { acked_version = version; state = State.acked; last_error = "" })
        (row_after r (device_event now e.id "acked" version attempt ∷ []))
unfolding row_from update_row
acked-Agrees now attempt version e r same lt a =
    if_split
      (λ r'. Agrees (record e { acked_version = version; state = State.acked; last_error = "" }) r')
      (ltb_ℤ r.acked (pos version))
      (λ _. record {
        desired = a.desired;
        acked = refl;
        failed_at = a.failed_at;
        failed_at_is = a.failed_at_is;
        old = a.old;
        state = unfold row_state in rw a.desired (ground (arith, lt, same));
      })
      (λ no. absurd (ground (arith, no, lt, a.acked)))

accept_ack-Agrees :
    (now : Time) (p : Push) (ack : Ack) (e : Entry) (r : DeviceRow)
    → ack.version ≡ e.desired_version
    → Agrees e r
    → let (e', events) = accept_ack now p ack e in Agrees e' (row_after r events)
unfolding accept_ack
accept_ack-Agrees now p ack e r same a =
    let again : Telemetry.Event =
      device_event now e.id "duplicate_ignored_by_device" p.version p.attempt in
    let dup : List Telemetry.Event = if ack.applied then [] else again ∷ [] in
    let told : Agrees e (row_after r dup) =
      if_split (λ events. Agrees e (row_after r events)) ack.applied (λ _. unfold row_from in a)
        (λ _. unfold row_from update_row in same-Agrees e _ r _ refl refl refl refl refl refl a) in
    if_split (λ (x : Entry × List Telemetry.Event). Agrees x.0 (row_after r x.1))
      (ltb e.acked_version ack.version)
      (λ lt.
        rw (row_after-append r dup _) (
          acked-Agrees now p.attempt ack.version e (row_after r dup) same (ground (arith, lt))
            told))
      (λ _. told)

pub loop_sent-Agrees :
    (now : Time) (p : Push) (s : Sent) (e : Entry) (r : DeviceRow)
    → Agrees e r
    → let ((e', events), _) = loop_sent now p s e in Agrees e' (row_after r events)
unfolding loop_sent row_from update_row
loop_sent-Agrees now p (unanswered err) e r a = same-Agrees e _ r _ refl refl refl refl refl refl a
loop_sent-Agrees now p (replied ack) e r a =
    if_split (λ (x : (Entry × List Telemetry.Event) × Bool). Agrees x.0.0 (row_after r x.0.1))
      (ack.version == e.desired_version)
      (λ same. accept_ack-Agrees now p ack e r ((==_iff _ _).0 same) a)
      (λ _. same-Agrees e _ r _ refl refl refl refl refl refl a)
