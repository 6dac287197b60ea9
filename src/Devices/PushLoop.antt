-- ===== src/Devices/PushLoop.antt =====
-- pushLoop of internal/devices/devices.go on its own, with no other call between its sections and
-- the registry open. What the transport does with a push is a function of the push, whose attempt
-- number tells the pushes of a version apart. Its events are those of the sections and left out.
use job_scheduler_tooling.Prelude.{
  ℕ, zero, suc, ◌+◌, ◌≤◌, ◌<◌, ◌≡◌, ◌⊎◌, inl, inr, refl, Bool, true, false, List, Option, none,
  some, arith, leb, ltb, ◌==◌, ==_iff, if_split, Bool-cases, String, ap, sym, ◌∙◌,
}
use job_scheduler_tooling.Prelude.Int.{pos, leb_ℤ}
use job_scheduler_tooling.Prelude.Partial.{Yields, yields, Yields-weaken}
use job_scheduler_tooling.Prelude.Dict.{Dict}
use job_scheduler_tooling.Queue.{Time}
use job_scheduler_tooling.Telemetry.{Event}
use job_scheduler_tooling.Devices.{
  Push, Ack, Sent, replied, unanswered, Options, Entry, Next, stops, sends, is_failed, loop_top,
  attempt_push, fresh_budget, loop_sent, accept_ack, set_config, ensure_loop,
}
use job_scheduler_tooling.Devices.Standing.{is_acked}

-- From the end of the first critical section on; `again` is the next round.
unfoldable pub after_top :
    (Entry → Option Entry) → (Push → Sent) → Time → Entry × List Event × Next → Option Entry
after_top again send now (e, _, stops) = some e
after_top again send now (e, _, sends p) = again (loop_sent now p (send p) e).0.0

-- The fuel bounds the rounds.
unfoldable pub push_loop : ℕ → Options → (Push → Sent) → Time → Entry → Option Entry
push_loop zero o send now e = none
push_loop (suc fuel) o send now e =
    after_top (push_loop fuel o send now) send now (loop_top o false now e)

-- The attempt of this number for an entry's desired version.
abbrev pub push_of : Entry → ℕ → Push
push_of e k = record {
  device_id = e.id;
  version = e.desired_version;
  config = e.config;
  attempt = k;
}

-- An ack of this version.
abbrev pub acks_version : ℕ → Sent → Bool
acks_version version (replied ack) = ack.version == version
acks_version version (unanswered err) = false

-- How the loop ends after `a` attempts, of `m`: with the desired version acknowledged by one of the
-- attempts that were left, or failed when none of these was answered so.
pub record Settled (send : Push → Sent) (m a : ℕ) (e e' : Entry) : Type 0 where
  pub over : e'.loop_running ≡ false
  pub same : e'.desired_version ≡ e.desired_version
  pub ends :
      ((is_acked e'.state ≡ true)
        × (e'.acked_version ≡ e.desired_version)
        × (k : ℕ) × (a < k)
        × (k ≤ m)
        × (acks_version e.desired_version (send (push_of e k)) ≡ true))
      ⊎ ((is_failed e'.state ≡ true)
          × ((k : ℕ) → a < k → k ≤ m → acks_version e.desired_version (send (push_of e k)) ≡ false))

-- An attempt that was not acknowledged.
later-Settled :
    (send : Push → Sent) (m : ℕ) (e e₁ e' : Entry)
    → e₁.id ≡ e.id
    → e₁.desired_version ≡ e.desired_version
    → e₁.config ≡ e.config
    → acks_version e.desired_version (send (push_of e (e.attempts + 1))) ≡ false
    → Settled send m (e.attempts + 1) e₁ e'
    → Settled send m e.attempts e e'
later-Settled send m e e₁ e' i d c missed s =
    let test = λ (k : ℕ). acks_version e.desired_version (send (push_of e k)) in
    let same_test : (k : ℕ) → acks_version e₁.desired_version (send (push_of e₁ k)) ≡ test k =
      λ k. rw (i, d, c) in
    record {
      over = s.over;
      same = s.same ∙ d;
      ends = elim s.ends [
        | inl (a, v, k, lt, le, hit) ↦
            inl (a, v ∙ d, k, omega (arith, lt), le, sym (same_test k) ∙ hit)
        | inr (f, none_hit) ↦ inr (
          f,
          λ k lt le. elim (Bool-cases (k == e.attempts + 1)) [
            | inl now ↦ let same : k ≡ e.attempts + 1 = (==_iff _ _).0 now in rw same missed
            | inr other ↦ sym (same_test k) ∙ none_hit k (ground (arith, other, lt)) le
          ],
        )
      ];
    }

module _ (o : Options) (send : Push → Sent) (now : Time) (m : ℕ)
    (max_is : o.max_attempts ≡ pos m) where
  -- An acknowledged entry stops the loop.
  stop_lem :
      (fuel : ℕ) (e : Entry)
      → e.acked_version ≡ e.desired_version
      → push_loop (suc fuel) o send now e ≡ some (record e { loop_running = false })
  unfolding push_loop loop_top after_top
  stop_lem fuel e h =
      if_split
        (λ (x : Entry × List Event × Next).
          after_top (push_loop fuel o send now) send now x
          ≡ some (record e { loop_running = false }))
        (leb e.desired_version e.acked_version) (λ _. refl) (λ no. absurd (ground (arith, no, h)))

  -- What the next rounds do, as the induction gives it.
  abbrev Again : ℕ → Type 0
  Again fuel =
      (e : Entry)
      → e.pushed_for ≡ e.desired_version
      → e.acked_version < e.desired_version
      → e.attempts ≤ m
      → m < fuel + e.attempts
      → Yields (Settled send m e.attempts e) (push_loop fuel o send now e)

  acked_settles :
      (fuel : ℕ) (e e₁ : Entry)
      → 0 < fuel
      → e₁.acked_version ≡ e₁.desired_version
      → e₁.desired_version ≡ e.desired_version
      → is_acked e₁.state ≡ true
      → e.attempts < m
      → acks_version e.desired_version (send (push_of e (e.attempts + 1))) ≡ true
      → Yields (Settled send m e.attempts e) (push_loop fuel o send now e₁)
  acked_settles zero e e₁ f same d a more hit = absurd (omega arith)
  acked_settles (suc fuel) e e₁ f same d a more hit = rw (stop_lem fuel e₁ same) (
      yields (record {
        over = refl;
        same = d;
        ends = inl (a, same ∙ d, e.attempts + 1, omega arith, omega (arith, more), hit);
      }))

  replied_settles :
      (fuel : ℕ)
      → Again fuel
      → (e : Entry) (ack : Ack) → e.pushed_for ≡ e.desired_version
      → e.acked_version < e.desired_version
      → m < suc fuel + e.attempts
      → e.attempts < m
      → send (push_of e (e.attempts + 1)) ≡ replied ack
      → Yields (Settled send m e.attempts e) (
          push_loop fuel o send now
            (loop_sent now
              (push_of e (e.attempts + 1))
              (replied ack)
              (record e { attempts = e.attempts + 1 })).0.0)
  unfolding loop_sent accept_ack
  replied_settles fuel ih e ack p lt f more is =
      let e₁ : Entry = record e { attempts = e.attempts + 1 } in
      if_split
        (λ (x : (Entry × List Event) × Bool).
          Yields (Settled send m e.attempts e) (push_loop fuel o send now x.0.0))
        (ack.version == e.desired_version)
        (λ hit.
          if_split
            (λ (x : Entry × List Event).
              Yields (Settled send m e.attempts e) (push_loop fuel o send now x.0))
            (ltb e.acked_version ack.version)
            (λ _.
              acked_settles fuel e _ (omega (arith, f, more)) ((==_iff _ _).0 hit) refl refl more
                (rw is hit))
            (λ old. absurd (ground (arith, old, hit, lt))))
        (λ missed.
          Yields-weaken (ih e₁ p lt (omega (arith, more)) (omega (arith, f)))
            (λ e' s. later-Settled send m e e₁ e' refl refl refl (rw is missed) s))

  sent_settles :
      (fuel : ℕ)
      → Again fuel
      → (e : Entry) (s : Sent) → e.pushed_for ≡ e.desired_version
      → e.acked_version < e.desired_version
      → m < suc fuel + e.attempts
      → e.attempts < m
      → send (push_of e (e.attempts + 1)) ≡ s
      → Yields (Settled send m e.attempts e) (
          push_loop fuel o send now
            (loop_sent now
              (push_of e (e.attempts + 1))
              s
              (record e { attempts = e.attempts + 1 })).0.0)
  unfolding loop_sent
  sent_settles fuel ih e (replied ack) p lt f more is = replied_settles fuel ih e ack p lt f more is
  sent_settles fuel ih e (unanswered err) p lt f more is =
      Yields-weaken
        (ih (record e { attempts = e.attempts + 1; last_error = err }) p lt (omega (arith, more))
          (omega (arith, f)))
        (λ e' s. later-Settled send m e _ e' refl refl refl (rw is refl) s)

  pub settles : (fuel : ℕ) → Again fuel
  unfolding push_loop loop_top after_top fresh_budget attempt_push
  settles zero e p lt le f = absurd (omega arith)
  settles (suc fuel) e p lt le f =
      let Good : Entry × List Event × Next → Type 0 = λ x.
        Yields (Settled send m e.attempts e) (after_top (push_loop fuel o send now) send now x) in
      if_split Good (leb e.desired_version e.acked_version)
        (λ done. absurd (ground (arith, done, lt)))
        (λ _.
          if_split (λ e₁. Good (attempt_push o now e₁)) (e.pushed_for == e.desired_version)
            (λ _.
              if_split Good (leb_ℤ o.max_attempts (pos e.attempts))
                (λ out. yields (record {
                  over = refl;
                  same = refl;
                  ends = inr (refl, λ k gt le. absurd (ground (arith, out, max_is, gt, le)));
                }))
                (λ more.
                  sent_settles fuel (settles fuel) e _ p lt f (ground (arith, more, max_is)) refl))
            (λ other. absurd (ground (arith, other, p))))

-- The first round for a version whose pushes have not been counted yet.
fresh_lem :
    (o : Options) (now : Time) (e : Entry)
    → e.acked_version < e.desired_version
    → (e.pushed_for == e.desired_version) ≡ false
    → loop_top o false now e
      ≡ loop_top o false now (record e { pushed_for = e.desired_version; attempts = 0 })
unfolding loop_top fresh_budget
fresh_lem o now e lt stale =
    let here : leb e.desired_version e.acked_version ≡ false = ground arith in
    let fresh : (e.desired_version == e.desired_version) ≡ true = ground arith in
    rw (here, stale, fresh)

-- After SetConfig on an entry whose counter is about an older version, the push loop that it starts,
-- run on its own, ends within MaxAttempts + 1 rounds, whatever the transport does. If the transport
-- answers any of the first MaxAttempts pushes with an ack of the new version, the entry is then
-- acked at this version; if it answers none of them so, the entry is failed.
pub set_config-Settles :
    (o : Options) (send : Push → Sent) (now : Time) (cfg : Dict String) (m : ℕ) (e : Entry)
    → o.max_attempts ≡ pos m
    → e.acked_version ≤ e.desired_version
    → e.pushed_for ≤ e.desired_version
    → let e₁ = (set_config now cfg e).entry in
      Yields (Settled send m 0 e₁) (push_loop (suc m) o send now e₁)
unfolding set_config ensure_loop
set_config-Settles o send now cfg m e max_is le old =
    let e₁ : Entry = (set_config now cfg e).entry in
    let e₂ : Entry = record e₁ { pushed_for = e₁.desired_version; attempts = 0 } in
    let same : push_loop (suc m) o send now e₁ ≡ push_loop (suc m) o send now e₂ =
      unfold push_loop in
      ap (after_top (push_loop m o send now) send now)
        (fresh_lem o now e₁ (omega arith) (ground arith)) in
    rw same (
      Yields-weaken
        (settles o send now m max_is (suc m) e₂ refl (omega arith) (omega arith) (omega arith))
        (λ e' s. record { over = s.over; same = s.same; ends = s.ends }))
