-- ===== src/SqsQueue/Sweep.antt =====
-- What Receive of internal/sqsqueue/sqsqueue.go comes to, by what the tiers answer.
use job_scheduler_tooling.Prelude.{
  ℕ, zero, suc, ◌≤◌, ◌<◌, ◌≡◌, inl, inr, refl, List, [], ◌∷◌, Option, none, some, arith, ◌==◌,
  ==_iff, Bool-cases, subst, sym,
}
use job_scheduler_tooling.Prelude.Int.{ℤ, pos}
use job_scheduler_tooling.SqsQueue.{Delivery, Received, failed, empty, message, sweep, receive}

-- The tiers above `t`, up to `top`, have no message.
abbrev pub AreEmpty : (ℤ → Received) → ℕ → ℕ → Type 0
AreEmpty ask t top = (k : ℕ) → t < k → k ≤ top → ask (pos k) ≡ empty

-- ReceiveMessage fails, or its message cannot be decoded.
abbrev pub IsRefused : Received → Type 0
IsRefused (failed e) = Unit
IsRefused empty = ⊥
IsRefused (message id count none) = Unit
IsRefused (message id count (some j)) = ⊥

-- What the tiers from `top` down to 1 come to.
abbrev pub Swept : (ℤ → Received) → ℕ → Option (Option Delivery) → Type 0
Swept ask top none = (t : ℕ) × (0 < t) × (t ≤ top) × AreEmpty ask t top × IsRefused (ask (pos t))
Swept ask top (some none) = AreEmpty ask 0 top
Swept ask top (some (some d)) =
    (t : ℕ) × (0 < t)
    × (t ≤ top)
    × AreEmpty ask t top
    × (d.tier ≡ pos t)
    × (ask (pos t) ≡ message d.message_id d.receive_count (some d.job))

tiers_from : ℕ → List ℤ
tiers_from zero = []
tiers_from (suc n) = pos (suc n) ∷ tiers_from n

-- One more tier above that has no message.
AreEmpty-suc :
    (ask : ℤ → Received) (t top : ℕ)
    → ask (pos (suc top)) ≡ empty
    → AreEmpty ask t top
    → AreEmpty ask t (suc top)
AreEmpty-suc ask t top here below k lt le = elim (Bool-cases (k == suc top)) [
  | inl e ↦
      let same : suc top ≡ k = omega (arith, (==_iff _ _).0 e) in
      subst (λ n. ask (pos n) ≡ empty) same here
  | inr differ ↦ below k lt (ground (arith, differ, le))
]

Swept-suc :
    (ask : ℤ → Received) (top : ℕ) (o : Option (Option Delivery))
    → ask (pos (suc top)) ≡ empty
    → Swept ask top o
    → Swept ask (suc top) o
Swept-suc ask top none here (t, low, high, none_above, refused) =
    (t, low, omega (arith, high), AreEmpty-suc ask t top here none_above, refused)
Swept-suc ask top (some none) here none_above = AreEmpty-suc ask 0 top here none_above
Swept-suc ask top (some (some d)) here (t, low, high, none_above, of_tier, found) =
    (t, low, omega (arith, high), AreEmpty-suc ask t top here none_above, of_tier, found)

sweep-Swept : (ask : ℤ → Received) (top : ℕ) → Swept ask top (sweep ask (tiers_from top))
unfolding sweep tiers_from
sweep-Swept ask zero = λ k lt le. absurd (omega (arith, lt, le))
sweep-Swept ask (suc top) = step (sweep-Swept ask top) (ask (pos (suc top))) refl
  where
    none_above : AreEmpty ask (suc top) (suc top)
    none_above = λ k lt le. absurd (omega (arith, lt, le))

    step :
        Swept ask top (sweep ask (tiers_from top))
        → (r : Received) → ask (pos (suc top)) ≡ r
        → Swept ask (suc top) (elim r as (λ _. Option (Option Delivery)) [
          | failed e ↦ none
          | empty ↦ sweep ask (tiers_from top)
          | message id count none ↦ none
          | message id count (some j) ↦ some (
              some
                (record { job = j; tier = pos (suc top); receive_count = count; message_id = id }))
        ])
    step rest (failed e) a =
        (suc top, omega arith, omega arith, none_above, subst IsRefused (sym a) tt)
    step rest empty a = Swept-suc ask top _ a rest
    step rest (message id count none) a =
        (suc top, omega arith, omega arith, none_above, subst IsRefused (sym a) tt)
    step rest (message id count (some j)) a =
        (suc top, omega arith, omega arith, none_above, refl, a)

-- Receive, whatever the queues of the tiers answer. It gives the message of a tier between 1 and 5
-- when that tier's queue answers with one that can be decoded and every higher tier, up to 5, answers
-- that it is empty; it gives no message only when all of the tiers 1 to 5 are empty; and it fails only
-- when a tier's answer is an error or cannot be decoded and every higher tier is empty.
pub receive-Swept : (ask : ℤ → Received) → Swept ask 5 (receive ask)
unfolding receive tiers_from
receive-Swept ask = sweep-Swept ask 5
