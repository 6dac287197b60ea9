-- ===== src/Dispatch/Sqs/System/Lives.antt =====
-- A job that is still alive in SQS mode: it has ended, or some message under its ID is in the queues.
use job_scheduler_tooling.Prelude.{
  none, some, ℕ, ◌+◌, ◌≤◌, ◌≡◌, ◌⊎◌, inl, inr, refl, sym, String, arith, subst, ap, ◌∙◌,
}
use job_scheduler_tooling.Queue.{Job}
use job_scheduler_tooling.Dispatch.Sqs.{Coordinator}
use job_scheduler_tooling.Dispatch.Sqs.Terminal.{Keeps}
use job_scheduler_tooling.Dispatch.Sqs.Ack.{HasEnded}
use job_scheduler_tooling.Dispatch.Sqs.Worker.{QueueCall, ack, release, send}
use job_scheduler_tooling.Dispatch.Sqs.System.{Message, Service, perform}

module _ {Q : Type 0} (sqs : Service Q) where
  -- A message under the ID that is not older than the n-th.
  abbrev pub HoldsFrom : Q → String → ℕ → Type 0
  HoldsFrom q id n = (k : Message) × sqs.Holds q k × (k.id ≡ id) × (n ≤ k.number)

  abbrev pub Lives : Coordinator → Q → String → ℕ → Type 0
  Lives c q id n = HasEnded c id ⊎ HoldsFrom q id n

  -- What no step loses.
  pub record Evolves (c : Coordinator) (q : Q) (c' : Coordinator) (q' : Q) : Type 0 where
    pub sent : sqs.sent q ≤ sqs.sent q'
    pub lives : (id : String) (n : ℕ) → Lives c q id n → Lives c' q' id n

  pub coordinator-Evolves : (c c' : Coordinator) (q : Q) → Keeps c c' → Evolves c q c' q
  coordinator-Evolves c c' q keeps = record {
    sent = omega arith;
    lives =
        λ id n x. elim x [ inl (state, h) ↦ inl (state, keeps id state h) | inr held ↦ inr held ];
  }

  pub queues-Evolves :
      (c : Coordinator) (q q' : Q)
      → sqs.sent q ≤ sqs.sent q'
      → ((m : Message) → sqs.Holds q m → sqs.Holds q' m)
      → Evolves c q c q'
  queues-Evolves c q q' sent keeps = record {
    sent = sent;
    lives = λ id n x. elim x [
      | inl h ↦ inl h
      | inr (k, held, named, from) ↦ inr (k, keeps k held, named, from)
    ];
  }

  pub send-Evolves : (c : Coordinator) (j : Job) (q : Q) → Evolves c q c (sqs.send j q)
  send-Evolves c j q = queues-Evolves c q _ (omega (arith, sqs.send-sent j q)) (sqs.send-keeps j q)

  -- The message deleted is not the later one.
  after_delete :
      (c : Coordinator) (m : Message) (q : Q)
      → Lives c q m.id (m.number + 1)
      → (n : ℕ) → n ≤ m.number
      → Lives c (sqs.delete m q) m.id n
  after_delete c m q (inl h) n le = inl h
  after_delete c m q (inr (k, held, named, after)) n le = elim (sqs.delete-keeps m q k held) [
    | inl still ↦ inr (k, still, named, omega (arith, after, le))
    | inr same ↦ absurd (omega (arith, after, ap (λ (v : Message). v.number) same))
  ]

  -- A message may be deleted where its job has a later one or has ended.
  pub delete-Evolves :
      (c : Coordinator) (m : Message) (q : Q)
      → Lives c q m.id (m.number + 1)
      → Evolves c q c (sqs.delete m q)
  delete-Evolves c m q later = record {
    sent = omega (arith, sqs.delete-sent m q);
    lives = λ id n x. elim x [
      | inl h ↦ inl h
      | inr (k, held, named, from) ↦ elim (sqs.delete-keeps m q k held) [
        | inl still ↦ inr (k, still, named, from)
        | inr same ↦
            subst (λ i. Lives c (sqs.delete m q) i n)
              (ap (λ (v : Message). v.id) (sym same) ∙ named)
              (after_delete c m q later n
                (omega (arith, from, ap (λ (v : Message). v.number) same)))
      ]
    ];
  }

  pub perform-Evolves :
      (c : Coordinator) (call : QueueCall) (m : Message) (q : Q)
      → (call ≡ ack → Lives c q m.id (m.number + 1))
      → Evolves c q c (perform sqs call m q)
  unfolding perform
  perform-Evolves c ack m q later = delete-Evolves c m q (later refl)
  perform-Evolves c release m q later =
      queues-Evolves c q _ (omega (arith, sqs.release-sent m q)) (sqs.release-keeps m q)
  perform-Evolves c (send j none) m q later = send-Evolves c j q
  perform-Evolves c (send j (some e)) m q later = queues-Evolves c q q (omega arith) (λ _ h. h)
