-- ===== src/Dispatch/Sqs/DeadLetters.antt =====
-- WatchDeadLetters of internal/dispatch/sqs.go over PeekDeadLetters of internal/sqsqueue/sqsqueue.go.
use job_scheduler_tooling.Prelude.{
  ◌≡◌, ◌⊎◌, inl, inr, ap, sym, ◌∙◌, String, List, [], ◌∷◌, Option, none, some, All, map, arith,
  str_eq, eq_iff, option_split, subst, refl, if_split,
}
use job_scheduler_tooling.Prelude.Dict.{lookup, lookup-insert}
use job_scheduler_tooling.Prelude.Partial.{◌>>=◌}
use job_scheduler_tooling.Queue.{Job, Time}
use job_scheduler_tooling.SqsQueue.Letters.{Answered, DeadLetter, letters_of, peek_dead_letters}
use job_scheduler_tooling.Dispatch.Sqs.{Coordinator, bury, bury_all, watch_tick, maybe_done, log}
use job_scheduler_tooling.Dispatch.Sqs.Ack.{HasEnded}

abbrev jobs_of : List DeadLetter → List Job
jobs_of letters = map (λ (d : DeadLetter). d.job) letters

abbrev dead_jobs : Option (List DeadLetter) → Option (List Job)
dead_jobs none = none
dead_jobs (some letters) = some (jobs_of letters)

-- A tick of WatchDeadLetters, with the answer to ReceiveMessage on the dead-letter queue.
unfoldable pub peek_tick : Time → Option (List Answered) → Coordinator → Coordinator
peek_tick now answer c = watch_tick now (dead_jobs (peek_dead_letters answer)) c

-- One of the jobs has the ID.
abbrev Names : String → List Job → Type 0
Names id [] = ⊥
Names id (j ∷ jobs) = (j.id ≡ id) ⊎ Names id jobs

-- One of the messages is of the job with the ID.
abbrev pub IsOf : String → List Answered → Type 0
IsOf id [] = ⊥
IsOf id (m ∷ messages) = ((j : Job) × (m.body ≡ some j) × (j.id ≡ id)) ⊎ IsOf id messages

abbrev pub AllDecode : List Answered → Type 0
AllDecode messages = All (λ (m : Answered). (j : Job) × (m.body ≡ some j)) messages

bury-Ends :
    (now : Time) (job : Job) (c : Coordinator) (id : String)
    → (HasEnded c id ⊎ (job.id ≡ id) → HasEnded (bury now job c) id)
      × (HasEnded (bury now job c) id → HasEnded c id ⊎ (job.id ≡ id))
unfolding bury log
bury-Ends now job c id =
    let O : Option String → Type 0 = λ (o : Option String).
      (HasEnded c id ⊎ (job.id ≡ id) → (state : String) × (o ≡ some state))
      × ((state : String) × (o ≡ some state) → HasEnded c id ⊎ (job.id ≡ id)) in
    let P : Coordinator → Type 0 = λ (x : Coordinator).
      (HasEnded c id ⊎ (job.id ≡ id) → HasEnded x id)
      × (HasEnded x id → HasEnded c id ⊎ (job.id ≡ id)) in
    option_split P (lookup job.id c.terminal)
      (λ new. subst O (sym (lookup-insert job.id id "dead_lettered" c.terminal)) (
        if_split O (str_eq job.id id)
          (λ same. (λ _. ("dead_lettered", refl), λ _. inr ((eq_iff job.id id).0 same)))
          (λ other. (
            λ h. elim h [
              | inl old ↦ old
              | inr same ↦ absurd (ground (arith, other, same, eq_iff job.id id))
            ],
            λ h. inl h,
          ))))
      (λ state was. (
        λ h. elim h [ inl old ↦ old | inr same ↦ subst (HasEnded c) same (state, was) ],
        λ h. inl h,
      ))

bury_all-Ends :
    (now : Time) (jobs : List Job) (c : Coordinator) (id : String)
    → (HasEnded c id ⊎ Names id jobs → HasEnded (bury_all now jobs c) id)
      × (HasEnded (bury_all now jobs c) id → HasEnded c id ⊎ Names id jobs)
unfolding bury_all
bury_all-Ends now [] c id =
    (λ h. elim h [ inl old ↦ old | inr none_named ↦ absurd none_named ], λ h. inl h)
bury_all-Ends now (job ∷ jobs) c id =
    let one = bury-Ends now job c id in
    let rest = bury_all-Ends now jobs (bury now job c) id in
    (
      λ h. elim h [
        | inl old ↦ rest.0 (inl (one.0 (inl old)))
        | inr (inl same) ↦ rest.0 (inl (one.0 (inr same)))
        | inr (inr more) ↦ rest.0 (inr more)
      ],
      λ h. elim (rest.1 h) [
        | inl e ↦ elim (one.1 e) [ inl old ↦ inl old | inr same ↦ inr (inl same) ]
        | inr more ↦ inr (inr more)
      ],
    )

-- What the loop over the messages comes to.
abbrev Outcome : List Answered → Option (List DeadLetter) → Type 0
Outcome messages none = ¬ (AllDecode messages)
Outcome messages (some letters) =
    AllDecode messages
    × ((id : String)
        → (IsOf id messages → Names id (jobs_of letters))
          × (Names id (jobs_of letters) → IsOf id messages))

letters_of-Outcome : (messages : List Answered) → Outcome messages (letters_of messages)
unfolding letters_of
letters_of-Outcome [] = (tt, λ id. (λ h. h, λ h. h))
letters_of-Outcome (m ∷ messages) =
    step m.body (letters_of messages) refl (letters_of-Outcome messages)
  where
    step :
        (body : Option Job) (rest : Option (List DeadLetter))
        → m.body ≡ body
        → Outcome messages rest
        → Outcome (m ∷ messages) (
            body >>= λ job. rest >>= λ letters.
            some (record { job = job; message_id = m.id; receive_count = m.count } ∷ letters))
    step none rest e h = λ all. cc (e, all.0.1)
    step (some j) none e h = λ all. h all.1
    step (some j) (some letters) e (all, same) = (
      ((j, e), all),
      λ id. (
        λ h. elim h [
          | inl (k, at, named) ↦
              inl (let it : j ≡ k = cc (e, at) in ap (λ (x : Job). x.id) it ∙ named)
          | inr more ↦ inr ((same id).0 more)
        ],
        λ h. elim h [ inl named ↦ inl (j, e, named) | inr more ↦ inr ((same id).1 more) ],
      ),
    )

maybe_done-terminal : (c : Coordinator) → (maybe_done c).terminal ≡ c.terminal
unfolding maybe_done
maybe_done-terminal c =
    if_split (λ (x : Coordinator). x.terminal ≡ c.terminal) _ (λ _. refl) (λ _. refl)

-- A tick of WatchDeadLetters whose ReceiveMessage succeeds: exactly the jobs that had a terminal state
-- have one, and those of the messages when every message can be decoded. One that cannot be decoded
-- keeps the tick from ending any job.
pub peek_tick-Ends :
    (now : Time) (messages : List Answered) (c : Coordinator) (id : String)
    → (HasEnded c id ⊎ (AllDecode messages × IsOf id messages)
        → HasEnded (peek_tick now (some messages) c) id)
      × (HasEnded (peek_tick now (some messages) c) id
          → HasEnded c id ⊎ (AllDecode messages × IsOf id messages))
unfolding peek_tick peek_dead_letters watch_tick
peek_tick-Ends now messages c id = step (letters_of messages) (letters_of-Outcome messages)
  where
    step :
        (found : Option (List DeadLetter))
        → Outcome messages found
        → (HasEnded c id ⊎ (AllDecode messages × IsOf id messages)
            → HasEnded (watch_tick now (dead_jobs found) c) id)
          × (HasEnded (watch_tick now (dead_jobs found) c) id
              → HasEnded c id ⊎ (AllDecode messages × IsOf id messages))
    step none undecoded =
        (λ h. elim h [ inl old ↦ old | inr (all, _) ↦ absurd (undecoded all) ], λ h. inl h)
    step (some letters) (all, same) =
        let ends = bury_all-Ends now (jobs_of letters) c id in
        rw (maybe_done-terminal (bury_all now (jobs_of letters) c)) (
          λ h. elim h [
            | inl old ↦ ends.0 (inl old)
            | inr (_, mine) ↦ ends.0 (inr ((same id).0 mine))
          ],
          λ h. elim (ends.1 h) [ inl old ↦ inl old | inr named ↦ inr (all, (same id).1 named) ],
        )
