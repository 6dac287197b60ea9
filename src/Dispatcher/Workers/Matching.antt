-- ===== src/Dispatcher/Workers/Matching.antt =====
-- Which of several workers beside the broker runs which job.
use job_scheduler_tooling.Prelude.{
  ◌≡◌, ◌≢◌, ◌⊎◌, inl, inr, refl, sym, ◌∙◌, ap, subst, String, false, none, some, str_eq, eq_iff,
  eq_refl, Bool-cases,
}
use job_scheduler_tooling.Prelude.Dict.{Dict, lookup, insert, erase, lookup-insert, lookup-erase_ne}
use job_scheduler_tooling.Prelude.Dict.Keys.{Has, insert-Has, lookup-insert_other}
use job_scheduler_tooling.Queue.{Job}
use job_scheduler_tooling.Dispatcher.Workers.{Phase, idle, working, deciding, set_phase}

-- The phase of another worker stays.
pub stays :
    (worker v : String) (p q : Phase) (ws : String → Phase)
    → ws v ≡ q
    → ¬ (ws worker ≡ q)
    → set_phase worker p ws v ≡ q
stays worker v p q ws here other = elim (Bool-cases (str_eq worker v)) [
  | inl e ↦ absurd (other (subst (λ u. ws u ≡ q) (sym ((eq_iff worker v).0 e)) here))
  | inr e ↦ rw e here
]

pub own : (worker : String) (p : Phase) (ws : String → Phase) → set_phase worker p ws worker ≡ p
own worker p ws = rw (eq_refl worker) refl

-- A phase after the change is the new one, or one from before.
from :
    (worker v : String) (p q : Phase) (ws : String → Phase)
    → set_phase worker p ws v ≡ q
    → ((worker ≡ v) × (p ≡ q)) ⊎ ((str_eq worker v ≡ false) × (ws v ≡ q))
from worker v p q ws h = elim (Bool-cases (str_eq worker v)) [
  | inl e ↦ inl ((eq_iff worker v).0 e, rw e at h)
  | inr e ↦ inr (e, rw e at h)
]

abbrev pub RunsJob : (String → Phase) → String → Type 0
RunsJob ws id = (w : String) × (j : Job) × (ws w ≡ working j) × (j.id ≡ id)

abbrev pub Asks : (String → Phase) → Job → Type 0
Asks ws j = (w : String) × (ws w ≡ deciding j)

-- The running jobs and the workers that run them.
pub record Matches (running : Dict Job) (ws : String → Phase) : Type 0 where
  pub held : (id : String) → Has running id → RunsJob ws id
  pub known : (w : String) (j : Job) → ws w ≡ working j → Has running j.id
  pub unique :
      (w v : String) (j k : Job) → ws w ≡ working j → ws v ≡ working k → j.id ≡ k.id → w ≡ v

-- Of a worker that runs no job before or after.
pub quiet-Matches :
    (running : Dict Job) (ws : String → Phase) (worker : String) (p : Phase)
    → Matches running ws
    → ((j : Job) → ¬ (ws worker ≡ working j))
    → ((j : Job) → ¬ (p ≡ working j))
    → Matches running (set_phase worker p ws)
quiet-Matches running ws worker p m before after = record {
  held = λ id h.
      let (w, j, at, named) = m.held id h in (w, j, stays worker w p _ ws at (before j), named);
  known = λ w j at. elim (from worker w p (working j) ws at) [
    | inl (same, new) ↦ absurd (after j new)
    | inr (other, old) ↦ m.known w j old
  ];
  unique = λ w v j k at at' same. elim (from worker w p (working j) ws at) [
    | inl (e, new) ↦ absurd (after j new)
    | inr (e, old) ↦ elim (from worker v p (working k) ws at') [
      | inl (e', new) ↦ absurd (after k new)
      | inr (e', old') ↦ m.unique w v j k old old' same
    ]
  ];
}

-- A worker that takes a job which no one runs.
working-equal : (j k : Job) → working j ≡ working k → j ≡ k
working-equal j k h = cc

-- A job under the ID is not running.
unheld-working :
    (running : Dict Job) (id : String) (job j k : Job)
    → job.id ≡ id
    → working job ≡ working j
    → j.id ≡ k.id
    → lookup id running ≡ none
    → ¬ (Has running k.id)
unheld-working running id job j k named new same unheld (x, h) =
    let e : id ≡ k.id = sym named ∙ (ap (λ (y : Job). y.id) (working-equal job j new) ∙ same) in
    let gone : lookup k.id running ≡ none = subst (λ i. lookup i running ≡ none) e unheld in
    cc (gone, h)

gone_other :
    (running : Dict Job) (id k : String) (x : Job)
    → id ≡ k
    → lookup id (erase id running) ≡ none
    → ¬ (lookup k (erase id running) ≡ some x)
gone_other running id k x e gone h =
    let none_there : lookup k (erase id running) ≡ none =
      subst (λ i. lookup i (erase id running) ≡ none) e gone in
    cc (none_there, h)

same_worker : (w v : String) → str_eq w v ≡ false → ¬ (w ≡ v)
same_worker w v h e = cc ((eq_iff w v).1 e, h)

pub claimed-Matches :
    (running : Dict Job) (ws : String → Phase) (worker id : String) (job : Job)
    → Matches running ws
    → ws worker ≡ idle
    → job.id ≡ id
    → lookup id running ≡ none
    → Matches (insert id job running) (set_phase worker (working job) ws)
claimed-Matches running ws worker id job m free named new = record {
  held = λ k (x, h). elim (Bool-cases (str_eq id k)) [
    | inl e ↦ (worker, job, own worker (working job) ws, named ∙ (eq_iff id k).0 e)
    | inr e ↦
        let (w, j, at, same) = m.held k (x, sym (lookup-insert_other id k job running e) ∙ h) in
        (w, j, stays worker w _ _ ws at (λ no. cc (free, no)), same)
  ];
  known = λ w j at. elim (from worker w (working job) (working j) ws at) [
    | inl (same, e) ↦
        let k : id ≡ j.id = sym named ∙ ap (λ (x : Job). x.id) (working-equal job j e) in
        subst (Has (insert id job running)) k
          (job, rw (lookup-insert id id job running, eq_refl id) refl)
    | inr (other, old) ↦ insert-Has id j.id job running (m.known w j old)
  ];
  unique = λ w v j k at at' same. elim (from worker w (working job) (working j) ws at) [
    | inl (e, new_one) ↦ elim (from worker v (working job) (working k) ws at') [
      | inl (e', new') ↦ sym e ∙ e'
      | inr (e', old') ↦
          absurd (unheld-working running id job j k named new_one same new (m.known v k old'))
    ]
    | inr (e, old) ↦ elim (from worker v (working job) (working k) ws at') [
      | inl (e', new') ↦
          absurd (unheld-working running id job k j named new' (sym same) new (m.known w j old))
      | inr (e', old') ↦ m.unique w v j k old old' same
    ]
  ];
}

-- A worker that reports its job.
pub dropped-Matches :
    (running : Dict Job) (ws : String → Phase) (worker : String) (job : Job) (p : Phase)
    → Matches running ws
    → ws worker ≡ working job
    → lookup job.id (erase job.id running) ≡ none
    → ((j : Job) → ¬ (p ≡ working j))
    → Matches (erase job.id running) (set_phase worker p ws)
dropped-Matches running ws worker job p m here gone after = record {
  held = λ k (x, h).
      let ne : job.id ≢ k = λ e. gone_other running job.id k x e gone h in
      let (w, j, at, same) = m.held k (x, sym (lookup-erase_ne job.id k running ne) ∙ h) in
      (
        w,
        j,
        stays worker w p _ ws at
            (λ e. ne (ap (λ (y : Job). y.id) (working-equal job j (sym here ∙ e)) ∙ same)),
        same,
      );
  known = λ w j at. elim (from worker w p (working j) ws at) [
    | inl (same, e) ↦ absurd (after j e)
    | inr (other, old) ↦
        let (x, h) = m.known w j old in
        let ne : job.id ≢ j.id =
          λ e. same_worker worker w other (m.unique worker w job j here old e) in
        (x, lookup-erase_ne job.id j.id running ne ∙ h)
  ];
  unique = λ w v j k at at' same. elim (from worker w p (working j) ws at) [
    | inl (e, new) ↦ absurd (after j new)
    | inr (e, old) ↦ elim (from worker v p (working k) ws at') [
      | inl (e', new) ↦ absurd (after k new)
      | inr (e', old') ↦ m.unique w v j k old old' same
    ]
  ];
}
