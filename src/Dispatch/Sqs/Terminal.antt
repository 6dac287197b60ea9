-- ===== src/Dispatch/Sqs/Terminal.antt =====
-- The terminal states of jobs in the coordinator (internal/dispatch/sqs.go), and their counters.
use job_scheduler_tooling.Prelude.{
  ℕ, ◌+◌, ◌≤◌, ◌≡◌, refl, sym, ◌∙◌, ◌&&◌, List, [], ◌∷◌, none, some, arith, leb, if_split,
  option_split, String, length, str_eq, eq_iff,
}
use job_scheduler_tooling.Prelude.Dict.{
  lookup, IsUnique, lookup-insert, length-insert_new, insert-IsUnique,
}
use job_scheduler_tooling.Queue.{Job, Time}
use job_scheduler_tooling.Telemetry.{Event}
use job_scheduler_tooling.Triage.{Decision, retry, auto_adjust, escalate}
use job_scheduler_tooling.Dispatch.Sqs.{
  SqsStats, Coordinator, end_job, maybe_done, log, apply_decision, SqsReportArgs, bury, bury_all,
}

-- The jobs counted as ended.
abbrev pub ended : SqsStats → ℕ
ended s = s.succeeded + s.escalated + s.dead_lettered

pub record Inv (c : Coordinator) : Type 0 where
  pub unique : IsUnique c.terminal
  pub counted : length c.terminal ≡ ended c.stats
  pub done_is : c.done ≡ (c.closed && leb c.stats.submitted (length c.terminal))

-- No terminal state is lost or changed.
abbrev pub Keeps : Coordinator → Coordinator → Type 0
Keeps c c' =
    (id state : String) → lookup id c.terminal ≡ some state → lookup id c'.terminal ≡ some state

pub record Grows (c c' : Coordinator) : Type 0 where
  pub keeps : Keeps c c'
  pub unique : IsUnique c.terminal → IsUnique c'.terminal
  pub counted : length c'.terminal + ended c.stats ≡ length c.terminal + ended c'.stats
  pub longer : length c.terminal ≤ length c'.terminal
  pub submitted : c'.stats.submitted ≡ c.stats.submitted
  pub closed : c'.closed ≡ c.closed
  pub done : c'.done ≡ c.done

-- Nothing that matters here has changed.
pub same-Grows :
    (c c' : Coordinator)
    → c'.terminal ≡ c.terminal
    → ended c'.stats ≡ ended c.stats
    → c'.stats.submitted ≡ c.stats.submitted
    → c'.closed ≡ c.closed
    → c'.done ≡ c.done
    → Grows c c'
same-Grows c c' t e s cl d = record {
  keeps = λ _ _ k. rw t k;
  unique = λ u. rw t u;
  counted = rw t (omega (arith, e));
  longer = rw t (omega arith);
  submitted = s;
  closed = cl;
  done = d;
}

pub Grows-trans : (a b c : Coordinator) → Grows a b → Grows b c → Grows a c
Grows-trans a b c g h = record {
  keeps = λ i s k. h.keeps i s (g.keeps i s k);
  unique = λ u. h.unique (g.unique u);
  counted = omega (arith, g.counted, h.counted);
  longer = omega (arith, g.longer, h.longer);
  submitted = h.submitted ∙ g.submitted;
  closed = h.closed ∙ g.closed;
  done = h.done ∙ g.done;
}

pub end_job-Grows :
    (id state : String) (stats : SqsStats) (e : Event) (c : Coordinator)
    → lookup id c.terminal ≡ none
    → ended stats ≡ ended c.stats + 1
    → stats.submitted ≡ c.stats.submitted
    → Grows c (end_job id state stats e c)
unfolding log
end_job-Grows id state stats e c new one same = record {
  keeps = λ j s k. ground (arith, lookup-insert id j state c.terminal, eq_iff id j, k, new);
  unique = insert-IsUnique id state c.terminal;
  counted = omega (arith, one, length-insert_new id state c.terminal new);
  longer = omega (arith, length-insert_new id state c.terminal new);
  submitted = same;
  closed = refl;
  done = refl;
}

pub apply_decision-Grows :
    (args : SqsReportArgs) (now : Time) (d : Decision) (c : Coordinator)
    → lookup args.job.id c.terminal ≡ none
    → Grows c (apply_decision args now d c)
unfolding apply_decision log
apply_decision-Grows args now d c new =
    if_split (Grows c) (str_eq d.action retry) (λ _. same-Grows c _ refl refl refl refl refl)
      (λ _.
        if_split (Grows c) (str_eq d.action auto_adjust)
          (λ _. same-Grows c _ refl refl refl refl refl)
          (λ _.
            if_split (Grows c) (str_eq d.action escalate)
              (λ _. end_job-Grows args.job.id "escalated" _ _ c new (omega arith) refl)
              (λ _. same-Grows c c refl refl refl refl refl)))

bury-Grows : (now : Time) (job : Job) (c : Coordinator) → Grows c (bury now job c)
unfolding bury
bury-Grows now job c =
    option_split (Grows c) (lookup job.id c.terminal)
      (λ new. end_job-Grows job.id "dead_lettered" _ _ c new (omega arith) refl)
      (λ _ _. same-Grows c c refl refl refl refl refl)

pub bury_all-Grows :
    (now : Time) (dead : List Job) (c : Coordinator) → Grows c (bury_all now dead c)
unfolding bury_all
bury_all-Grows now [] c = same-Grows c c refl refl refl refl refl
bury_all-Grows now (job ∷ dead) c =
    Grows-trans c (bury now job c) _ (bury-Grows now job c)
      (bury_all-Grows now dead (bury now job c))

-- The test for the end follows every growth.
pub maybe_done-Inv : (c c' : Coordinator) → Inv c → Grows c c' → Inv (maybe_done c')
unfolding maybe_done
maybe_done-Inv c c' v g =
    if_split Inv (c'.closed && leb c'.stats.submitted (length c'.terminal))
      (λ t. record {
        unique = g.unique v.unique;
        counted = omega (arith, g.counted, v.counted);
        done_is = sym t;
      })
      (λ f. record {
        unique = g.unique v.unique;
        counted = omega (arith, g.counted, v.counted);
        done_is = ground (arith, f, g.done, g.closed, g.submitted, g.longer, v.done_is);
      })

pub maybe_done-Keeps : (c c' : Coordinator) → Keeps c c' → Keeps c (maybe_done c')
unfolding maybe_done
maybe_done-Keeps c c' k = if_split (Keeps c) _ (λ _. k) (λ _. k)

-- Where no terminal state is added, the test is not needed.
pub still-Inv :
    (c c' : Coordinator) → Inv c → Grows c c' → length c'.terminal ≡ length c.terminal → Inv c'
still-Inv c c' v g same = record {
  unique = g.unique v.unique;
  counted = omega (arith, g.counted, v.counted);
  done_is = ground (arith, g.done, g.closed, g.submitted, same, v.done_is);
}
