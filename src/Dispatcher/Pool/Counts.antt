-- ===== src/Dispatcher/Pool/Counts.antt =====
-- The pool of cmd/dispatcher/sqs.go after each of its changes.
use job_scheduler_tooling.Prelude.{
  ℕ, ◌+◌, ◌≤◌, ◌<◌, ◌≡◌, refl, ◌∙◌, String, true, false, List, [], ◌∷◌, ◌++◌, Option, none, some,
  arith, length, if_split, option_split, str_eq, eq_iff, inl, inr, Bool-cases,
}
use job_scheduler_tooling.Prelude.Dict.{
  Dict, lookup, insert, lookup-insert, length-insert_new, length-insert_old,
}
use job_scheduler_tooling.Prelude.Dict.Keys.{Has, lookup-insert_other, insert-Has}
use job_scheduler_tooling.Text.Decimal.{numbered_02-injective}
use job_scheduler_tooling.Dispatcher.Pool.{
  WorkerProc, Pool, spawn, reap, mark_killed, live, alive, worker_id,
}

-- All the processes are of the pool.
unfoldable pub AreKnown : Dict WorkerProc → List String → Type 0
AreKnown procs [] = Unit
AreKnown procs (id ∷ ids) = Has procs id × AreKnown procs ids

alive-insert_new :
    (id : String) (w : WorkerProc) (procs : Dict WorkerProc)
    → lookup id procs ≡ none
    → alive (insert id w procs) ≡ alive procs + live w
unfolding alive insert lookup
alive-insert_new id w [] h = omega arith
alive-insert_new id w ((k, v) ∷ procs) h = ground (arith, alive-insert_new id w procs, h)

alive-insert_old :
    (id : String) (v w : WorkerProc) (procs : Dict WorkerProc)
    → lookup id procs ≡ some v
    → alive (insert id w procs) + live v ≡ alive procs + live w
unfolding alive insert lookup
alive-insert_old id v w [] h = cc
alive-insert_old id v w ((k, u) ∷ procs) h = elim (Bool-cases (str_eq k id)) [
  | inl e ↦
      let whole : some u ≡ some v = ground (arith, e, h) in
      let same : live u ≡ live v = cc in rw e (omega (arith, same))
  | inr e ↦
      let rest = alive-insert_old id v w procs (ground (arith, e, h)) in rw e (omega (arith, rest))
]

AreKnown-insert :
    (id : String) (w : WorkerProc) (procs : Dict WorkerProc) (ids : List String)
    → AreKnown procs ids
    → AreKnown (insert id w procs) ids
unfolding AreKnown
AreKnown-insert id w procs [] h = tt
AreKnown-insert id w procs (k ∷ ids) (first, more) =
    (insert-Has id k w procs first, AreKnown-insert id w procs ids more)

AreKnown-append :
    (procs : Dict WorkerProc) (ids : List String) (id : String)
    → AreKnown procs ids
    → Has procs id
    → AreKnown procs (ids ++ (id ∷ []))
unfolding AreKnown
AreKnown-append procs [] id h last = (last, tt)
AreKnown-append procs (k ∷ ids) id (first, more) last =
    (first, AreKnown-append procs ids id more last)

length-append_one : {A : Type 0} (xs : List A) (x : A) → length (xs ++ (x ∷ [])) ≡ length xs + 1
length-append_one [] x = refl
length-append_one (y ∷ xs) x = omega (arith, length-append_one xs x)

-- Of the pool.
pub record Sound (p : Pool) : Type 0 where
  pub fresh : (k : ℕ) → p.next_id < k → lookup (worker_id k) p.procs ≡ none
  pub sized : length p.procs ≡ p.spawned
  pub known : AreKnown p.procs p.exits
  pub counted : length p.exits + alive p.procs ≤ p.spawned

-- An entry of the pool that is changed, with no process more alive.
update-Sound :
    (p : Pool) (id : String) (v w : WorkerProc)
    → Sound p
    → lookup id p.procs ≡ some v
    → live w ≡ live v
    → Sound (record p { procs = insert id w p.procs })
update-Sound p id v w s at same = record {
  fresh = λ k lt.
      ground (
        arith,
        lookup-insert id (worker_id k) w p.procs,
        eq_iff id (worker_id k),
        at,
        s.fresh k lt,
      );
  sized = length-insert_old id w v p.procs at ∙ s.sized;
  known = AreKnown-insert id w p.procs p.exits s.known;
  counted = omega (arith, s.counted, alive-insert_old id v w p.procs at, same);
}

pub spawn-Sound : (error : Option String) (p : Pool) → Sound p → Sound (spawn error p)
unfolding spawn
spawn-Sound (some e) p s = record {
  fresh = λ k lt. s.fresh k (omega (arith, lt));
  sized = s.sized;
  known = s.known;
  counted = s.counted;
}
spawn-Sound none p s =
    let id = worker_id (p.next_id + 1) in
    let new = s.fresh (p.next_id + 1) (omega arith) in
    record {
      fresh = λ k lt. elim (Bool-cases (str_eq id (worker_id k))) [
        | inl e ↦
            let same = numbered_02-injective "worker-" (p.next_id + 1) k ((eq_iff _ _).0 e) in
            absurd (omega (arith, lt, same))
        | inr e ↦ lookup-insert_other id (worker_id k) _ p.procs e ∙ s.fresh k (omega (arith, lt))
      ];
      sized = omega (arith, length-insert_new id _ p.procs new, s.sized);
      known = AreKnown-insert id _ p.procs p.exits s.known;
      counted = omega (arith, s.counted, alive-insert_new id _ p.procs new);
    }

pub reap-Sound :
    (id : String) (w : WorkerProc) (p : Pool)
    → Sound p
    → lookup id p.procs ≡ some w
    → w.exited ≡ false
    → Sound (reap id w p)
unfolding reap
reap-Sound id w p s at running =
    let one : live w ≡ 1 = rw running refl in
    record {
      fresh = λ k lt. ground (
        arith,
        lookup-insert id (worker_id k) (record w { exited = true }) p.procs,
        eq_iff id (worker_id k),
        at,
        s.fresh k lt,
      );
      sized = length-insert_old id _ w p.procs at ∙ s.sized;
      known =
          AreKnown-append _ p.exits id (AreKnown-insert id _ p.procs p.exits s.known)
            (insert-Has id id _ p.procs (w, at));
      counted = omega (
        arith,
        s.counted,
        one,
        length-append_one p.exits id,
        alive-insert_old id w (record w { exited = true }) p.procs at,
      );
    }

pub kill-Sound : (id : String) (p : Pool) → Sound p → Sound (mark_killed id p)
unfolding mark_killed
kill-Sound id p s =
    option_split Sound (lookup id p.procs) (λ _. s)
      (λ w at. if_split Sound w.killed (λ _. s) (λ _. update-Sound p id w _ s at refl))
