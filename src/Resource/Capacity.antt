-- ===== src/Resource/Capacity.antt =====
-- Reserve and Release keep a node within its capacity, and undo one another.
use job_scheduler_tooling.Prelude.{ℕ, ◌+◌, ◌≤◌, ◌<◌, ◌≡◌, ap, ◌∙◌, ◌↔◌, true, arith}
use job_scheduler_tooling.Prelude.Int.{
  ℤ, pos, leb_ℤ, add64, sub64, add64_pos, sub64_pos, int64_half,
}
use job_scheduler_tooling.Resource.{Requirements, Node, fits, reserve, release}

-- An amount that a 64-bit `int` holds.
abbrev pub Amount : ℤ → ℕ → Type 0
Amount z n = (z ≡ pos n) × (n < int64_half)

-- What is in use of one kind of resource is between nothing and the total.
pub record Within (total used : ℤ) : Type 0 where
  pub t : ℕ
  pub u : ℕ
  pub total_is : Amount total t
  pub used_is : used ≡ pos u
  pub le : u ≤ t

-- A node never has more in use than it has.
pub record IsSound (n : Node) : Type 0 where
  pub cpu : Within n.total_cpu n.used_cpu
  pub mem : Within n.total_mem_mb n.used_mem_mb
  pub gpu : Within n.total_gpus n.used_gpus

-- No part of a request is negative.
pub record IsRequest (r : Requirements) : Type 0 where
  pub cores : ℕ
  pub memory : ℕ
  pub gpu : ℕ
  pub cores_is : Amount r.cpu_cores cores
  pub memory_is : Amount r.memory_mb memory
  pub gpu_is : Amount r.gpus gpu

-- One kind of resource: the test of Fits is exact, and what passes it can be added.
pub fits_one :
    (t u r : ℕ)
    → u ≤ t
    → t < int64_half
    → r < int64_half
    → (leb_ℤ (pos r) (sub64 (pos t) (pos u)) ≡ true) ↔ (u + r ≤ t)
fits_one t u r h k l = rw (sub64_pos t u h k) (ground arith)

pub add_one : (t u r : ℕ) → u + r ≤ t → t < int64_half → add64 (pos u) (pos r) ≡ pos (u + r)
add_one t u r h k = add64_pos u r (omega arith)

add_back : (t u r : ℕ) → u + r ≤ t → t < int64_half → sub64 (add64 (pos u) (pos r)) (pos r) ≡ pos u
add_back t u r h k =
    rw (add_one t u r h k) (sub64_pos (u + r) r (omega arith) (omega arith) ∙ ap pos (omega arith))

add_exceeds :
    (t u r v : ℕ)
    → u ≤ t
    → t < int64_half
    → r < int64_half
    → add64 (pos u) (pos r) ≡ pos v
    → v ≤ t
    → u + r ≤ t
unfolding add64
add_exceeds t u r v h k l e b = ground arith

module _ (total used r : ℤ) (w : Within total used) (m : ℕ) (a : Amount r m) where
  room_of_test : leb_ℤ r (sub64 total used) ≡ true → w.u + m ≤ w.t
  room_of_test h =
      (fits_one w.t w.u m w.le w.total_is.1 a.1).0 (rw (a.0, w.total_is.0, w.used_is) at h)

  Within-add : leb_ℤ r (sub64 total used) ≡ true → Within total (add64 used r)
  Within-add h =
      let room : w.u + m ≤ w.t = room_of_test h in
      record {
        t = w.t;
        u = w.u + m;
        total_is = w.total_is;
        used_is = rw (w.used_is, a.0) (add_one w.t w.u m room w.total_is.1);
        le = room;
      }

  room_of_Within : Within total (add64 used r) → leb_ℤ r (sub64 total used) ≡ true
  room_of_Within v =
      let same : w.t ≡ v.t = cc (w.total_is.0, v.total_is.0) in
      let sum : add64 (pos w.u) (pos m) ≡ pos v.u = cc (w.used_is, a.0, v.used_is) in
      rw (a.0, w.total_is.0, w.used_is)
        ((fits_one w.t w.u m w.le w.total_is.1 a.1).1
          (add_exceeds w.t w.u m v.u w.le w.total_is.1 a.1 sum (omega (arith, v.le, same))))

  sub_of_add : leb_ℤ r (sub64 total used) ≡ true → sub64 (add64 used r) r ≡ used
  sub_of_add h =
      let room : w.u + m ≤ w.t = room_of_test h in
      rw (a.0, w.used_is) (add_back w.t w.u m room w.total_is.1)

pub fits_parts :
    (n : Node) (req : Requirements)
    → (fits n req ≡ true) ↔ (
        (leb_ℤ req.cpu_cores (sub64 n.total_cpu n.used_cpu) ≡ true)
        × (leb_ℤ req.memory_mb (sub64 n.total_mem_mb n.used_mem_mb) ≡ true)
        × (leb_ℤ req.gpus (sub64 n.total_gpus n.used_gpus) ≡ true))
unfolding fits
fits_parts n req = ground arith

-- On a node within its capacity, a request fits exactly when the node that Reserve leaves is
-- within its capacity too: the test is neither too weak nor too strong, and no sum wraps.
pub fits_iff_reserve-IsSound :
    (n : Node) (req : Requirements)
    → IsSound n
    → IsRequest req
    → (fits n req ≡ true) ↔ IsSound (reserve n req)
unfolding reserve
fits_iff_reserve-IsSound n req s q = (
  λ h.
      let (c, m, g) = (fits_parts n req).0 h in
      record {
        cpu = Within-add _ _ _ s.cpu q.cores q.cores_is c;
        mem = Within-add _ _ _ s.mem q.memory q.memory_is m;
        gpu = Within-add _ _ _ s.gpu q.gpu q.gpu_is g;
      },
  λ v. (fits_parts n req).1 (
    room_of_Within _ _ _ s.cpu q.cores q.cores_is v.cpu,
    room_of_Within _ _ _ s.mem q.memory q.memory_is v.mem,
    room_of_Within _ _ _ s.gpu q.gpu q.gpu_is v.gpu,
  ),
)

-- Release after Reserve gives back the node, when the request fitted.
release-reserve :
    (n : Node) (req : Requirements)
    → IsSound n
    → IsRequest req
    → fits n req ≡ true
    → release (reserve n req) req ≡ n
unfolding reserve release
release-reserve n req s q h =
    let (c, m, g) = (fits_parts n req).0 h in
    cc (
      sub_of_add _ _ _ s.cpu q.cores q.cores_is c,
      sub_of_add _ _ _ s.mem q.memory q.memory_is m,
      sub_of_add _ _ _ s.gpu q.gpu q.gpu_is g,
    )
