-- ===== src/Tests/Text.antt =====
-- The text search on concrete texts.
use job_scheduler_tooling.Prelude.{◌≡◌, ◌↔◌, refl, true}
use job_scheduler_tooling.Text.{codes, to_lower, contains, OccursIn, contains_iff}

lowered : contains (to_lower (codes "CUDA Out of Memory")) (codes "out of memory") ≡ true
unfolding contains to_lower
lowered = refl

contains_iff_example :
    (contains (codes "transient GPU worker reset") (codes "worker") ≡ true)
    ↔ OccursIn (codes "worker") (codes "transient GPU worker reset")
contains_iff_example = contains_iff (codes "transient GPU worker reset") (codes "worker")
