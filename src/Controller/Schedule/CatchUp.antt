-- ===== src/Controller/Schedule/CatchUp.antt =====
-- `reconcileSchedule` of internal/controller/reconcilers.go, called again and again for a machine that
-- has an activation on record.
use kube_rsync_machine.Common.{ℕ, ◌+◌, ◌<◌, ◌≤◌, ◌≡◌, ◌⊎◌, List, keep_if, length, suc}
use kube_rsync_machine.Controller.Clock.{Time}
use kube_rsync_machine.Controller.Schedule.Due.{activation}
use kube_rsync_machine.Controller.Schedule.Ticks.{Cluster, Tick, activations, recorded, is_good}

module _ (next : Time → Time) (later : (t : Time) → t < next t) (created : Time) where
  -- The first `k` jobs are created and the last activation on record is that of the last of them, or
  -- of the one before.
  abbrev IsAt : Time → ℕ → ℕ → Cluster → Type 0
  IsAt t j k w =
      (w ≡ recorded (activation next j t) (activations next k t)) × ((k ≡ j) ⊎ (k ≡ suc j))

  abbrev Progress : Time → Time → List Tick → ℕ → ℕ → Type 0
  Progress t from ticks j j' =
      (length (keep_if (is_good from) ticks) + j ≤ j') ⊎ (from < activation next (suc j') t)
