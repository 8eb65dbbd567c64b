-- ===== src/Tests/Jobs.antt =====
-- The history of jobs, the snapshot of a restore and the generated names at concrete inputs.
use mathlib.Core.List.{Perm}
use kube_rsync_machine.Common.{
  ℕ, ◌≡◌, ◌≤◌, ◌⊎◌, refl, false, List, [], ◌∷◌, ◌++◌, none, ok, All, length,
}
use kube_rsync_machine.Common.Int.{pos, to_ℕ}
use kube_rsync_machine.Common.Text.{
  GoString, codes, contains, has_prefix, split, join, str_eq, path_clean,
}
use kube_rsync_machine.Common.Sort.{sort, insert_sorted}
use kube_rsync_machine.Dataplane.Paths.{normalize_relative_path}
use kube_rsync_machine.Controller.History.{
  PastJob, newest_first, is_newer, backup_run_history_time, prune_backup_job_history_candidates,
}
use kube_rsync_machine.Controller.History.Newest.{IsOldest, prune_backup_job_history_candidates_lem}
use kube_rsync_machine.Controller.Machines.{MachinePoint}
use kube_rsync_machine.Controller.Snapshots.{
  resolve_restore_snapshot, resolved_latest, clean_snapshot_path,
}
use kube_rsync_machine.Controller.Snapshots.Listed.{IsOffered, resolve_restore_snapshot-IsOffered}
use kube_rsync_machine.Controller.Labels.{is_alphanumeric, target_guard_lease_name}
use kube_rsync_machine.Controller.Labels.Valid.{IsHash, IsLabel, target_guard_lease_name-IsLabel}
use kube_rsync_machine.Tests.Runs.{job}

abbrev past : ℕ → PastJob
past created = record { run = job; creation_timestamp = created }

abbrev three_runs : List PastJob
three_runs = past 5 ∷ past 9 ∷ past 7 ∷ []

-- The oldest goes.
oldest_pruned : prune_backup_job_history_candidates three_runs (pos 2) ≡ past 5 ∷ []
unfolding prune_backup_job_history_candidates newest_first is_newer backup_run_history_time sort
    insert_sorted
oldest_pruned = refl

prune_backup_job_history_candidates_lem_example :
    let candidates : List PastJob = prune_backup_job_history_candidates three_runs (pos 2) in
    (kept : List PastJob) × Perm (kept ++ candidates) three_runs
    × (length kept ≤ to_ℕ (pos 2))
    × ((candidates ≡ []) ⊎ (length kept ≡ to_ℕ (pos 2)))
    × All (IsOldest kept) candidates
prune_backup_job_history_candidates_lem_example =
    prune_backup_job_history_candidates_lem three_runs (pos 2)

abbrev point : GoString → GoString → MachinePoint
point snapshot resolves_to = record {
  snapshot = snapshot;
  resolves_to = resolves_to;
  tier = [];
  created_at = none;
  bytes_transferred = 0;
}

abbrev two_points : List MachinePoint
two_points = point (codes "hourly/a") [] ∷ point (codes "latest") (codes "hourly//a") ∷ []

latest_resolved : resolve_restore_snapshot [] false two_points ≡ ok (codes "hourly/a")
unfolding resolve_restore_snapshot resolved_latest clean_snapshot_path path_clean split join
    has_prefix contains str_eq
latest_resolved = refl

resolve_restore_snapshot-IsOffered_example :
    (normalize_relative_path (codes "hourly/a") ≡ ok (codes "hourly/a"))
    × ((two_points ≡ []) ⊎ IsOffered two_points (codes "hourly/a"))
resolve_restore_snapshot-IsOffered_example =
    resolve_restore_snapshot-IsOffered [] two_points (codes "hourly/a") latest_resolved

abbrev ten_digits : GoString → GoString
ten_digits s = codes "0123456789"

ten_digits-IsHash : IsHash ten_digits
unfolding is_alphanumeric
ten_digits-IsHash = record {
  long = λ s. refl;
  digits = λ s. (refl, (refl, (refl, (refl, (refl, (refl, (refl, (refl, (refl, (refl, tt))))))))));
}

target_guard_lease_name-IsLabel_example : IsLabel (
    target_guard_lease_name ten_digits
      (record { namespace = codes "krm"; name = codes "nas.example" }))
target_guard_lease_name-IsLabel_example =
    target_guard_lease_name-IsLabel ten_digits ten_digits-IsHash
      (record { namespace = codes "krm"; name = codes "nas.example" })
