-- ===== src/Controller/History.antt =====
-- internal/controller/reconcilers.go: which finished backup jobs leave the history,
-- `pruneBackupJobHistoryCandidates`, and `backupJobBytesTransferred`.
pub mod Newest
use kube_rsync_machine.Common.{
  ℕ, ◌+◌, ◌^◌, ◌%◌, Bool, true, false, not, ◌&&◌, List, [], ◌∷◌, ◌++◌, Option, none, some,
  if◌then◌else◌, ltb, leb, ◌==◌, length, drop,
}
use kube_rsync_machine.Common.Int.{ℤ, to_ℕ}
use kube_rsync_machine.Common.Sort.{sort}
use kube_rsync_machine.Common.Text.{GoString, codes, str_eq, str_ltb}
use kube_rsync_machine.Controller.Clock.{Time}
use kube_rsync_machine.Controller.Transfers.{TransferStatus}
use kube_rsync_machine.Controller.Runs.{BackupJob}

-- A run with the time at which it was created.
pub record PastJob : Type 0 where
  pub run : BackupJob
  pub creation_timestamp : Time

abbrev pub or_created : Option Time → Time → Time
or_created none created = created
or_created (some completed) created = completed

unfoldable pub backup_run_history_time : PastJob → Time
backup_run_history_time job = or_created job.run.completed_at job.creation_timestamp

-- `namespacedKey`
unfoldable pub namespaced_key : BackupJob → GoString
namespaced_key run = run.namespace ++ b'/' ∷ run.name

-- The test of `sort.Slice`.
unfoldable pub is_newer : PastJob → PastJob → Bool
is_newer a b =
    let left = backup_run_history_time a in
    let right = backup_run_history_time b in
    if not (left == right)
    then ltb right left
    else str_ltb (namespaced_key b.run) (namespaced_key a.run)

unfoldable pub newest_first : PastJob → PastJob → Bool
newest_first a b = not (is_newer b a)

unfoldable pub prune_backup_job_history_candidates : List PastJob → ℤ → List PastJob
prune_backup_job_history_candidates runs keep =
    let sorted = sort newest_first runs in
    if leb (length sorted) (to_ℕ keep) then [] else drop (to_ℕ keep) sorted
