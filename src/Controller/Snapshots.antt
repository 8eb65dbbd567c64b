-- ===== src/Controller/Snapshots.antt =====
-- internal/controller/reconcilers.go: the snapshot that a restore reads, `resolveRestoreSnapshot` and
-- `cleanSnapshotPath`.
pub mod Listed
use kube_rsync_machine.Common.{
  Bool, true, false, ◌||◌, not, List, [], ◌∷◌, Result, ok, err, map_err, if◌then◌else◌, any,
}
use kube_rsync_machine.Common.Text.{
  GoString, codes, is_empty, str_eq, has_prefix, contains, split, path_clean,
}
use kube_rsync_machine.Controller.Machines.{MachinePoint}

pub data SnapshotError : Type 0 where
  path_required must_be_relative must_use_slash must_not_go_up must_name_directory : SnapshotError
  only_current not_present does_not_resolve : SnapshotError
  invalid_resolved : SnapshotError → SnapshotError

abbrev pub refuse_dot : GoString → Result SnapshotError GoString
refuse_dot path = if str_eq path (codes ".") then err must_name_directory else ok path

unfoldable pub clean_snapshot_path : GoString → Result SnapshotError GoString
clean_snapshot_path value =
    if is_empty value
    then err path_required
    else if has_prefix value (codes "/")
    then err must_be_relative
    else if contains value b'\\'
    then err must_use_slash
    else if any (λ part. str_eq part (codes "..")) (split b'/' value)
    then err must_not_go_up
    else refuse_dot (path_clean value)

abbrev pub latest_snapshot : GoString
latest_snapshot = codes "latest"

abbrev pub current_snapshot : GoString
current_snapshot = codes "current"

abbrev pub or_latest : GoString → GoString
or_latest requested = if is_empty requested then latest_snapshot else requested

abbrev pub is_unlisted : List MachinePoint → Bool
is_unlisted [] = true
is_unlisted (point ∷ points) = false

-- The loop over the restore points for a snapshot that is named.
abbrev pub listed_snapshot : List MachinePoint → GoString → Result SnapshotError GoString
listed_snapshot points normalized =
    if is_unlisted points || any (λ point. str_eq point.snapshot normalized) points
    then ok normalized
    else err not_present

-- The loop over the restore points for "latest".
unfoldable pub resolved_latest : List MachinePoint → Result SnapshotError GoString
resolved_latest [] = err not_present
resolved_latest (point ∷ points) =
    let rest = resolved_latest points in
    if str_eq point.snapshot latest_snapshot
    then (if is_empty point.resolves_to
        then err does_not_resolve
        else map_err invalid_resolved (clean_snapshot_path point.resolves_to))
    else rest

abbrev pub listed_result :
    List MachinePoint → Result SnapshotError GoString → Result SnapshotError GoString
listed_result points (ok normalized) = listed_snapshot points normalized
listed_result points (err e) = err e

-- `resolveRestoreSnapshot` of a machine that is a mirror or not, with these restore points.
unfoldable pub resolve_restore_snapshot :
    GoString → Bool → List MachinePoint → Result SnapshotError GoString
resolve_restore_snapshot requested mirror points =
    if mirror
    then (if is_empty requested
          || str_eq requested latest_snapshot
          || str_eq requested current_snapshot
        then ok current_snapshot
        else err only_current)
    else if not (str_eq (or_latest requested) latest_snapshot)
    then listed_result points (clean_snapshot_path (or_latest requested))
    else resolved_latest points
