-- ===== src/Tests/Scan.antt =====
-- `ScanRestorePoints` at a concrete target.
use kube_rsync_machine.Common.{◌≡◌, refl, List, [], ◌∷◌, ok, All}
use kube_rsync_machine.Common.Maps.{lookup, insert}
use kube_rsync_machine.Common.Sort.{sort, insert_sorted}
use kube_rsync_machine.Common.Text.{
  codes, str_eq, str_leb, str_ltb, contains, has_prefix, split, join,
}
use kube_rsync_machine.Dataplane.Paths.{normalize_relative_path}
use kube_rsync_machine.Dataplane.Files.{
  FilePath_eq, path_eq, is_under, dir_names, walk, parent, stat, lstat, follow, read_dirs,
}
use kube_rsync_machine.Dataplane.Retention.{hourly, snapshot_name}
use kube_rsync_machine.Dataplane.Scan.{
  Dates, ScannedPoint, parse_snapshot_time, newest_snapshot, link_target, latest_snapshot_target,
  latest_points, scan_tiers, all_tiers, point_less, point_leb, scan_restore_points,
}
use kube_rsync_machine.Dataplane.Scan.Listed.{IsScanned, IsCovered, scan_restore_points_ok}
use kube_rsync_machine.Tests.Retention.{system, target, one, two}

abbrev dates : Dates
dates = record { parse_timestamp = λ text. 1; parse_day = λ text. 2; parse_month = λ text. 3 }

-- "latest" is first, then the names from above.
abbrev found : List ScannedPoint
found =
    record {
      snapshot = codes "latest";
      resolves_to = snapshot_name hourly two;
      tier = [];
      created_at = 1;
      bytes_transferred = 0;
    }
    ∷ record {
      snapshot = snapshot_name hourly two;
      resolves_to = [];
      tier = hourly;
      created_at = 1;
      bytes_transferred = 0;
    }
    ∷ record {
      snapshot = snapshot_name hourly one;
      resolves_to = [];
      tier = hourly;
      created_at = 1;
      bytes_transferred = 0;
    }
    ∷ []

finds : scan_restore_points system dates target ≡ ok found
unfolding scan_restore_points latest_snapshot_target link_target newest_snapshot latest_points
    parse_snapshot_time scan_tiers point_leb point_less read_dirs dir_names lstat stat follow walk
    parent is_under path_eq lookup insert sort insert_sorted normalize_relative_path str_eq str_leb
    str_ltb split join has_prefix contains
finds = refl

scan_restore_points_ok_example :
    All (IsScanned system target) found × All (IsCovered system target found) all_tiers
scan_restore_points_ok_example = scan_restore_points_ok system dates target found finds
