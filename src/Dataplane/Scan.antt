-- ===== src/Dataplane/Scan.antt =====
-- internal/dataplane/snapshot.go: `ScanRestorePoints` with `latestSnapshotTarget`, `newestSnapshot`
-- and `parseSnapshotTime`. The reading of dates is a parameter.
pub mod Listed
use kube_rsync_machine.Common.{
  ℕ, Bool, true, false, not, ◌&&◌, List, [], ◌∷◌, ◌++◌, Option, none, some, Result, ok, err, ◌>>=◌,
  if◌then◌else◌, map,
}
use kube_rsync_machine.Common.Sort.{sort}
use kube_rsync_machine.Common.Text.{GoString, codes, str_eq, str_ltb, split}
use kube_rsync_machine.Dataplane.Paths.{slash, normalize_relative_path, PathError}
use kube_rsync_machine.Dataplane.Files.{
  FilePath, Node, directory, file, symlink, special, Files, FileError, not_exist, io_failure,
  System, Call, links, read_dirs, lstat, stat,
}
use kube_rsync_machine.Dataplane.Retention.{hourly, daily, weekly, monthly, latest, snapshot_name}

-- `time.Parse` with the layouts of a snapshot, a day and a month; 0 is the zero time, which the code
-- takes for a text that is none.
pub record Dates : Type 0 where
  pub parse_timestamp : GoString → ℕ
  pub parse_day : GoString → ℕ
  pub parse_month : GoString → ℕ

-- `RestorePoint`
pub record ScannedPoint : Type 0 where
  pub snapshot : GoString
  pub resolves_to : GoString
  pub tier : GoString
  pub created_at : ℕ
  pub bytes_transferred : ℕ

pub data ScanError : Type 0 where
  unreadable : FileError → ScanError
  invalid_latest_target : PathError → ScanError

abbrev pub time_of_parts : Dates → List GoString → ℕ
time_of_parts dates [] = 0
time_of_parts dates (tier ∷ []) = 0
time_of_parts dates (tier ∷ name ∷ []) =
    if str_eq tier hourly
    then dates.parse_timestamp name
    else if str_eq tier daily
    then dates.parse_day name
    else if str_eq tier weekly
    then dates.parse_day name
    else if str_eq tier monthly
    then dates.parse_month name
    else 0
time_of_parts dates (tier ∷ name ∷ part ∷ parts) = 0

-- `parseSnapshotTime`
unfoldable pub parse_snapshot_time : Dates → GoString → ℕ
parse_snapshot_time dates snapshot = time_of_parts dates (split slash snapshot)

abbrev pub last_name : GoString → List GoString → GoString
last_name tier [] = []
last_name tier (name ∷ []) = snapshot_name tier name
last_name tier (name ∷ next ∷ names) = last_name tier (next ∷ names)

-- `newestSnapshot`; `read_dirs` lists the names in order.
unfoldable pub newest_snapshot : System → GoString → Files → Result ScanError GoString
newest_snapshot system tier files = elim (read_dirs system (tier ∷ []) files) [
  | err not_exist ↦ ok []
  | err io_failure ↦ err (unreadable io_failure)
  | ok names ↦ ok (last_name tier names)
]

abbrev pub resolved : GoString → Result FileError Node → Result ScanError GoString
resolved normalized (ok node) = ok normalized
resolved normalized (err not_exist) = ok []
resolved normalized (err io_failure) = err (unreadable io_failure)

unfoldable pub link_target : System → GoString → Files → Result ScanError GoString
link_target system target files = elim (normalize_relative_path target) [
  | err e ↦ err (invalid_latest_target e)
  | ok normalized ↦ resolved normalized (stat system (split slash normalized) files)
]

-- `latestSnapshotTarget`
unfoldable pub latest_snapshot_target : System → Files → Result ScanError GoString
unfolding link_target newest_snapshot
latest_snapshot_target system files = elim (lstat system latest files) [
  | err not_exist ↦ ok []
  | err io_failure ↦ err (unreadable io_failure)
  | ok (symlink target) ↦
      if system.fails links latest
      then err (unreadable io_failure)
      else link_target system target files
  | ok directory ↦ newest_snapshot system hourly files
  | ok (file inode) ↦ newest_snapshot system hourly files
  | ok special ↦ newest_snapshot system hourly files
]

abbrev pub latest_name : GoString
latest_name = codes "latest"

abbrev pub latest_point : Dates → GoString → ScannedPoint
latest_point dates target = record {
  snapshot = latest_name;
  resolves_to = target;
  tier = [];
  created_at = parse_snapshot_time dates target;
  bytes_transferred = 0;
}

-- The point for `latest`, if that leads somewhere.
unfoldable pub latest_points :
    System → Dates → GoString → Files → Result ScanError (List ScannedPoint)
unfolding parse_snapshot_time
latest_points system dates target files = elim (stat system latest files) [
  | err not_exist ↦ ok []
  | err io_failure ↦ err (unreadable io_failure)
  | ok node ↦ ok (latest_point dates target ∷ [])
]

abbrev pub tier_point : Dates → GoString → GoString → ScannedPoint
tier_point dates tier name = record {
  snapshot = snapshot_name tier name;
  resolves_to = [];
  tier = tier;
  created_at = parse_snapshot_time dates (snapshot_name tier name);
  bytes_transferred = 0;
}

-- One round of the loop over the tiers.
abbrev pub tier_points :
    Dates → GoString → Result FileError (List GoString) → Result ScanError (List ScannedPoint)
tier_points dates tier (err not_exist) = ok []
tier_points dates tier (err io_failure) = err (unreadable io_failure)
tier_points dates tier (ok names) = ok (map (tier_point dates tier) names)

unfoldable pub scan_tiers :
    System → Dates → List GoString → Files → Result ScanError (List ScannedPoint)
scan_tiers system dates [] files = ok []
scan_tiers system dates (tier ∷ tiers) files =
    tier_points dates tier (read_dirs system (tier ∷ []) files) >>= λ points.
    scan_tiers system dates tiers files >>= λ rest. ok (points ++ rest)

abbrev pub all_tiers : List GoString
all_tiers = hourly ∷ daily ∷ weekly ∷ monthly ∷ []

-- The test of `sort.Slice`.
unfoldable pub point_less : ScannedPoint → ScannedPoint → Bool
point_less a b =
    if str_eq a.snapshot latest_name
    then true
    else if str_eq b.snapshot latest_name
    then false
    else str_ltb b.snapshot a.snapshot

unfoldable pub point_leb : ScannedPoint → ScannedPoint → Bool
point_leb a b = not (point_less b a)

-- `ScanRestorePoints`; `filepath.Abs` of the root succeeds.
unfoldable pub scan_restore_points : System → Dates → Files → Result ScanError (List ScannedPoint)
unfolding latest_snapshot_target latest_points scan_tiers point_leb
scan_restore_points system dates files = do
  target ← latest_snapshot_target system files
  first ← latest_points system dates target files
  points ← scan_tiers system dates all_tiers files
  ok (sort point_leb (first ++ points))
