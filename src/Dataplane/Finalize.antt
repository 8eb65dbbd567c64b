-- ===== src/Dataplane/Finalize.antt =====
-- internal/dataplane/snapshot.go: `FinalizeBackup`, by which the partial files of a run become a
-- restore point, with `finalizePromotedSnapshot`, `replaceLatestSymlink` and `linkTree`. The reading
-- and writing of dates, of the package `time`, are a parameter; days are counted from a
-- Monday before every timestamp.
pub mod Latest
pub mod Promoted
pub mod Tiers
pub mod Sound
use kube_rsync_machine.Common.{
  ℕ, ◌+◌, ◌-◌, ◌%◌, Bool, true, false, not, ◌&&◌, ◌||◌, List, [], ◌∷◌, ◌++◌, Option, none, some,
  Result, ok, err, if◌then◌else◌, keep_if, length, drop,
}
use kube_rsync_machine.Common.Maps.{lookup}
use kube_rsync_machine.Common.Sort.{sort}
use kube_rsync_machine.Common.Text.{GoString, codes, is_empty, str_eq, str_ltb, str_leb, split}
use kube_rsync_machine.Dataplane.Paths.{
  slash, dot_dot, normalize_relative_path, PathError, validate_run_id, RunIdError,
}
use kube_rsync_machine.Dataplane.Files.{
  FilePath, FilePath_eq, Node, directory, file, symlink, special, Files, FileError, not_exist,
  io_failure, System, Call, stats, lists, links, is_under, is_directory, walk, parent, stat,
}
use kube_rsync_machine.Dataplane.Files.Writes.{
  Written, try_remove_all, make_entry, unless_error, mkdir_all, rename,
}
use kube_rsync_machine.Dataplane.Retention.{
  hourly, daily, weekly, monthly, latest, snapshot_name, RetentionPolicy, apply_retention,
}

-- `time.Parse` of a snapshot's timestamp to its day, the day of the week (Sunday is 0), and the texts
-- of `Format` with the layouts of a day and of a month.
pub record Calendar : Type 0 where
  pub parse : GoString → Option ℕ
  pub weekday : ℕ → ℕ
  pub day_text : ℕ → GoString
  pub month_text : ℕ → GoString

pub record FinalizeOptions : Type 0 where
  pub target_root : GoString
  pub run_id : GoString
  pub timestamp : GoString
  pub sources : List GoString
  pub retention : RetentionPolicy

pub data FinalizeError : Type 0 where
  options_required : FinalizeError
  bad_run_id : RunIdError → FinalizeError
  invalid_timestamp escapes_root partial_not_directory not_a_directory : FinalizeError
  partial_not_ready : FileError → FinalizeError
  invalid_source : GoString → PathError → FinalizeError
  source_missing : GoString → FileError → FinalizeError
  invalid_latest : PathError → FinalizeError
  failed : FileError → FinalizeError

abbrev pub temporary : FilePath
temporary = codes "latest.tmp" ∷ []

-- `weekStart`: `AddDate` back to Monday.
unfoldable pub week_start : Calendar → ℕ → ℕ
week_start calendar day = day - (calendar.weekday day + 6) % 7

-- `tierSnapshotNames`, as tiers and names.
unfoldable pub tier_snapshot_names : Calendar → ℕ → List (GoString × GoString)
unfolding week_start
tier_snapshot_names calendar day =
    (daily, calendar.day_text day)
    ∷ (weekly, calendar.day_text (week_start calendar day))
    ∷ (monthly, calendar.month_text day)
    ∷ []

-- `ensureInside`, of a path relative to the root.
unfoldable pub ensure_inside : FilePath → Bool
ensure_inside [] = true
ensure_inside (s ∷ p) = not (str_eq s dot_dot)

abbrev pub source_stat :
    GoString
    → Result FileError Node
    → Result FinalizeError (Unit {0})
    → Result FinalizeError (Unit {0})
source_stat source (err e) rest = err (source_missing source e)
source_stat source (ok node) rest = rest

unfoldable pub validate_snapshot_sources :
    System → FilePath → List GoString → Files → Result FinalizeError (Unit {0})
validate_snapshot_sources system snapshot [] files = ok tt
validate_snapshot_sources system snapshot (source ∷ sources) files =
    let rest = validate_snapshot_sources system snapshot sources files in
    elim (normalize_relative_path source) [
      | err e ↦ err (invalid_source source e)
      | ok normalized ↦
          source_stat source (stat system (walk snapshot (split slash source)) files) rest
    ]

-- The end of `replaceLatestSymlink`.
unfoldable pub swap_latest : System → GoString → Files → Written
swap_latest system target files =
    unless_error
      (make_entry system temporary (symlink target) (try_remove_all system temporary files))
      (λ made. rename system temporary latest (try_remove_all system latest made))

abbrev pub with_error : Written → Files × Option FinalizeError
with_error (files, none) = (files, none)
with_error (files, some e) = (files, some (failed e))

unfoldable pub replace_latest_symlink : System → GoString → Files → Files × Option FinalizeError
unfolding swap_latest ensure_inside
replace_latest_symlink system target files =
    let path = walk [] (split slash target) in
    elim (normalize_relative_path target) [
      | err e ↦ (files, some (invalid_latest e))
      | ok normalized ↦
          if not (ensure_inside path)
          then (files, some escapes_root)
          else elim (stat system path files) [
            | err e ↦ (files, some (failed e))
            | ok node ↦
                if not (is_directory node)
                then (files, some not_a_directory)
                else with_error (swap_latest system target files)
          ]
    ]
