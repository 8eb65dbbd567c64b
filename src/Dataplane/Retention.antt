-- ===== src/Dataplane/Retention.antt =====
-- internal/dataplane/snapshot.go: `ApplyRetention` with `cleanupDanglingLatest`, which delete restore
-- points that the policy does not keep and a `latest` that leads nowhere.
pub mod Tiers
pub mod Plan
pub mod Newest
pub mod Latest
use kube_rsync_machine.Common.{
  ℕ, suc, ◌+◌, ◌*◌, ◌%◌, ◌^◌, ◌≡◌, Bool, true, false, not, ◌&&◌, ◌||◌, List, [], ◌∷◌, ◌++◌, Option,
  none, some, Result, ok, err, ◌>>=◌ as then_do, if◌then◌else◌, ltb, leb, ◌==◌, length, any, map,
  map_err,
}
use kube_rsync_machine.Common.Int.{ℤ, pos, is_negative, to_ℕ}
use kube_rsync_machine.Common.Sort.{sort}
use kube_rsync_machine.Common.Maps.{lookup}
use kube_rsync_machine.Common.Text.{GoString, codes, str_eq, str_leb, str_ltb, split}
use kube_rsync_machine.Dataplane.Paths.{slash, normalize_relative_path, PathError}
use kube_rsync_machine.Dataplane.Files.{
  FilePath, FilePath_eq, Node, directory, file, symlink, special, Files, FileError, not_exist,
  io_failure, System, Call, stats, lists, removes, links, remove_all, read_dirs, lstat, stat,
}

abbrev pub hourly : GoString
hourly = codes "hourly"

abbrev pub daily : GoString
daily = codes "daily"

abbrev pub weekly : GoString
weekly = codes "weekly"

abbrev pub monthly : GoString
monthly = codes "monthly"

abbrev pub latest : FilePath
latest = codes "latest" ∷ []

pub record RetentionPolicy : Type 0 where
  pub hourly_count : ℤ
  pub daily_count : ℤ
  pub weekly_count : ℤ
  pub monthly_count : ℤ

-- The files, the names removed so far, and the error that stopped the call, if any.
abbrev pub Pruned : Type 0
Pruned = Files × List GoString × Option FileError

-- `filepath.Join(tier, name)`
abbrev pub snapshot_name : GoString → GoString → GoString
snapshot_name tier name = tier ++ slash ∷ name

-- `for len(names) > keep`, over the names in order.
unfoldable pub prune_names : System → GoString → ℕ → List GoString → Files → List GoString → Pruned
prune_names system tier keep [] files removed = (files, removed, none)
prune_names system tier keep (name ∷ names) files removed =
    let path : FilePath = tier ∷ name ∷ [] in
    let rest =
      prune_names system tier keep names (remove_all path files)
        (removed ++ snapshot_name tier name ∷ []) in
    if ltb keep (length (name ∷ names))
    then (if system.fails removes path then (files, removed, some io_failure) else rest)
    else (files, removed, none)

abbrev pub prune_listed :
    System → GoString → ℕ → Files → List GoString → Result FileError (List GoString) → Pruned
prune_listed system tier keep files removed (err not_exist) = (files, removed, none)
prune_listed system tier keep files removed (err io_failure) = (files, removed, some io_failure)
prune_listed system tier keep files removed (ok names) =
    prune_names system tier keep names files removed

-- One round of the loop over the tiers.
unfoldable pub prune_tier : System → GoString × ℤ → Files → List GoString → Pruned
unfolding prune_names
prune_tier system (tier, keep) files removed =
    if is_negative keep
    then (files, removed, none)
    else prune_listed system tier (to_ℕ keep) files removed (read_dirs system (tier ∷ []) files)

abbrev pub unless_failed : Pruned → (Files → List GoString → Pruned) → Pruned
unless_failed (files, removed, none) rest = rest files removed
unless_failed (files, removed, some e) rest = (files, removed, some e)

unfoldable pub prune_tiers : System → List (GoString × ℤ) → Files → List GoString → Pruned
unfolding prune_tier
prune_tiers system [] files removed = (files, removed, none)
prune_tiers system (t ∷ tiers) files removed =
    unless_failed (prune_tier system t files removed) (prune_tiers system tiers)

abbrev pub tiers_of : RetentionPolicy → List (GoString × ℤ)
tiers_of policy =
    (hourly, policy.hourly_count)
    ∷ (daily, policy.daily_count)
    ∷ (weekly, policy.weekly_count)
    ∷ (monthly, policy.monthly_count)
    ∷ []

-- `os.Remove(latest)`, which is a link here.
unfoldable pub remove_latest : System → Files → Files × Option FileError
remove_latest system files =
    if system.fails removes latest
    then (files, some io_failure)
    else (remove_all latest files, none)

unfoldable pub cleanup_link : System → GoString → Files → Files × Option FileError
unfolding remove_latest
cleanup_link system target files = elim (normalize_relative_path target) [
  | err e ↦ remove_latest system files
  | ok normalized ↦ elim (stat system (split slash normalized) files) [
    | ok node ↦ (files, none)
    | err not_exist ↦ remove_latest system files
    | err io_failure ↦ (files, some io_failure)
  ]
]

unfoldable pub cleanup_dangling_latest : System → Files → Files × Option FileError
unfolding cleanup_link
cleanup_dangling_latest system files = elim (lstat system latest files) [
  | err not_exist ↦ (files, none)
  | err io_failure ↦ (files, some io_failure)
  | ok directory ↦ (files, none)
  | ok (file inode) ↦ (files, none)
  | ok special ↦ (files, none)
  | ok (symlink target) ↦
      if system.fails links latest
      then (files, some io_failure)
      else cleanup_link system target files
]

abbrev pub with_removed : List GoString → Files × Option FileError → Pruned
with_removed removed (files, e) = (files, removed, e)

unfoldable pub apply_retention : System → RetentionPolicy → Files → Pruned
unfolding prune_tiers
apply_retention system policy files =
    unless_failed (prune_tiers system (tiers_of policy) files [])
      λ files' removed. with_removed removed (cleanup_dangling_latest system files')
