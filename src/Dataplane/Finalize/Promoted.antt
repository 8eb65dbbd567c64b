-- ===== src/Dataplane/Finalize/Promoted.antt =====
-- internal/dataplane/snapshot.go: `linkTree`, `finalizePromotedSnapshot` and `FinalizeBackup`.
use kube_rsync_machine.Common.{
  ℕ, Bool, true, false, not, ◌&&◌, ◌||◌, List, [], ◌∷◌, ◌++◌, Option, none, some, ok, err,
  if◌then◌else◌, keep_if, length, drop,
}
use kube_rsync_machine.Common.Maps.{lookup}
use kube_rsync_machine.Common.Sort.{sort}
use kube_rsync_machine.Common.Text.{GoString, codes, is_empty, str_eq, str_ltb}
use kube_rsync_machine.Dataplane.Paths.{validate_run_id}
use kube_rsync_machine.Dataplane.Files.{
  FilePath, FilePath_eq, Node, directory, file, symlink, special, Files, not_exist, io_failure,
  System, stats, lists, links, is_under, is_directory, parent, stat,
}
use kube_rsync_machine.Dataplane.Files.Writes.{Written, make_entry, unless_error, mkdir_all, rename}
use kube_rsync_machine.Dataplane.Retention.{
  hourly, snapshot_name, RetentionPolicy, apply_retention, Pruned,
}
use kube_rsync_machine.Dataplane.Finalize.{
  Calendar, FinalizeOptions, FinalizeError, options_required, bad_run_id, invalid_timestamp,
  escapes_root, partial_not_directory, partial_not_ready, failed, tier_snapshot_names,
  ensure_inside, validate_snapshot_sources, replace_latest_symlink,
}

-- The order in which `filepath.WalkDir` visits paths: a directory, then what is in it by name.
unfoldable pub path_leb : FilePath → FilePath → Bool
path_leb [] q = true
path_leb (s ∷ p) [] = false
path_leb (s ∷ p) (t ∷ q) = str_ltb s t || (str_eq s t && path_leb p q)

-- After a directory has been visited its entries are read.
abbrev pub then_list : System → FilePath → Written → Written
then_list system p (files, none) =
    if system.fails lists p then (files, some io_failure) else (files, none)
then_list system p (files, some e) = (files, some e)

-- The function that `linkTree` gives to `filepath.WalkDir`, for an entry below the root.
unfoldable pub link_entry : System → FilePath → FilePath → Node → Files → Written
link_entry system path target directory files =
    then_list system path (mkdir_all system target files)
link_entry system path target (file inode) files =
    unless_error (mkdir_all system (parent target) files) (make_entry system target (file inode))
link_entry system path target (symlink link) files =
    if system.fails links path
    then (files, some io_failure)
    else unless_error (mkdir_all system (parent target) files)
        (make_entry system target (symlink link))
link_entry system path target special files = (files, none)

abbrev pub is_root : FilePath → Bool
is_root [] = true
is_root (s ∷ p) = false

unfoldable pub link_entries :
    System → FilePath → FilePath → List (FilePath × Node) → Files → Written
unfolding link_entry
link_entries system src dst [] files = (files, none)
link_entries system src dst ((path, node) ∷ entries) files =
    let rel = drop (length src) path in
    unless_error
      (if is_root rel
        then then_list system path (mkdir_all system dst files)
        else if system.fails stats path
        then (files, some io_failure)
        else link_entry system path (dst ++ rel) node files)
      (link_entries system src dst entries)

-- `linkTree`: the entries are those that were there when the walk began.
unfoldable pub link_tree : System → FilePath → FilePath → Files → Written
unfolding link_entries path_leb
link_tree system src dst files = elim (lookup src files) [
  | none ↦ (files, some not_exist)
  | some node ↦
      link_entries system src dst
        (sort (λ a b. path_leb a.0 b.0) (keep_if (λ entry. is_under src entry.0) files)) files
]

-- The files, the restore points named so far, and the error, if the call fails.
abbrev pub Finalized : Type 0
Finalized = Files × List GoString × Option FinalizeError

abbrev pub tier_made :
    List GoString → GoString → Written → (List GoString → Files → Finalized) → Finalized
tier_made points name (files, none) rest = rest (points ++ name ∷ []) files
tier_made points name (files, some e) rest = (files, points, some (failed e))

-- The loop over the tiers, then `rest`.
unfoldable pub make_tiers :
    System
    → FilePath
    → (List GoString → Files → Finalized)
    → List (GoString × GoString)
    → List GoString
    → Files
    → Finalized
unfolding link_tree
make_tiers system src rest [] points files = rest points files
make_tiers system src rest ((tier, name) ∷ tiers) points files =
    let next = make_tiers system src rest tiers in
    let made =
      tier_made points (snapshot_name tier name) (link_tree system src (tier ∷ name ∷ []) files)
        next in
    elim (stat system (tier ∷ name ∷ []) files) [
      | ok node ↦ next points files
      | err not_exist ↦ made
      | err io_failure ↦ (files, points, some (failed io_failure))
    ]

-- `applyRetention`, which drops the names of what was removed.
abbrev pub retained : List GoString → Pruned → Finalized
retained points (files, removed, none) = (files, points, none)
retained points (files, removed, some e) = (files, points, some (failed e))

abbrev pub latest_replaced :
    GoString → Files × Option FinalizeError → (List GoString → Files → Finalized) → Finalized
latest_replaced name (files, none) rest = rest (name ∷ (codes "latest -> " ++ name) ∷ []) files
latest_replaced name (files, some e) rest = (files, name ∷ [], some e)

-- `finalizePromotedSnapshot`
unfoldable pub finalize_promoted_snapshot :
    System → Calendar → GoString → ℕ → List GoString → RetentionPolicy → Files → Finalized
unfolding make_tiers
finalize_promoted_snapshot system calendar timestamp day sources retention files =
    let src : FilePath = hourly ∷ timestamp ∷ [] in
    elim (validate_snapshot_sources system src sources files) [
      | err e ↦ (files, [], some e)
      | ok done ↦
          latest_replaced (snapshot_name hourly timestamp)
            (replace_latest_symlink system (snapshot_name hourly timestamp) files)
            (make_tiers system src
              (λ points made. retained points (apply_retention system retention made))
              (tier_snapshot_names calendar day))
    ]

-- The call was made before and got as far as the renaming.
abbrev pub or_not_ready : Files → Finalized → Finalized
or_not_ready files (done, points, none) = (done, points, none)
or_not_ready files (done, points, some e) = (done, [], some (partial_not_ready not_exist))

abbrev pub promoted : Written → (Files → Finalized) → Finalized
promoted (files, none) rest = rest files
promoted (files, some e) rest = (files, [], some (failed e))

-- `FinalizeBackup` from the check of the partial directory on.
unfoldable pub finalize_partial : System → Calendar → FinalizeOptions → ℕ → Files → Finalized
unfolding finalize_promoted_snapshot
finalize_partial system calendar options day files =
    let partial : FilePath = codes ".partial" ∷ options.run_id ∷ [] in
    let goal : FilePath = hourly ∷ options.timestamp ∷ [] in
    let finish =
      finalize_promoted_snapshot system calendar options.timestamp day options.sources
        options.retention in
    elim (stat system partial files) [
      | err not_exist ↦ or_not_ready files (finish files)
      | err io_failure ↦ (files, [], some (partial_not_ready io_failure))
      | ok node ↦
          if not (is_directory node)
          then (files, [], some partial_not_directory)
          else elim (validate_snapshot_sources system partial options.sources files) [
            | err e ↦ (files, [], some e)
            | ok done ↦ elim (stat system goal files) [
              | ok there ↦ finish files
              | err io_failure ↦ (files, [], some (failed io_failure))
              | err not_exist ↦
                  promoted
                    (unless_error (mkdir_all system (hourly ∷ []) files)
                      (rename system partial goal))
                    finish
            ]
          ]
    ]

-- `FinalizeBackup`; `filepath.Abs` of the root succeeds.
unfoldable pub finalize_backup : System → Calendar → FinalizeOptions → Files → Finalized
unfolding finalize_partial
finalize_backup system calendar options files =
    if is_empty options.target_root || is_empty options.run_id || is_empty options.timestamp
    then (files, [], some options_required)
    else elim (validate_run_id options.run_id) [
      | err e ↦ (files, [], some (bad_run_id e))
      | ok done ↦ elim (calendar.parse options.timestamp) [
        | none ↦ (files, [], some invalid_timestamp)
        | some day ↦
            if not (ensure_inside (codes ".partial" ∷ options.run_id ∷ []))
            then (files, [], some escapes_root)
            else finalize_partial system calendar options day files
      ]
    ]
