-- ===== src/Dataplane/Finalize/Sound.antt =====
-- `FinalizeBackup` of internal/dataplane/snapshot.go.
use kube_rsync_machine.Common.{◌≡◌, ◌⊎◌, List, [], ◌∷◌, none, ℕ}
use kube_rsync_machine.Common.Text.{GoString, codes}
use kube_rsync_machine.Dataplane.Files.{FilePath, Files, System, remove_all}
use kube_rsync_machine.Dataplane.Files.Writes.{mkdir_all, move_tree}
use kube_rsync_machine.Dataplane.Retention.{hourly}
use kube_rsync_machine.Dataplane.Finalize.{Calendar, FinalizeOptions}
use kube_rsync_machine.Dataplane.Finalize.Tiers.{HasSources, IsFinalized}
use kube_rsync_machine.Dataplane.Finalize.Promoted.{Finalized, finalize_promoted_snapshot}

abbrev partial_path : FinalizeOptions → FilePath
partial_path options = codes ".partial" ∷ options.run_id ∷ []

abbrev goal_path : FinalizeOptions → FilePath
goal_path options = hourly ∷ options.timestamp ∷ []

-- Nothing was moved, or the partial files, with every source, were moved to the snapshot's place.
abbrev pub IsPromoted : System → FinalizeOptions → Files → Files → Type 0
IsPromoted system options files before =
    (before ≡ files)
    ⊎ ((dirs : Files) × (mkdir_all system (hourly ∷ []) files ≡ (dirs, none))
        × (before
            ≡ move_tree (partial_path options) (goal_path options)
                (remove_all (goal_path options) dirs))
        × HasSources system (partial_path options) files options.sources)

module _ (system : System) (calendar : Calendar) (options : FinalizeOptions) (day : ℕ) where
  abbrev Finished : Files → Files → List GoString → Type 0
  Finished files files' names =
      (before : Files) × IsPromoted system options files before
      × IsFinalized system calendar options.timestamp day options.sources options.retention before
          files' names

  abbrev finish : Files → Finalized
  finish =
      finalize_promoted_snapshot system calendar options.timestamp day options.sources
        options.retention
