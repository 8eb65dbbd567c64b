-- ===== src/Dataplane/Partials/Stale.antt =====
-- The directories that `CleanupStalePartials` of internal/dataplane/snapshot.go removes.
use kube_rsync_machine.Common.{
  ◌≡◌, refl, ◌∙◌, not, List, [], ◌∷◌, ◌++◌, append-nil, append_assoc, none, some, ok, if◌then◌else◌,
  any, keep_if, Bool-cases, inl, inr,
}
use kube_rsync_machine.Common.Sort.{sort}
use kube_rsync_machine.Common.Maps.{lookup}
use kube_rsync_machine.Common.Text.{GoString, str_leb}
use kube_rsync_machine.Dataplane.Files.{
  FilePath, FilePath_eq, Files, System, directory, lists, removes, is_under, remove_all, dir_names,
  read_dirs,
}
use kube_rsync_machine.Dataplane.Retention.Tiers.{IsQuiet, remove_names, lookup-remove_names}
use kube_rsync_machine.Dataplane.Partials.{
  partial, active_set, is_active, remove_stale, cleanup_stale_partials,
}

-- The directories of runs that are not active, by name.
abbrev pub stale : List GoString → List GoString → List GoString
stale active = keep_if (λ name. not (is_active active name))

remove_stale_lem :
    (system : System) (active names : List GoString) (files : Files) (removed : List GoString)
    → IsQuiet system
    → remove_stale system active names files removed ≡ (
      remove_names partial (stale active names) files,
      sort str_leb (removed ++ stale active names),
      none,
    )
unfolding remove_stale remove_names
remove_stale_lem system active [] files removed quiet = rw append-nil refl
remove_stale_lem system active (name ∷ names) files removed quiet =
    elim (Bool-cases (is_active active name)) [
      | inl kept ↦ rw kept (remove_stale_lem system active names files removed quiet)
      | inr gone ↦
          rw (gone, quiet removes (partial ∷ name ∷ []))
            (remove_stale_lem system active names (remove_all (partial ∷ name ∷ []) files)
                (removed ++ name ∷ []) quiet
              ∙ rw (append_assoc removed (name ∷ []) (stale active names)) refl)
    ]

-- When no system call fails, the ids of the active runs are valid or empty, and the directory of
-- partial transfers is there, exactly the directories in it of runs that are not active are
-- removed, with everything below them, and their sorted names are returned.
pub cleanup_stale_partials_lem :
    (system : System) (ids active : List GoString) (files : Files)
    → IsQuiet system
    → active_set ids ≡ ok active
    → lookup (partial ∷ []) files ≡ some directory
    → let gone = stale active (sort str_leb (dir_names (partial ∷ []) files)) in
      (files' : Files) × (cleanup_stale_partials system ids files
        ≡ (files', sort str_leb gone, none))
      × ((q : FilePath)
          → lookup q files' ≡ (
              if any (λ name. is_under (partial ∷ name ∷ []) q) gone then none else lookup q files))
unfolding cleanup_stale_partials read_dirs
cleanup_stale_partials_lem system ids active files quiet valid there =
    let names = sort str_leb (dir_names (partial ∷ []) files) in
    (
      remove_names partial (stale active names) files,
      rw (valid, cleanup_stale_partials, quiet lists (partial ∷ []), there)
          (remove_stale_lem system active names files [] quiet),
      λ q. lookup-remove_names partial (stale active names) q files,
    )
