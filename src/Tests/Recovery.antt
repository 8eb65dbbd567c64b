-- ===== src/Tests/Recovery.antt =====
-- `RecoverSpace` and `CleanupStalePartials` at concrete inputs.
use kube_rsync_machine.Common.{
  ◌≡◌, refl, true, false, List, [], ◌∷◌, none, some, ok, err, if◌then◌else◌, any,
}
use kube_rsync_machine.Common.Maps.{lookup}
use kube_rsync_machine.Common.Sort.{sort}
use kube_rsync_machine.Common.Text.{
  GoString, codes, str_eq, str_leb, has_prefix, contains, split, join,
}
use kube_rsync_machine.Dataplane.Paths.{normalize_relative_path, validate_run_id}
use kube_rsync_machine.Dataplane.Files.{
  FilePath, FilePath_eq, path_eq, Files, directory, file, System, not_exist, is_under, dir_names,
}
use kube_rsync_machine.Dataplane.Retention.{hourly, snapshot_name}
use kube_rsync_machine.Dataplane.Retention.Tiers.{IsQuiet}
use kube_rsync_machine.Dataplane.Recovery.{Disk, normalize_all, recover_space}
use kube_rsync_machine.Dataplane.Recovery.Protected.{
  is_kept, HasRoom, recover_space_protects, recover_space_enough,
}
use kube_rsync_machine.Dataplane.Partials.{partial, active_set, cleanup_stale_partials}
use kube_rsync_machine.Dataplane.Partials.Stale.{stale, cleanup_stale_partials_lem}

abbrev system : System
system = record { fails = λ call p. false; outside = λ target. err not_exist }

-- There are always 5 bytes left.
abbrev disk : Disk
disk = record { available = λ files. ok 5; modified = λ p. ok 1 }

abbrev target : Files
target =
    (hourly ∷ [], directory)
    ∷ (hourly ∷ codes "0102" ∷ [], directory)
    ∷ (hourly ∷ codes "0103" ∷ [], directory)
    ∷ (hourly ∷ codes "0103" ∷ codes "db" ∷ [], file 5)
    ∷ (partial ∷ [], directory)
    ∷ (partial ∷ codes "run-1" ∷ [], directory)
    ∷ (partial ∷ codes "run-2" ∷ [], directory)
    ∷ []

abbrev asked : List GoString
asked = codes "hourly//0103" ∷ []

abbrev normalized : List GoString
normalized = codes "hourly/0103" ∷ []

normalize_asked : normalize_all asked ≡ ok normalized
unfolding normalize_all normalize_relative_path split has_prefix contains join str_eq
normalize_asked = refl

kept_name : is_kept normalized (snapshot_name hourly (codes "0103")) ≡ true
unfolding str_eq
kept_name = refl

recover_space_protects_example :
    lookup (hourly ∷ codes "0103" ∷ codes "db" ∷ []) (recover_space system disk 6 asked target).0
    ≡ lookup (hourly ∷ codes "0103" ∷ codes "db" ∷ []) target
recover_space_protects_example =
    recover_space_protects system disk 6 asked normalized target hourly (codes "0103")
      (codes "db" ∷ []) normalize_asked kept_name

enough_already : recover_space system disk 4 asked target ≡ (target, [], none)
unfolding recover_space
enough_already = refl

recover_space_enough_example : HasRoom disk 4 target
recover_space_enough_example =
    recover_space_enough system disk 4 asked target target [] enough_already

abbrev ids : List GoString
ids = codes "run-2" ∷ [] ∷ []

abbrev active : List GoString
active = codes "run-2" ∷ []

set_of_ids : active_set ids ≡ ok active
unfolding active_set validate_run_id normalize_relative_path split has_prefix contains join str_eq
set_of_ids = refl

partial_there : lookup (partial ∷ []) target ≡ some directory
unfolding lookup path_eq str_eq
partial_there = refl

system-IsQuiet : IsQuiet system
system-IsQuiet = λ call p. refl

cleanup_stale_partials_lem_example :
    (files' : Files) × (cleanup_stale_partials system ids target ≡ (
      files',
      sort str_leb (stale active (sort str_leb (dir_names (partial ∷ []) target))),
      none,
    ))
    × ((q : FilePath)
        → lookup q files' ≡ (
            if any
              (λ name. is_under (partial ∷ name ∷ []) q)
              (stale active (sort str_leb (dir_names (partial ∷ []) target)))
            then none
            else lookup q target))
cleanup_stale_partials_lem_example =
    cleanup_stale_partials_lem system ids active target system-IsQuiet set_of_ids partial_there
