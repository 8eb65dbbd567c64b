-- ===== src/Controller/Destinations.antt =====
-- internal/controller/helpers.go: where a source's data goes below the target root,
-- `cleanRelativePath`, `effectiveDestinationPath`, `effectiveMirrorDestinationPath`,
-- `PartialDestinationPath` and `TransferDestinationPath`, and when two mirrored paths overlap.
pub mod Clean
pub mod Overlap
pub mod Effective
use kube_rsync_machine.Common.{
  ℕ, Bool, true, false, ◌&&◌, ◌||◌, List, [], ◌∷◌, ◌++◌, Result, ok, err, ◌>>=◌, ◌>>◌, refuse, leb,
  length, if◌then◌else◌, any,
}
use kube_rsync_machine.Common.Text.{
  GoString, codes, is_empty, str_eq, has_prefix, contains, split, path_clean, path_join,
}
use kube_rsync_machine.Controller.Refs.{MachineObject, BackupSource, is_mirror}

pub data DestinationError : Type 0 where
  source_namespace_required must_be_relative must_use_slash must_not_go_up : DestinationError
  run_id_required : DestinationError

abbrev pub dot_to_empty : GoString → GoString
dot_to_empty path = if str_eq path (codes ".") then [] else path

unfoldable pub clean_relative_path : GoString → Result DestinationError GoString
clean_relative_path value =
    if is_empty value || str_eq value (codes "/")
    then ok []
    else if has_prefix value (codes "/")
    then err must_be_relative
    else if contains value b'\\'
    then err must_use_slash
    else if any (λ part. str_eq part (codes "..")) (split b'/' value)
    then err must_not_go_up
    else ok (dot_to_empty (path_clean value))

unfoldable pub effective_destination_path : GoString → GoString → Result DestinationError GoString
effective_destination_path source_namespace destination_path =
    if is_empty source_namespace
    then err source_namespace_required
    else if is_empty destination_path || str_eq destination_path (codes "/")
    then ok source_namespace
    else (clean_relative_path destination_path >>= λ cleaned.
        ok (path_join (source_namespace ∷ cleaned ∷ [])))

unfoldable pub effective_mirror_destination_path : GoString → Result DestinationError GoString
effective_mirror_destination_path destination_path =
    if is_empty destination_path || str_eq destination_path (codes "/")
    then ok []
    else clean_relative_path destination_path

unfoldable pub effective_destination_path_for_strategy :
    MachineObject → BackupSource → Result DestinationError GoString
effective_destination_path_for_strategy machine source =
    if is_mirror machine
    then effective_mirror_destination_path source.destination_path
    else effective_destination_path source.namespace source.destination_path

unfoldable pub partial_destination_path : GoString → BackupSource → Result DestinationError GoString
partial_destination_path run_id source = do
  refuse (is_empty run_id) run_id_required
  effective ← effective_destination_path source.namespace source.destination_path
  ok (path_join (codes ".partial" ∷ run_id ∷ effective ∷ []))

unfoldable pub transfer_destination_path :
    MachineObject → GoString → BackupSource → Result DestinationError GoString
transfer_destination_path machine run_id source =
    if is_mirror machine
    then (effective_destination_path_for_strategy machine source >>= λ effective.
        ok (if is_empty effective then codes "." else effective))
    else partial_destination_path run_id source

unfoldable pub mirror_paths_overlap : GoString → GoString → Bool
mirror_paths_overlap a b =
    if is_empty a || is_empty b
    then true
    else str_eq a b || has_prefix a (b ++ codes "/") || has_prefix b (a ++ codes "/")

unfoldable pub mirror_overlap_path : GoString → GoString → GoString
mirror_overlap_path a b =
    if is_empty a || is_empty b
    then codes "/"
    else if leb (length a) (length b) && (str_eq a b || has_prefix b (a ++ codes "/"))
    then a
    else b
