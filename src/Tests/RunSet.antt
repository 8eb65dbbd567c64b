-- ===== src/Tests/RunSet.antt =====
-- The helpers of internal/controller/helpers.go at concrete inputs.
use kube_rsync_machine.Common.{◌≡◌, ◌↔◌, refl, true, false, ◌&&◌, ◌||◌, List, [], ◌∷◌, none, ok}
use kube_rsync_machine.Common.Int.{pos}
use kube_rsync_machine.Common.Text.{
  GoString, codes, is_empty, contains, split, join, str_eq, has_prefix, str_ltb, str_leb,
  path_clean, path_join,
}
use kube_rsync_machine.Common.Eq.{GoString_eq}
use kube_rsync_machine.Common.Maps.{insert, lookup}
use kube_rsync_machine.Common.Sort.{sort, insert_sorted}
use kube_rsync_machine.Controller.Refs.{
  MachineObject, BackupSource, namespace_allowed, admits, is_mirror, type_or_default,
  source_namespace_allowed, item_allows, namespace_or, resolve_object_reference, same_name,
  name_string, source_name, machine_name, retention_empty,
}
use kube_rsync_machine.Controller.Refs.Admission.{lists, is_unset, namespace_allowed_iff}
use kube_rsync_machine.Controller.Destinations.{
  clean_relative_path, effective_destination_path_for_strategy, effective_destination_path,
  mirror_paths_overlap,
}
use kube_rsync_machine.Controller.Destinations.Clean.{effective_destination_path-normalize}
use kube_rsync_machine.Controller.Destinations.Overlap.{starts, mirror_paths_overlap_iff}
use kube_rsync_machine.Controller.RunSet.{
  TargetRunSet, calculate_target_run_set, check_strategy, detect_destination_path_conflicts,
  detect_mirror_destination_path_overlaps, resolve_sources, resolve_source, claim_machines,
  claim_sources, claim_source, append_claim, claim_key, conflicts_of, conflict_of, add_name,
}
use kube_rsync_machine.Controller.RunSet.Calculate.{IsRunSet, calculate_target_run_set-IsRunSet}
use kube_rsync_machine.Tests.Paths.{name_a-IsSegment, name_b-IsSegment, a_data_untidy}

namespace_allowed_iff_example :
    (namespace_allowed (codes "krm") (codes "." ∷ codes "apps" ∷ []) (codes "apps") ≡ true) ↔ (
      (is_empty (codes "apps") ≡ false)
      × ((lists (codes "*") (codes "." ∷ codes "apps" ∷ [])
            || (str_eq (codes "apps") (codes "krm")
                && (is_unset (codes "." ∷ codes "apps" ∷ [])
                    || lists (codes ".") (codes "." ∷ codes "apps" ∷ [])))
            || lists (codes "apps") (codes "." ∷ codes "apps" ∷ []))
          ≡ true))
unfolding str_eq
namespace_allowed_iff_example =
    namespace_allowed_iff (codes "krm") (codes "apps") (codes "." ∷ codes "apps" ∷ []) refl

effective_destination_path-normalize_example :
    effective_destination_path (codes "a") (codes "./data/") ≡ ok (codes "a/data")
effective_destination_path-normalize_example =
    effective_destination_path-normalize (codes "a") (codes "./data/") (codes "a/data")
      name_a-IsSegment a_data_untidy

mirror_paths_overlap_iff_example :
    mirror_paths_overlap (join b'/' (codes "a" ∷ [])) (join b'/' (codes "a" ∷ codes "b" ∷ [])) ≡ (
      starts (codes "a" ∷ []) (codes "a" ∷ codes "b" ∷ [])
      || starts (codes "a" ∷ codes "b" ∷ []) (codes "a" ∷ []))
mirror_paths_overlap_iff_example =
    mirror_paths_overlap_iff (codes "a" ∷ []) (codes "a" ∷ codes "b" ∷ []) (name_a-IsSegment, tt)
      (name_a-IsSegment, (name_b-IsSegment, tt))

-- A machine of snapshots in the namespace "a" that admits "b" too.
abbrev nas : MachineObject
nas = record {
  namespace = codes "a";
  name = codes "nas";
  strategy = [];
  retention = record { hourly = pos 24; daily = pos 7; weekly = pos 4; monthly = pos 0 };
  allowed_source_namespaces = codes "." ∷ codes "b" ∷ [];
  allowed_restore_namespaces = [];
}

abbrev source : GoString → GoString → BackupSource
source namespace path = record {
  namespace = namespace;
  name = codes "db";
  machine_ref = record { namespace = codes "a"; name = codes "nas" };
  destination_path = path;
  delete = none;
}

abbrev two_sources : List BackupSource
two_sources = source (codes "b") (codes "x") ∷ source (codes "a") [] ∷ []

abbrev both : TargetRunSet
both = record {
  machine_ref = record { namespace = codes "a"; name = codes "nas" };
  machines = record { namespace = codes "a"; name = codes "nas" } ∷ [];
  sources =
      record {
        ref = record { namespace = codes "a"; name = codes "db" };
        source = source (codes "a") [];
        effective_destination_path = codes "a";
      }
      ∷ record {
        ref = record { namespace = codes "b"; name = codes "db" };
        source = source (codes "b") (codes "x");
        effective_destination_path = codes "b/x";
      }
      ∷ [];
  retention = record { hourly = pos 24; daily = pos 7; weekly = pos 4; monthly = pos 0 };
}

calculated : calculate_target_run_set nas two_sources ≡ ok both
unfolding calculate_target_run_set check_strategy detect_destination_path_conflicts
    detect_mirror_destination_path_overlaps resolve_sources resolve_source claim_machines
    claim_sources claim_source append_claim claim_key conflicts_of conflict_of add_name admits
    is_mirror type_or_default source_namespace_allowed namespace_allowed item_allows namespace_or
    resolve_object_reference same_name name_string source_name machine_name retention_empty
    clean_relative_path effective_destination_path effective_destination_path_for_strategy path_join
    path_clean join split str_eq str_leb str_ltb has_prefix contains insert lookup sort
    insert_sorted
calculated = refl

calculate_target_run_set-IsRunSet_example : IsRunSet nas two_sources both
calculate_target_run_set-IsRunSet_example =
    calculate_target_run_set-IsRunSet nas two_sources both
      (name_b-IsSegment, (name_a-IsSegment, tt)) calculated
