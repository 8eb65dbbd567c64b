-- ===== src/Tests/Paths.antt =====
-- The paths of internal/dataplane/snapshot.go at concrete inputs.
use kube_rsync_machine.Common.{◌≡◌, ◌≢◌, ◌↔◌, refl, List, [], ◌∷◌, ok, err, keep_if, All}
use kube_rsync_machine.Common.Text.{GoString, codes, str_eq, split, join, has_prefix, contains}
use kube_rsync_machine.Dataplane.Paths.{
  slash, above_root, absolute_path, many_segments, normalize_relative_path,
  normalize_target_subpath, normalize_destination_path, validate_run_id,
}
use kube_rsync_machine.Dataplane.Paths.Relative.{
  IsSegment, kept, normalize_relative_path_sound, normalize_relative_path_names,
}
use kube_rsync_machine.Dataplane.Paths.Destination.{
  IsBelow, normalize_destination_path_sound, normalize_destination_path_isolated,
}
use kube_rsync_machine.Dataplane.Paths.RunId.{IsRunId, validate_run_id_iff}

abbrev pub run_1 : GoString
run_1 = codes "run-1"

abbrev untidy : GoString
untidy = codes "a//./b/"

abbrev tidy : GoString
tidy = codes "a/b"

tidied : normalize_relative_path untidy ≡ ok tidy
unfolding normalize_relative_path split has_prefix contains join str_eq
tidied = refl

refuses_parent : normalize_relative_path (codes "a/../b") ≡ err above_root
unfolding normalize_relative_path split has_prefix contains join str_eq
refuses_parent = refl

refuses_absolute : normalize_relative_path (codes "/a") ≡ err absolute_path
unfolding normalize_relative_path split has_prefix contains join str_eq
refuses_absolute = refl

whole_target : normalize_target_subpath (codes "/") ≡ ok []
unfolding normalize_target_subpath str_eq
whole_target = refl

in_namespace :
    normalize_destination_path (codes "apps") (codes "db//data") ≡ ok (codes "apps/db/data")
unfolding normalize_destination_path normalize_relative_path split has_prefix contains join str_eq
in_namespace = refl

one_namespace : normalize_destination_path (codes "a/b") [] ≡ err many_segments
unfolding normalize_destination_path normalize_relative_path split has_prefix contains join str_eq
one_namespace = refl

normalize_relative_path_sound_example :
    (names : List GoString) × (tidy ≡ join slash names)
    × (names ≡ keep_if kept (split slash untidy))
    × (names ≢ [])
    × All IsSegment names
normalize_relative_path_sound_example = normalize_relative_path_sound untidy tidy tidied

pub name_a-IsSegment : IsSegment (codes "a")
unfolding contains
name_a-IsSegment = record {
  nonempty = refl;
  not_here = λ e. cc;
  not_parent = λ e. cc;
  one_segment = refl;
  no_backslash = refl;
}

pub name_b-IsSegment : IsSegment (codes "b")
unfolding contains
name_b-IsSegment = record {
  nonempty = refl;
  not_here = λ e. cc;
  not_parent = λ e. cc;
  one_segment = refl;
  no_backslash = refl;
}

normalize_relative_path_names_example :
    normalize_relative_path (join slash (codes "a" ∷ codes "b" ∷ []))
    ≡ ok (join slash (codes "a" ∷ codes "b" ∷ []))
normalize_relative_path_names_example =
    normalize_relative_path_names (codes "a" ∷ codes "b" ∷ []) (λ e. cc)
      (name_a-IsSegment, (name_b-IsSegment, tt))

normalize_destination_path_sound_example :
    (prefix : GoString) × (normalize_relative_path (codes "apps") ≡ ok prefix)
    × IsSegment prefix
    × IsBelow prefix (codes "apps/db/data")
normalize_destination_path_sound_example =
    normalize_destination_path_sound (codes "apps") (codes "db//data") (codes "apps/db/data")
      in_namespace

a_data : normalize_destination_path (codes "a") (codes "data") ≡ ok (codes "a/data")
unfolding normalize_destination_path normalize_relative_path split has_prefix contains join str_eq
a_data = refl

pub a_data_untidy : normalize_destination_path (codes "a") (codes "./data/") ≡ ok (codes "a/data")
unfolding normalize_destination_path normalize_relative_path split has_prefix contains join str_eq
a_data_untidy = refl

normalize_destination_path_isolated_example : codes "a" ≡ codes "a"
normalize_destination_path_isolated_example =
    normalize_destination_path_isolated (codes "a") (codes "a") (codes "data") (codes "./data/")
      (codes "a/data") name_a-IsSegment name_a-IsSegment a_data a_data_untidy

validate_run_id_iff_example : (validate_run_id run_1 ≡ ok tt) ↔ IsRunId run_1
validate_run_id_iff_example = validate_run_id_iff run_1

run_1_valid : validate_run_id run_1 ≡ ok tt
unfolding validate_run_id normalize_relative_path split has_prefix contains join str_eq
run_1_valid = refl

pub run_1-IsRunId : IsRunId run_1
run_1-IsRunId = (validate_run_id_iff run_1).0 run_1_valid
