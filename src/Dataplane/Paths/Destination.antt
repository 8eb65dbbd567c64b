-- ===== src/Dataplane/Paths/Destination.antt =====
-- `NormalizeDestinationPath` of internal/dataplane/snapshot.go.
use kube_rsync_machine.Common.{
  ◌≡◌, false, List, [], ◌∷◌, ◌++◌, ok, arith, All, Bool-cases, ◌||◌, Result-cases, inl, inr,
}
use kube_rsync_machine.Common.Text.{GoString, is_empty, str_eq, contains, split, join}
use kube_rsync_machine.Common.Text.Split.{split-join, split_lacking, split_at_sep}
use kube_rsync_machine.Dataplane.Paths.{
  slash, root_path, normalize_relative_path, destination_below, normalize_destination_path,
}
use kube_rsync_machine.Dataplane.Paths.Relative.{
  IsSegment, normalize_relative_path_sound, normalize_relative_path_names, All-one_segment,
}

-- A normalized path's parts are names.
pub split-normalized :
    (value path : GoString)
    → normalize_relative_path value ≡ ok path
    → All IsSegment (split slash path)
split-normalized value path h =
    let (names, e, _, ne, segs) = normalize_relative_path_sound value path h in
    rw (e, split-join slash names ne (All-one_segment names segs)) segs

-- A normalized path without '/' is one name.
pub normalized-IsSegment :
    (value path : GoString)
    → normalize_relative_path value ≡ ok path
    → contains path slash ≡ false
    → IsSegment path
normalized-IsSegment value path h s =
    let parts = split-normalized value path h in
    let whole = split_lacking slash path s in (rw whole at parts).0

-- A name is normalized already.
pub normalize_segment : (p : GoString) → IsSegment p → normalize_relative_path p ≡ ok p
unfolding join
normalize_segment p seg = normalize_relative_path_names (p ∷ []) (λ e. cc) (seg, tt)

-- The names of a path in order are the namespace's, then others that are no "..".
abbrev pub IsBelow : GoString → GoString → Type 0
IsBelow namespace path =
    (names : List GoString) × (split slash path ≡ namespace ∷ names) × All IsSegment names

destination_below_sound :
    (prefix destination path : GoString)
    → contains prefix slash ≡ false
    → destination_below prefix destination ≡ ok path
    → IsBelow prefix path
unfolding destination_below
destination_below_sound prefix destination path s h =
    elim (Bool-cases (is_empty destination || str_eq destination root_path)) [
      | inl whole ↦
          let same : path ≡ prefix = ground arith in
          ([], rw same (split_lacking slash prefix s), tt)
      | inr below ↦ elim (Result-cases (normalize_relative_path destination)) [
        | inl (rest, e) ↦
            let joined : path ≡ prefix ++ slash ∷ rest = ground arith in
            (
              split slash rest,
              rw joined (split_at_sep slash prefix rest s),
              split-normalized destination rest e,
            )
        | inr (error, e) ↦ absurd (ground arith)
      ]
    ]

-- An accepted destination lies in the directory named by the normalized namespace, which is a
-- single name, and no part of it below that is "..".
pub normalize_destination_path_sound :
    (namespace destination path : GoString)
    → normalize_destination_path namespace destination ≡ ok path
    → (prefix : GoString) × (normalize_relative_path namespace ≡ ok prefix)
      × IsSegment prefix
      × IsBelow prefix path
unfolding normalize_destination_path
normalize_destination_path_sound namespace destination path h =
    elim (Result-cases (normalize_relative_path namespace)) [
      | inl (prefix, e) ↦
          let one : contains prefix slash ≡ false = ground arith in
          (
            prefix,
            e,
            normalized-IsSegment namespace prefix e one,
            destination_below_sound prefix destination path one (ground arith),
          )
      | inr (error, e) ↦ absurd (ground arith)
    ]

-- Two namespaces never share a destination: whatever destination paths their sources ask for,
-- equal results come from equal namespaces.
pub normalize_destination_path_isolated :
    (first second a b path : GoString)
    → IsSegment first
    → IsSegment second
    → normalize_destination_path first a ≡ ok path
    → normalize_destination_path second b ≡ ok path
    → first ≡ second
normalize_destination_path_isolated first second a b path s t h k =
    let (p, e, _, (ps, u, _)) = normalize_destination_path_sound first a path h in
    let (q, f, _, (qs, v, _)) = normalize_destination_path_sound second b path k in
    cc (e, f, u, v, normalize_segment first s, normalize_segment second t)
