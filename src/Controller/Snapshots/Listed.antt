-- ===== src/Controller/Snapshots/Listed.antt =====
-- `resolveRestoreSnapshot` and `cleanSnapshotPath` of internal/controller/reconcilers.go.
use mathlib.Core.List.{Memᴰ}
use kube_rsync_machine.Common.{
  ◌≡◌, ◌↔◌, ◌⊎◌, refl, ap, ◌∙◌, true, false, ◌||◌, List, [], ◌∷◌, ok, any, keep_if, Bool-cases,
  Result-cases, inl, inr, arith,
}
use kube_rsync_machine.Common.Text.{
  GoString, codes, is_empty, str_eq, str_eq_iff, str_ne, has_prefix, contains, split, path_clean,
}
use kube_rsync_machine.Common.Text.Clean.{is_named, or_dot, path_clean_relative}
use kube_rsync_machine.Dataplane.Paths.{normalize_relative_path}
use kube_rsync_machine.Dataplane.Paths.Relative.{normalize_relative_path_idem}
use kube_rsync_machine.Controller.Destinations.Clean.{
  accepted, none_up, path_clean-normalize, not_dot,
}
use kube_rsync_machine.Controller.Destinations.Effective.{finish, clean_parts_down}
use kube_rsync_machine.Controller.Machines.{MachinePoint}
use kube_rsync_machine.Controller.Snapshots.{
  clean_snapshot_path, refuse_dot, latest_snapshot, or_latest, is_unlisted, listed_snapshot,
  resolved_latest, resolve_restore_snapshot,
}

clean_snapshot_path-normalize :
    (value path : GoString)
    → normalize_relative_path value ≡ ok path
    → clean_snapshot_path value ≡ ok path
unfolding clean_snapshot_path
clean_snapshot_path-normalize value path h =
    let (filled, relative, bare, down) = accepted value path h in
    rw (filled, relative, bare, down, path_clean-normalize value path h, not_dot value path h) refl

refuse_dot_ok :
    (cleaned path : GoString)
    → refuse_dot cleaned ≡ ok path
    → (str_eq cleaned (codes ".") ≡ false) × (path ≡ cleaned)
refuse_dot_ok cleaned path h = ground arith

listed_snapshot_ok :
    (points : List MachinePoint) (cleaned path : GoString)
    → listed_snapshot points cleaned ≡ ok path
    → (path ≡ cleaned)
      × ((is_unlisted points || any (λ point. str_eq point.snapshot cleaned) points) ≡ true)
listed_snapshot_ok points cleaned path h = ground arith

normalize-clean_snapshot_path :
    (value path : GoString)
    → clean_snapshot_path value ≡ ok path
    → normalize_relative_path value ≡ ok path
unfolding clean_snapshot_path
normalize-clean_snapshot_path value path h =
    let filled : is_empty value ≡ false = ground arith in
    let relative : has_prefix value (codes "/") ≡ false = ground arith in
    let bare : contains value b'\\' ≡ false = ground arith in
    let down : any (λ p. str_eq p (codes "..")) (split b'/' value) ≡ false = ground arith in
    let names = keep_if is_named (split b'/' value) in
    let refused : refuse_dot (path_clean value) ≡ ok path = ground arith in
    let cleaned : path_clean value ≡ or_dot names =
      path_clean_relative value relative (none_up (split b'/' value) down) in
    elim (finish value names filled relative bare (clean_parts_down (split b'/' value) down)) [
      | inl none_named ↦
          let dot : path_clean value ≡ codes "." = cleaned ∙ ap or_dot none_named in
          absurd (
            str_ne (path_clean value) (codes ".") (refuse_dot_ok (path_clean value) path refused).0
              dot)
      | inr normal ↦
          let same : path ≡ or_dot names =
            (refuse_dot_ok (path_clean value) path refused).1 ∙ cleaned in
          rw same normal
    ]

-- The controller accepts the snapshots that the data plane does, and names them alike.
pub clean_snapshot_path_iff :
    (value path : GoString)
    → (clean_snapshot_path value ≡ ok path) ↔ (normalize_relative_path value ≡ ok path)
clean_snapshot_path_iff value path =
    (normalize-clean_snapshot_path value path, clean_snapshot_path-normalize value path)

-- A restore point of the list has the name, or is "latest" and resolves to it.
abbrev pub IsOffered : List MachinePoint → GoString → Type 0
IsOffered points path =
    (point : MachinePoint) × Memᴰ point points
    × ((point.snapshot ≡ path)
        ⊎ (point.snapshot ≡ latest_snapshot)
          × (normalize_relative_path point.resolves_to ≡ ok path))

IsOffered-later :
    (point : MachinePoint) (points : List MachinePoint) (path : GoString)
    → IsOffered points path
    → IsOffered (point ∷ points) path
IsOffered-later point points path (other, there, which) = (other, Memᴰ.tail there, which)

any-IsOffered :
    (points : List MachinePoint) (path : GoString)
    → any (λ point. str_eq point.snapshot path) points ≡ true
    → IsOffered points path
any-IsOffered [] path h = absurd (cc)
any-IsOffered (point ∷ points) path h = elim (Bool-cases (str_eq point.snapshot path)) [
  | inl e ↦ (point, Memᴰ.head refl, inl ((str_eq_iff point.snapshot path).0 e))
  | inr e ↦ IsOffered-later point points path (any-IsOffered points path (ground arith))
]

listed_cases :
    (points : List MachinePoint) (path : GoString)
    → (is_unlisted points || any (λ point. str_eq point.snapshot path) points) ≡ true
    → (points ≡ []) ⊎ IsOffered points path
listed_cases [] path h = inl refl
listed_cases (point ∷ points) path h = inr (any-IsOffered (point ∷ points) path h)

resolved_latest-IsOffered :
    (points : List MachinePoint) (path : GoString)
    → resolved_latest points ≡ ok path
    → (normalize_relative_path path ≡ ok path) × IsOffered points path
unfolding resolved_latest
resolved_latest-IsOffered [] path h = absurd (cc)
resolved_latest-IsOffered (point ∷ points) path h =
    elim (Bool-cases (str_eq point.snapshot latest_snapshot)) [
      | inl e ↦ elim (Result-cases (clean_snapshot_path point.resolves_to)) [
        | inl (cleaned, f) ↦
            let same : path ≡ cleaned = ground arith in
            let normal : normalize_relative_path point.resolves_to ≡ ok path =
              rw same (normalize-clean_snapshot_path point.resolves_to cleaned f) in
            (
              normalize_relative_path_idem point.resolves_to path normal,
              (
                point,
                Memᴰ.head refl,
                inr ((str_eq_iff point.snapshot latest_snapshot).0 e, normal),
              ),
            )
        | inr (error, f) ↦ absurd (ground arith)
      ]
      | inr e ↦
          let later = resolved_latest-IsOffered points path (ground arith) in
          (later.0, IsOffered-later point points path later.1)
    ]

-- The snapshot that a restore from a machine of snapshots reads is a clean path below the target,
-- and, where the machine lists restore points, it is one of these or what "latest" resolves to.
pub resolve_restore_snapshot-IsOffered :
    (requested : GoString) (points : List MachinePoint) (path : GoString)
    → resolve_restore_snapshot requested false points ≡ ok path
    → (normalize_relative_path path ≡ ok path) × ((points ≡ []) ⊎ IsOffered points path)
unfolding resolve_restore_snapshot
resolve_restore_snapshot-IsOffered requested points path h =
    elim (Bool-cases (str_eq (or_latest requested) latest_snapshot)) [
      | inl e ↦
          let found = resolved_latest-IsOffered points path (ground arith) in (found.0, inr found.1)
      | inr e ↦ elim (Result-cases (clean_snapshot_path (or_latest requested))) [
        | inl (cleaned, f) ↦
            let listed : listed_snapshot points cleaned ≡ ok path = ground arith in
            let normal = normalize-clean_snapshot_path (or_latest requested) cleaned f in
            let (same, there) = listed_snapshot_ok points cleaned path listed in
            (
              rw same (normalize_relative_path_idem (or_latest requested) cleaned normal),
              listed_cases points path (rw same there),
            )
        | inr (error, f) ↦ absurd (ground arith)
      ]
    ]
