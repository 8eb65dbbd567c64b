-- ===== src/Controller/RunSet/Overlaps.antt =====
-- `DetectMirrorDestinationPathOverlaps` of internal/controller/helpers.go.
use kube_rsync_machine.Common.{
  ◌≡◌, ◌≢◌, refl, true, false, List, [], ◌∷◌, ok, map, arith, All, AllPairs, Bool-cases,
  Result-cases, inl, inr,
}
use kube_rsync_machine.Common.Eq.{GoString_eq}
use kube_rsync_machine.Common.Maps.{insert}
use kube_rsync_machine.Common.Sort.{sort-nil}
use kube_rsync_machine.Common.Text.{GoString}
use kube_rsync_machine.Controller.Refs.{
  NamespacedName, MachineObject, BackupSource, is_mirror, machine_name,
}
use kube_rsync_machine.Controller.RunSet.{
  MirrorClaim, Overlaps, DestinationPathOverlap, clash, add_overlap, overlaps_with, overlaps_of,
  mirror_claims, overlap_leb, detect_mirror_destination_path_overlaps,
}

insert-ne-nil :
    (key : GoString) (overlap : DestinationPathOverlap) (overlaps : Overlaps)
    → insert key overlap overlaps ≢ []
unfolding insert
insert-ne-nil key overlap [] h = cc
insert-ne-nil key overlap ((k, o) ∷ overlaps) h = ground arith

add_overlap-nil :
    (machine : NamespacedName) (a b : MirrorClaim) (overlaps : Overlaps)
    → add_overlap machine a b overlaps ≡ []
    → (overlaps ≡ []) × (clash a b ≡ false)
unfolding add_overlap
add_overlap-nil machine a b overlaps h = elim (Bool-cases (clash a b)) [
  | inl e ↦ absurd (insert-ne-nil _ _ overlaps (rw e at h))
  | inr e ↦ (rw e at h, e)
]

overlaps_with-nil :
    (machine : NamespacedName) (a : MirrorClaim) (claims : List MirrorClaim) (overlaps : Overlaps)
    → overlaps_with machine a claims overlaps ≡ []
    → (overlaps ≡ []) × All (λ b. clash a b ≡ false) claims
unfolding overlaps_with
overlaps_with-nil machine a [] overlaps h = (h, tt)
overlaps_with-nil machine a (b ∷ claims) overlaps h =
    let later = overlaps_with-nil machine a claims (add_overlap machine a b overlaps) h in
    let here = add_overlap-nil machine a b overlaps later.0 in (here.0, (here.1, later.1))

overlaps_of-nil :
    (machine : NamespacedName) (claims : List MirrorClaim) (overlaps : Overlaps)
    → overlaps_of machine claims overlaps ≡ []
    → (overlaps ≡ []) × AllPairs (λ a b. clash a b ≡ false) claims
unfolding overlaps_of
overlaps_of-nil machine [] overlaps h = (h, tt)
overlaps_of-nil machine (a ∷ claims) overlaps h =
    let later = overlaps_of-nil machine claims (overlaps_with machine a claims overlaps) h in
    let here = overlaps_with-nil machine a claims overlaps later.0 in (here.0, (here.1, later.1))

nil_of_values : (overlaps : Overlaps) → map (λ entry. entry.1) overlaps ≡ [] → overlaps ≡ []
nil_of_values [] h = refl
nil_of_values (o ∷ overlaps) h = cc

-- The code finds no overlap: then no two claims of a mirror clash.
pub no_overlaps :
    (machine : MachineObject) (sources : List BackupSource)
    → is_mirror machine ≡ true
    → detect_mirror_destination_path_overlaps machine sources ≡ ok []
    → (claims : List MirrorClaim) × (mirror_claims machine sources ≡ ok claims)
      × AllPairs (λ a b. clash a b ≡ false) claims
unfolding detect_mirror_destination_path_overlaps
no_overlaps machine sources m h = elim (Result-cases (mirror_claims machine sources)) [
  | inl (claims, e) ↦
      let found = overlaps_of (machine_name machine) claims [] in
      (
        claims,
        e,
        (overlaps_of-nil (machine_name machine) claims [] (
            nil_of_values found
              (sort-nil overlap_leb (map (λ entry. entry.1) found) (ground arith)))).1,
      )
  | inr (error, e) ↦ absurd (ground arith)
]
