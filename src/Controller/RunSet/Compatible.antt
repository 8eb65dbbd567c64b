-- ===== src/Controller/RunSet/Compatible.antt =====
-- `DetectDestinationPathConflicts` and `DetectMirrorDestinationPathOverlaps` of
-- internal/controller/helpers.go.
use kube_rsync_machine.Common.{
  ◌≡◌, ◌⊎◌, refl, sym, ◌∙◌, true, false, List, [], ◌∷◌, ok, arith, All, All-imp, AllPairs,
  Bool-cases, Result-cases, inl, inr,
}
use kube_rsync_machine.Common.Text.{GoString, str_eq, str_eq_iff}
use kube_rsync_machine.Dataplane.Paths.Relative.{IsSegment}
use kube_rsync_machine.Controller.Refs.{
  MachineObject, BackupSource, source_name, admits, is_mirror, delete_or_default,
}
use kube_rsync_machine.Controller.Destinations.{
  effective_destination_path_for_strategy, effective_mirror_destination_path,
}
use kube_rsync_machine.Controller.Destinations.Effective.{
  effective_destination_path_below, below_equal,
}
use kube_rsync_machine.Controller.RunSet.{
  MirrorClaim, Claims, mirror_claims, clash, conflicts_of, detect_destination_path_conflicts,
  detect_mirror_destination_path_overlaps,
}
use kube_rsync_machine.Controller.RunSet.Conflicts.{IsClaimed, claimed_same, no_conflicts}
use kube_rsync_machine.Controller.RunSet.Overlaps.{no_overlaps}
use kube_rsync_machine.Controller.RunSet.Members.{AreCompatible}

-- Two sources with claims at one place are one source.
claimed_compatible :
    (machine : MachineObject) (claims : Claims) (s t : BackupSource)
    → is_mirror machine ≡ false
    → conflicts_of claims ≡ []
    → IsSegment s.namespace
    → IsSegment t.namespace
    → IsClaimed machine claims s
    → IsClaimed machine claims t
    → AreCompatible machine s t
unfolding effective_destination_path_for_strategy
claimed_compatible machine claims s t m none_found ns nt cs ct p q a b other hp hq =
    let (c, ec, pc) =
      effective_destination_path_below s.namespace s.destination_path p ns (rw m at hp) in
    let (d, ed, qd) =
      effective_destination_path_below t.namespace t.destination_path q nt (rw m at hq) in
    elim (Bool-cases (str_eq p q)) [
      | inl e ↦
          let same =
            below_equal s.namespace t.namespace c d ns nt (sym pc ∙ (str_eq_iff p q).0 e ∙ qd) in
          absurd (
            ground (
              arith,
              other,
              claimed_same machine claims s t c none_found cs ct a b same.0 ec (rw same.1 ed),
            ))
      | inr e ↦ rw (m, e) refl
    ]

claimed_all_compatible :
    (machine : MachineObject) (claims : Claims) (sources : List BackupSource)
    → is_mirror machine ≡ false
    → conflicts_of claims ≡ []
    → All (λ s. IsSegment s.namespace) sources
    → All (IsClaimed machine claims) sources
    → AllPairs (AreCompatible machine) sources
claimed_all_compatible machine claims [] m h n c = tt
claimed_all_compatible machine claims (s ∷ sources) m h (n, ns) (c, cs) =
    (to_each sources ns cs, claimed_all_compatible machine claims sources m h ns cs)
  where
    to_each :
        (ts : List BackupSource)
        → All (λ t. IsSegment t.namespace) ts
        → All (IsClaimed machine claims) ts
        → All (AreCompatible machine s) ts
    to_each [] ns cs = tt
    to_each (t ∷ ts) (nt, ns) (ct, cs) =
        (claimed_compatible machine claims s t m h n nt c ct, to_each ts ns cs)

-- The claim that an admitted source of a mirror makes.
abbrev claim_of : BackupSource → GoString → MirrorClaim
claim_of source path = record {
  path = path;
  source = source_name source;
  delete = delete_or_default source.delete;
}

abbrev IsClear : MachineObject → MirrorClaim → BackupSource → Type 0
IsClear machine claim t =
    (q : GoString)
    → admits machine t ≡ true
    → effective_mirror_destination_path t.destination_path ≡ ok q
    → clash claim (claim_of t q) ≡ false

-- One round of the loop that collects the claims.
mirror_claims_cases :
    (machine : MachineObject) (s : BackupSource) (sources : List BackupSource)
    (claims : List MirrorClaim)
    → mirror_claims machine (s ∷ sources) ≡ ok claims
    → ((admits machine s ≡ false) × (mirror_claims machine sources ≡ ok claims))
      ⊎ ((path : GoString) × (rest : List MirrorClaim) × (admits machine s ≡ true)
          × (effective_mirror_destination_path s.destination_path ≡ ok path)
          × (mirror_claims machine sources ≡ ok rest)
          × (claims ≡ claim_of s path ∷ rest))
unfolding mirror_claims
mirror_claims_cases machine s sources claims h = elim (Bool-cases (admits machine s)) [
  | inr out ↦ inl (out, ground arith)
  | inl in_set ↦ elim (Result-cases (effective_mirror_destination_path s.destination_path)) [
    | inl (path, e) ↦ elim (Result-cases (mirror_claims machine sources)) [
      | inl (rest, f) ↦ inr (path, rest, in_set, e, f, ground arith)
      | inr (error, f) ↦ absurd (ground arith)
    ]
    | inr (error, e) ↦ absurd (ground arith)
  ]
]

mirror-IsClear :
    (machine : MachineObject) (claim : MirrorClaim) (sources : List BackupSource)
    (claims : List MirrorClaim)
    → mirror_claims machine sources ≡ ok claims
    → All (λ b. clash claim b ≡ false) claims
    → All (IsClear machine claim) sources
mirror-IsClear machine claim [] claims h k = tt
mirror-IsClear machine claim (t ∷ sources) claims h k =
    elim (mirror_claims_cases machine t sources claims h) [
      | inl (out, same) ↦
          (λ q a e. absurd (ground arith), mirror-IsClear machine claim sources claims same k)
      | inr (path, rest, in_set, e, f, more) ↦
          let both : All (λ b. clash claim b ≡ false) (claim_of t path ∷ rest) = rw more at k in
          (
            λ q a g. let same : q ≡ path = ground arith in rw same both.0,
            mirror-IsClear machine claim sources rest f both.1,
          )
    ]

clear_compatible :
    (machine : MachineObject) (s t : BackupSource) (path : GoString)
    → is_mirror machine ≡ true
    → effective_mirror_destination_path s.destination_path ≡ ok path
    → IsClear machine (claim_of s path) t
    → AreCompatible machine s t
unfolding clash effective_destination_path_for_strategy
clear_compatible machine s t path m e clear p q a b other hp hq =
    let there : effective_mirror_destination_path t.destination_path ≡ ok q = rw m at hq in
    let same : p ≡ path = ground arith in rw (m, same) (ground (arith, clear q b there))

left_out :
    (machine : MachineObject) (s : BackupSource) (sources : List BackupSource)
    → admits machine s ≡ false
    → All (AreCompatible machine s) sources
left_out machine s [] out = tt
left_out machine s (t ∷ sources) out =
    (λ p q a. absurd (ground arith), left_out machine s sources out)

mirror_all_compatible :
    (machine : MachineObject) (sources : List BackupSource) (claims : List MirrorClaim)
    → is_mirror machine ≡ true
    → mirror_claims machine sources ≡ ok claims
    → AllPairs (λ a b. clash a b ≡ false) claims
    → AllPairs (AreCompatible machine) sources
mirror_all_compatible machine [] claims m h k = tt
mirror_all_compatible machine (s ∷ sources) claims m h k =
    elim (mirror_claims_cases machine s sources claims h) [
      | inl (out, same) ↦
          (left_out machine s sources out, mirror_all_compatible machine sources claims m same k)
      | inr (path, rest, in_set, e, f, more) ↦
          let pairs : AllPairs (λ a b. clash a b ≡ false) (claim_of s path ∷ rest) = rw more at k in
          (
            All-imp (λ t clear. clear_compatible machine s t path m e clear) sources
                (mirror-IsClear machine (claim_of s path) sources rest f pairs.0),
            mirror_all_compatible machine sources rest m f pairs.1,
          )
    ]

-- What the detectors let through is compatible.
pub detected_compatible :
    (machine : MachineObject) (sources : List BackupSource)
    → All (λ s. IsSegment s.namespace) sources
    → detect_destination_path_conflicts (machine ∷ []) sources ≡ ok []
    → detect_mirror_destination_path_overlaps machine sources ≡ ok []
    → AllPairs (AreCompatible machine) sources
detected_compatible machine sources n h k = elim (Bool-cases (is_mirror machine)) [
  | inl m ↦
      let (claims, e, pairs) = no_overlaps machine sources m k in
      mirror_all_compatible machine sources claims m e pairs
  | inr m ↦
      let (claims, none_found, claimed) = no_conflicts machine sources m h in
      claimed_all_compatible machine claims sources m none_found n claimed
]
