-- ===== src/Controller/RunSet/Calculate.antt =====
-- `CalculateTargetRunSet` of internal/controller/helpers.go.
use mathlib.Core.List.{Memᴰ}
use kube_rsync_machine.Common.{
  ◌≡◌, ◌≢◌, refl, true, List, [], ◌∷◌, ok, arith, All, AllPairs, Result-cases, inl, inr,
}
use kube_rsync_machine.Common.Sort.{
  sort, IsSorted, All-sort, AllPairs-sort, any-sort, sort-IsSorted, sort-nil,
}
use kube_rsync_machine.Common.Text.Order.{str_leb_total, str_leb_trans}
use kube_rsync_machine.Dataplane.Paths.Relative.{IsSegment}
use kube_rsync_machine.Controller.Refs.{
  MachineObject, BackupSource, same_name, source_name, name_string,
}
use kube_rsync_machine.Controller.RunSet.{
  ResolvedSource, TargetRunSet, check_strategy, resolve_sources, resolved_leb,
  calculate_target_run_set, detect_destination_path_conflicts,
  detect_mirror_destination_path_overlaps,
}
use kube_rsync_machine.Controller.RunSet.Members.{
  IsMember, AreApart, AreApart-symmetric, resolve_sources_sound, covered, resolve_sources_covers,
}
use kube_rsync_machine.Controller.RunSet.Compatible.{detected_compatible}

-- The sources of a run: exactly those that the machine admits, by name, each with its destination;
-- no two of them have one name or get in each other's way.
pub record IsRunSet (machine : MachineObject) (sources : List BackupSource) (set : TargetRunSet)
    : Type 0 where
  pub members : All (IsMember machine sources) set.sources
  pub complete : All (λ s. covered machine set.sources s ≡ true) sources
  pub apart : AllPairs (AreApart machine) set.sources
  pub sorted : IsSorted resolved_leb set.sources
  pub nonempty : set.sources ≢ []

-- What has succeeded when the function returns a set.
abbrev IsComputed : MachineObject → List BackupSource → TargetRunSet → Type 0
IsComputed machine sources set =
    (found : List ResolvedSource) × (detect_destination_path_conflicts (machine ∷ []) sources
      ≡ ok [])
    × (detect_mirror_destination_path_overlaps machine sources ≡ ok [])
    × (resolve_sources machine sources [] ≡ ok found)
    × (found ≢ [])
    × (set.sources ≡ sort resolved_leb found)

calculate_steps :
    (machine : MachineObject) (sources : List BackupSource) (set : TargetRunSet)
    → calculate_target_run_set machine sources ≡ ok set
    → IsComputed machine sources set
unfolding calculate_target_run_set
calculate_steps machine sources set h = elim (Result-cases (check_strategy machine)) [
  | inr (error, c) ↦ absurd (ground arith)
  | inl (u, c) ↦ elim (Result-cases (detect_destination_path_conflicts (machine ∷ []) sources)) [
    | inr (error, d) ↦ absurd (ground arith)
    | inl (conflicts, d) ↦
        elim (Result-cases (detect_mirror_destination_path_overlaps machine sources)) [
          | inr (error, o) ↦ absurd (ground arith)
          | inl (overlaps, o) ↦ elim (Result-cases (resolve_sources machine sources [])) [
            | inr (error, r) ↦ absurd (ground arith)
            | inl (found, r) ↦ (found, ground arith, ground arith, r, ground arith, ground arith)
          ]
        ]
  ]
]

all_of_listed :
    (P : BackupSource → Type 0) (xs : List BackupSource)
    → ((s : BackupSource) → Memᴰ s xs → P s)
    → All P xs
all_of_listed P [] h = tt
all_of_listed P (x ∷ xs) h = (h x (Memᴰ.head refl), all_of_listed P xs (λ s m. h s (Memᴰ.tail m)))

covered-sort :
    (machine : MachineObject) (found : List ResolvedSource) (s : BackupSource)
    → covered machine found s ≡ true
    → covered machine (sort resolved_leb found) s ≡ true
covered-sort machine found s h =
    rw (any-sort resolved_leb (λ r. same_name r.ref (source_name s)) found) h

-- Where the namespaces of the sources are directory names, a set that `CalculateTargetRunSet`
-- returns is the set of a run: its entries are the admitted sources and no others, sorted by name,
-- at least one, and no two have equal destinations, or for a mirror destinations that overlap where
-- one deletes.
pub calculate_target_run_set-IsRunSet :
    (machine : MachineObject) (sources : List BackupSource) (set : TargetRunSet)
    → All (λ s. IsSegment s.namespace) sources
    → calculate_target_run_set machine sources ≡ ok set
    → IsRunSet machine sources set
calculate_target_run_set-IsRunSet machine sources set n h =
    let (found, d, o, r, ne, e) = calculate_steps machine sources set h in
    let (members, apart) =
      resolve_sources_sound machine sources found (detected_compatible machine sources n d o) r in
    record {
      members = rw e (All-sort resolved_leb (IsMember machine sources) found members);
      complete = rw e (
          all_of_listed (λ s. covered machine (sort resolved_leb found) s ≡ true) sources
            (λ s m.
              covered-sort machine found s (resolve_sources_covers machine sources found r s m)));
      apart =
          rw e (
            AllPairs-sort resolved_leb (AreApart machine) (AreApart-symmetric machine) found apart);
      sorted = rw e (
          sort-IsSorted resolved_leb (λ a b. str_leb_total (name_string a.ref) (name_string b.ref))
            (λ a b c. str_leb_trans (name_string a.ref) (name_string b.ref) (name_string c.ref))
            found);
      nonempty = λ z. ne (sort-nil resolved_leb found (cc (e, z)));
    }
