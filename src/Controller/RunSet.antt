-- ===== src/Controller/RunSet.antt =====
-- internal/controller/helpers.go: `DetectDestinationPathConflicts`,
-- `DetectMirrorDestinationPathOverlaps` and `CalculateTargetRunSet`. The map of sources is the list
-- of its values in the order of one iteration, which Go leaves open.
pub mod Conflicts
pub mod Overlaps
pub mod Members
pub mod Compatible
pub mod Calculate
use kube_rsync_machine.Common.{
  ℕ, Bool, true, false, ◌&&◌, ◌||◌, not, List, [], ◌∷◌, ◌++◌, Result, ok, err, ◌>>=◌, ◌>>◌, refuse,
  map_err, ltb, length, if◌then◌else◌, any, map, Option, none, some, keep_if,
}
use kube_rsync_machine.Common.Eq.{Eq, GoString_eq}
use kube_rsync_machine.Common.Int.{ℤ, pos, negsuc}
use kube_rsync_machine.Common.Maps.{lookup, insert}
use kube_rsync_machine.Common.Sort.{sort}
use kube_rsync_machine.Common.Text.{GoString, codes, is_empty, str_eq, str_leb, str_ltb, join}
use kube_rsync_machine.Controller.Refs.{
  NamespacedName, MachineObject, BackupSource, RetentionSpec, name_string, same_name, machine_name,
  source_name, admits, is_mirror, type_or_default, delete_or_default, retention_empty,
}
use kube_rsync_machine.Controller.Destinations.{
  DestinationError, clean_relative_path, effective_mirror_destination_path,
  effective_destination_path_for_strategy, mirror_paths_overlap, mirror_overlap_path,
}

pub record DestinationPathConflict : Type 0 where
  pub machine_ref : NamespacedName
  pub source_namespace : GoString
  pub destination_path : GoString
  pub sources : List NamespacedName
  pub machines : List NamespacedName

pub record DestinationPathOverlap : Type 0 where
  pub machine_ref : NamespacedName
  pub path : GoString
  pub sources : List NamespacedName

pub record ResolvedSource : Type 0 where
  pub ref : NamespacedName
  pub source : BackupSource
  pub effective_destination_path : GoString

pub record TargetRunSet : Type 0 where
  pub machine_ref : NamespacedName
  pub machines : List NamespacedName
  pub sources : List ResolvedSource
  pub retention : RetentionSpec

pub data RunSetError : Type 0 where
  strategy_not_supported : GoString → RunSetError
  retention_must_be_empty : RunSetError
  source_destination : NamespacedName → DestinationError → RunSetError
  path_conflict : DestinationPathConflict → RunSetError
  path_overlap : DestinationPathOverlap → RunSetError
  no_sources : RunSetError

-- `claim` of `DetectDestinationPathConflicts`.
pub record Claim : Type 0 where
  pub machine : NamespacedName
  pub path : GoString
  pub source : NamespacedName

abbrev pub Claims : Type 0
Claims = List (GoString × List Claim)

-- A map with empty values, keyed by `NamespacedName`.
unfoldable pub add_name : NamespacedName → List NamespacedName → List NamespacedName
add_name ref refs = if any (same_name ref) refs then refs else ref ∷ refs

abbrev pub add_names : List NamespacedName → List NamespacedName
add_names [] = []
add_names (ref ∷ refs) = add_name ref (add_names refs)

abbrev pub name_leb : NamespacedName → NamespacedName → Bool
name_leb a b = str_leb (name_string a) (name_string b)

unfoldable pub sorted_namespaced_names : List NamespacedName → List NamespacedName
sorted_namespaced_names = sort name_leb

-- `strings.Join(..., "\x00")`
unfoldable pub claim_key : NamespacedName → GoString → GoString → GoString
claim_key machine source_namespace path =
    join 0 (name_string machine ∷ source_namespace ∷ path ∷ [])

-- The claims of a key, none for a key that is missing.
abbrev pub or_no_claims : Option (List Claim) → List Claim
or_no_claims none = []
or_no_claims (some claims) = claims

abbrev pub claims_at : GoString → Claims → List Claim
claims_at key claims = or_no_claims (lookup key claims)

-- `claimsByKey[key] = append(claimsByKey[key], claim{...})`
unfoldable pub append_claim : MachineObject → BackupSource → GoString → Claims → Claims
append_claim machine source path claims =
    let key = claim_key (machine_name machine) source.namespace path in
    insert key
      (claims_at key claims
        ++ record { machine = machine_name machine; path = path; source = source_name source } ∷ [])
      claims

-- One source in the loop over the sources of a machine.
unfoldable pub claim_source : MachineObject → BackupSource → Claims → Result RunSetError Claims
unfolding append_claim
claim_source machine source claims =
    if not (admits machine source) || is_mirror machine
    then ok claims
    else (map_err (source_destination (source_name source))
          (clean_relative_path source.destination_path)
        >>= λ path. ok (append_claim machine source path claims))

unfoldable pub claim_sources :
    MachineObject → List BackupSource → Claims → Result RunSetError Claims
unfolding claim_source
claim_sources machine [] claims = ok claims
claim_sources machine (source ∷ sources) claims =
    claim_source machine source claims >>= claim_sources machine sources

unfoldable pub claim_machines :
    List MachineObject → List BackupSource → Claims → Result RunSetError Claims
unfolding claim_sources
claim_machines [] sources claims = ok claims
claim_machines (machine ∷ machines) sources claims =
    claim_sources machine sources claims >>= claim_machines machines sources

-- The body of the loop over the keys: the conflict of a key's claims, if there is one.
unfoldable pub conflict_of : List Claim → List DestinationPathConflict
conflict_of [] = []
conflict_of (claim ∷ claims) =
    let sources = add_names (map (λ c. c.source) (claim ∷ claims)) in
    let machines = add_names (map (λ c. c.machine) (claim ∷ claims)) in
    if ltb 1 (length sources)
    then record {
      machine_ref = claim.machine;
      source_namespace = claim.source.namespace;
      destination_path = claim.path;
      sources = sorted_namespaced_names sources;
      machines = sorted_namespaced_names machines;
    }
      ∷ []
    else []

unfoldable pub conflicts_of : Claims → List DestinationPathConflict
unfolding conflict_of
conflicts_of [] = []
conflicts_of ((key, claims) ∷ rest) = conflict_of claims ++ conflicts_of rest

unfoldable pub conflict_key : DestinationPathConflict → GoString
conflict_key conflict =
    claim_key conflict.machine_ref conflict.source_namespace conflict.destination_path

unfoldable pub detect_destination_path_conflicts :
    List MachineObject → List BackupSource → Result RunSetError (List DestinationPathConflict)
unfolding claim_machines conflicts_of
detect_destination_path_conflicts machines sources =
    claim_machines machines sources [] >>= λ claims.
    ok (sort (λ a b. str_leb (conflict_key a) (conflict_key b)) (conflicts_of claims))

-- `claim` of `DetectMirrorDestinationPathOverlaps`.
pub record MirrorClaim : Type 0 where
  pub path : GoString
  pub source : NamespacedName
  pub delete : Bool

unfoldable pub mirror_claims :
    MachineObject → List BackupSource → Result RunSetError (List MirrorClaim)
mirror_claims machine [] = ok []
mirror_claims machine (source ∷ sources) =
    let rest = mirror_claims machine sources in
    if not (admits machine source)
    then rest
    else (map_err (source_destination (source_name source))
          (effective_mirror_destination_path source.destination_path)
        >>= λ path. rest >>= λ claims. ok (
            record {
              path = path;
              source = source_name source;
              delete = delete_or_default source.delete;
            }
            ∷ claims))

-- The test at the head of the inner loop, negated.
unfoldable pub clash : MirrorClaim → MirrorClaim → Bool
clash a b = mirror_paths_overlap a.path b.path && (a.delete || b.delete)

abbrev pub Overlaps : Type 0
Overlaps = List (GoString × DestinationPathOverlap)

abbrev pub overlap_sources : Option DestinationPathOverlap → List NamespacedName
overlap_sources none = []
overlap_sources (some overlap) = overlap.sources

abbrev pub add_last : NamespacedName → List NamespacedName → List NamespacedName
add_last ref refs = if any (same_name ref) refs then refs else refs ++ ref ∷ []

-- The body of the inner loop. All keys begin with the same machine, which is left out of them.
unfoldable pub add_overlap : NamespacedName → MirrorClaim → MirrorClaim → Overlaps → Overlaps
add_overlap machine a b overlaps =
    let path = mirror_overlap_path a.path b.path in
    let seen = overlap_sources (lookup path overlaps) in
    if clash a b
    then insert path
        (record {
          machine_ref = machine;
          path = path;
          sources = sort name_leb (add_last b.source (add_last a.source seen));
        })
        overlaps
    else overlaps

unfoldable pub overlaps_with : NamespacedName → MirrorClaim → List MirrorClaim → Overlaps → Overlaps
unfolding add_overlap
overlaps_with machine a [] overlaps = overlaps
overlaps_with machine a (b ∷ claims) overlaps =
    overlaps_with machine a claims (add_overlap machine a b overlaps)

unfoldable pub overlaps_of : NamespacedName → List MirrorClaim → Overlaps → Overlaps
unfolding overlaps_with
overlaps_of machine [] overlaps = overlaps
overlaps_of machine (a ∷ claims) overlaps =
    overlaps_of machine claims (overlaps_with machine a claims overlaps)

-- The order of the overlaps; they have one machine.
abbrev pub overlap_leb : DestinationPathOverlap → DestinationPathOverlap → Bool
overlap_leb a b = str_leb a.path b.path

unfoldable pub detect_mirror_destination_path_overlaps :
    MachineObject → List BackupSource → Result RunSetError (List DestinationPathOverlap)
unfolding mirror_claims overlaps_of
detect_mirror_destination_path_overlaps machine sources =
    if is_mirror machine
    then (mirror_claims machine sources >>= λ claims.
        ok (
          sort overlap_leb (map (λ entry. entry.1) (overlaps_of (machine_name machine) claims []))))
    else ok []

-- The tests before the loops of `CalculateTargetRunSet`.
unfoldable pub check_strategy : MachineObject → Result RunSetError (Unit {0})
check_strategy machine =
    let strategy = type_or_default machine.strategy in
    if not (str_eq strategy (codes "Snapshot") || str_eq strategy (codes "Mirror"))
    then err (strategy_not_supported machine.strategy)
    else if is_mirror machine && not (retention_empty machine.retention)
    then err retention_must_be_empty
    else ok tt

abbrev pub first_conflict : List DestinationPathConflict → Result RunSetError (Unit {0})
first_conflict [] = ok tt
first_conflict (conflict ∷ conflicts) = err (path_conflict conflict)

abbrev pub first_overlap : List DestinationPathOverlap → Result RunSetError (Unit {0})
first_overlap [] = ok tt
first_overlap (overlap ∷ overlaps) = err (path_overlap overlap)

abbrev pub has_ref : NamespacedName → List ResolvedSource → Bool
has_ref ref = any (λ resolved. same_name resolved.ref ref)

-- One source in the last loop; `found` are the values of `sourcesByRef`.
unfoldable pub resolve_source :
    MachineObject → BackupSource → List ResolvedSource → Result RunSetError (List ResolvedSource)
resolve_source machine source found =
    if not (admits machine source) || has_ref (source_name source) found
    then ok found
    else (map_err (source_destination (source_name source))
          (effective_destination_path_for_strategy machine source)
        >>= λ path. ok (
            record { ref = source_name source; source = source; effective_destination_path = path }
            ∷ found))

unfoldable pub resolve_sources :
    MachineObject
    → List BackupSource
    → List ResolvedSource
    → Result RunSetError (List ResolvedSource)
unfolding resolve_source
resolve_sources machine [] found = ok found
resolve_sources machine (source ∷ sources) found =
    resolve_source machine source found >>= resolve_sources machine sources

abbrev pub resolved_leb : ResolvedSource → ResolvedSource → Bool
resolved_leb a b = name_leb a.ref b.ref

abbrev pub refuse_nil : List ResolvedSource → Result RunSetError (Unit {0})
refuse_nil [] = err no_sources
refuse_nil (resolved ∷ found) = ok tt

unfoldable pub calculate_target_run_set :
    MachineObject → List BackupSource → Result RunSetError TargetRunSet
unfolding check_strategy
calculate_target_run_set machine sources = do
  check_strategy machine
  conflicts ← detect_destination_path_conflicts (machine ∷ []) sources
  first_conflict conflicts
  overlaps ← detect_mirror_destination_path_overlaps machine sources
  first_overlap overlaps
  found ← resolve_sources machine sources []
  refuse_nil found
  ok (record {
    machine_ref = machine_name machine;
    machines = machine_name machine ∷ [];
    sources = sort resolved_leb found;
    retention = machine.retention;
  })
