-- ===== src/Controller/Guard.antt =====
-- internal/controller/reconcilers.go: the lease that guards a machine, one at a time for the runs
-- that change it: `acquireTargetGuard`, `activeGuardHolder`, `releaseTargetGuardsForRun`,
-- `claimTargetGuardLease` and the name of its holder. The Kubernetes client, the clock and the hash
-- in the lease's name are parameters. The state `W` is the cluster's and moves on with each call, so
-- that other clients may act between two calls.
pub mod Acquire
pub mod Holder
pub mod Free
pub mod Exclusion
use kube_rsync_machine.Common.{
  ℕ, ◌+◌, ◌-◌, ◌^◌, Bool, true, false, not, ◌&&◌, ◌||◌, List, [], ◌∷◌, ◌++◌, Option, none, some,
  Result, ok, err, if◌then◌else◌, ◌==◌, suc, zero,
}
use kube_rsync_machine.Common.Int.{ℤ, pos, negsuc}
use kube_rsync_machine.Common.Steps.{Steps, return_value, fail, either, ◌>>=◌}
use kube_rsync_machine.Common.Text.{GoString, codes, is_empty, str_eq, split}
use kube_rsync_machine.Controller.Clock.{Time, Clock}
use kube_rsync_machine.Controller.Conditions.{Condition, set_condition}
use kube_rsync_machine.Controller.Runs.{BackupJob, set_run_condition}
use kube_rsync_machine.Controller.Refs.{
  NamespacedName, ObjectReference, RefError, MachineObject, name_string, same_name,
  resolve_object_reference, machine_name,
}

-- What the guard reads of a `coordination.k8s.io/v1` Lease.
pub record Lease : Type 0 where
  pub namespace : GoString
  pub name : GoString
  pub resource_version : GoString
  pub labels : List (GoString × GoString)
  pub annotations : List (GoString × GoString)
  pub holder_identity : Option GoString
  pub lease_duration_seconds : Option ℕ
  pub acquire_time : Option Time
  pub renew_time : Option Time
  pub lease_transitions : Option ℤ

-- A `BackupJob` with the reference of its spec.
pub record JobObject : Type 0 where
  pub run : BackupJob
  pub machine_ref : ObjectReference

pub data ApiError : Type 0 where
  not_found already_exists conflict other_error : ApiError

-- The calls of the Kubernetes client and of the clock. `cleanup_run_resources` are the deletions of
-- `cleanupRunResources`.
pub record Client (W : Type 0) : Type 0 where
  pub now : W → Time
  pub get_lease : NamespacedName → Steps W ApiError Lease
  pub create_lease : Lease → Steps W ApiError (Unit {0})
  pub update_lease : Lease → Steps W ApiError (Unit {0})
  pub delete_lease : Lease → Steps W ApiError (Unit {0})
  pub list_leases : List (GoString × GoString) → Steps W ApiError (List Lease)
  pub get_job : NamespacedName → Steps W ApiError JobObject
  pub get_machine : NamespacedName → Steps W ApiError (Unit {0})
  pub update_job_status : JobObject → Steps W ApiError (Unit {0})
  pub cleanup_run_resources : JobObject → Steps W ApiError (Unit {0})

pub data GuardError : Type 0 where
  get_lease_failed create_lease_failed update_lease_failed steal_lease_failed :
      ApiError → GuardError
  read_holder_failed resolve_holder_failed cancel_failed cleanup_failed : ApiError → GuardError
  list_leases_failed delete_lease_failed : ApiError → GuardError
  changed_too_frequently : GuardError

-- `(nil, true, nil)` and `(&blocking, false, nil)`.
pub data GuardOutcome : Type 0 where
  acquired : GuardOutcome
  blocked_by : JobObject → GuardOutcome

pub run_name : JobObject → NamespacedName
run_name job = record { namespace = job.run.namespace; name = job.run.name }

-- `backupRunGuardHolder`
unfoldable pub backup_run_guard_holder : JobObject → GoString
unfolding run_name
backup_run_guard_holder job = name_string (run_name job)

abbrev two_parts : List GoString → Option NamespacedName
two_parts [] = none
two_parts (namespace ∷ []) = none
two_parts (namespace ∷ name ∷ []) =
    if is_empty namespace || is_empty name
    then none
    else some (record { namespace = namespace; name = name })
two_parts (namespace ∷ name ∷ part ∷ parts) = none

unfoldable pub parse_backup_job_guard_holder : GoString → Option NamespacedName
parse_backup_job_guard_holder holder = two_parts (split b'/' holder)

abbrev pub lease_duration : ℕ
lease_duration = 86400

-- `runLabels(run, runKindBackup, targetGuardRole)`
abbrev pub run_labels : JobObject → List (GoString × GoString)
run_labels job =
    (codes "app.kubernetes.io/name", codes "kube-rsync-machine")
    ∷ (codes "krm.chirino.github.io/run-namespace", job.run.namespace)
    ∷ (codes "krm.chirino.github.io/run-kind", codes "backup")
    ∷ (codes "krm.chirino.github.io/run", job.run.name)
    ∷ (codes "krm.chirino.github.io/resource-role", codes "target-guard")
    ∷ []

unfoldable pub target_guard_lease_labels : JobObject → NamespacedName → List (GoString × GoString)
target_guard_lease_labels job target =
    run_labels job
    ++ (codes "krm.chirino.github.io/target-namespace", target.namespace)
      ∷ (codes "krm.chirino.github.io/target-name", target.name)
      ∷ []

unfoldable pub target_guard_lease_annotations : NamespacedName → List (GoString × GoString)
target_guard_lease_annotations target =
    (codes "krm.chirino.github.io/target", name_string target) ∷ []

-- `value + 1` of an int32.
unfoldable pub int32_suc : ℤ → ℤ
int32_suc (pos n) = if n == 2 ^ 31 - 1 then negsuc (2 ^ 31 - 1) else pos (n + 1)
int32_suc (negsuc zero) = pos 0
int32_suc (negsuc (suc n)) = negsuc n

abbrev pub next_transitions : Option ℤ → ℤ
unfolding int32_suc
next_transitions none = pos 0
next_transitions (some n) = int32_suc n

-- `claimTargetGuardLease`
unfoldable pub claim_target_guard_lease :
    Lease → JobObject → NamespacedName → GoString → Time → GoString → Lease
unfolding target_guard_lease_labels target_guard_lease_annotations int32_suc
claim_target_guard_lease lease job target holder now previous_holder =
    let same = str_eq previous_holder holder in
    record lease {
      lease_transitions =
          if same then lease.lease_transitions else some (next_transitions lease.lease_transitions);
      acquire_time = if same then lease.acquire_time else some now;
      labels = target_guard_lease_labels job target;
      annotations = target_guard_lease_annotations target;
      holder_identity = some holder;
      lease_duration_seconds = some lease_duration;
      renew_time = some now;
    }

-- The lease that is created where there is none.
pub new_lease : NamespacedName → JobObject → NamespacedName → GoString → Time → Lease
unfolding target_guard_lease_labels target_guard_lease_annotations
new_lease ref job target holder now = record {
  namespace = ref.namespace;
  name = ref.name;
  resource_version = [];
  labels = target_guard_lease_labels job target;
  annotations = target_guard_lease_annotations target;
  holder_identity = some holder;
  lease_duration_seconds = some lease_duration;
  acquire_time = some now;
  renew_time = some now;
  lease_transitions = some (pos 0);
}

-- `ActiveRunBlocksTargetMutation`
pub active_run_blocks_target_mutation : GoString → Bool
active_run_blocks_target_mutation phase =
    str_eq phase (codes "Preparing")
    || str_eq phase (codes "Running")
    || str_eq phase (codes "Finalizing")

-- `*lease.Spec.HolderIdentity`, or "" where that is nil.
abbrev pub holder_of : Option GoString → GoString
holder_of none = []
holder_of (some holder) = holder
