-- ===== src/Controller/Guard/Acquire.antt =====
-- internal/controller/reconcilers.go: `acquireTargetGuard` and `releaseTargetGuardsForRun` with the
-- functions that they call.
use kube_rsync_machine.Common.{
  ℕ, Bool, false, not, ◌||◌, List, [], ◌∷◌, ◌++◌, Option, none, some, Result, ok, err,
  if◌then◌else◌, suc, zero,
}
use kube_rsync_machine.Common.Steps.{Steps, return_value, fail, either, ◌>>=◌}
use kube_rsync_machine.Common.Text.{GoString, codes, is_empty, str_eq}
use kube_rsync_machine.Controller.Clock.{Time}
use kube_rsync_machine.Controller.Runs.{set_run_condition}
use kube_rsync_machine.Controller.Refs.{
  NamespacedName, RefError, name_string, same_name, resolve_object_reference,
}
use kube_rsync_machine.Controller.Guard.{
  Lease, JobObject, ApiError, not_found, already_exists, conflict, other_error, Client, GuardError,
  get_lease_failed, create_lease_failed, update_lease_failed, steal_lease_failed,
  read_holder_failed, resolve_holder_failed, cancel_failed, cleanup_failed, list_leases_failed,
  delete_lease_failed, changed_too_frequently, GuardOutcome, acquired, blocked_by, run_name,
  backup_run_guard_holder, parse_backup_job_guard_holder, run_labels, claim_target_guard_lease,
  new_lease, holder_of, active_run_blocks_target_mutation,
}

module _ {W : Type 0} (client : Client W) where
  abbrev pub machine_found :
      NamespacedName → Result ApiError (Unit {0}) → Steps W ApiError (Option NamespacedName)
  machine_found ref (ok found) = return_value (some ref)
  machine_found ref (err not_found) = return_value none
  machine_found ref (err already_exists) = fail already_exists
  machine_found ref (err conflict) = fail conflict
  machine_found ref (err other_error) = fail other_error

  abbrev pub machine_of : Result RefError NamespacedName → Steps W ApiError (Option NamespacedName)
  machine_of (err e) = return_value none
  machine_of (ok ref) = either (client.get_machine ref) (machine_found ref)

  pub machine_ref_for_backup_job : JobObject → Steps W ApiError (Option NamespacedName)
  machine_ref_for_backup_job job =
      machine_of (resolve_object_reference job.machine_ref job.run.namespace)

  -- `ok && holderTarget != target`
  abbrev pub is_elsewhere : NamespacedName → Option NamespacedName → Bool
  is_elsewhere target none = false
  is_elsewhere target (some ref) = not (same_name ref target)

  abbrev pub holder_target :
      JobObject
      → NamespacedName
      → Result ApiError (Option NamespacedName)
      → Steps W GuardError (Option JobObject)
  holder_target job target (err e) = fail (resolve_holder_failed e)
  holder_target job target (ok ref) =
      return_value (if is_elsewhere target ref then none else some job)

  unfoldable pub holder_read :
      NamespacedName → Result ApiError JobObject → Steps W GuardError (Option JobObject)
  unfolding machine_ref_for_backup_job
  holder_read target (err not_found) = return_value none
  holder_read target (err already_exists) = fail (read_holder_failed already_exists)
  holder_read target (err conflict) = fail (read_holder_failed conflict)
  holder_read target (err other_error) = fail (read_holder_failed other_error)
  holder_read target (ok job) =
      if not (active_run_blocks_target_mutation job.run.phase)
      then return_value none
      else either (machine_ref_for_backup_job job) (holder_target job target)

  abbrev pub parsed_holder :
      NamespacedName → Option NamespacedName → Steps W GuardError (Option JobObject)
  parsed_holder target none = return_value none
  parsed_holder target (some ref) = either (client.get_job ref) (holder_read target)

  -- The job that holds the guard, if it is active on this machine.
  unfoldable pub active_guard_holder :
      GoString → NamespacedName → Steps W GuardError (Option JobObject)
  unfolding machine_ref_for_backup_job
  active_guard_holder holder target = parsed_holder target (parse_backup_job_guard_holder holder)

  -- `err != nil && !apierrors.IsNotFound(err)`
  abbrev pub unless_not_found :
      (ApiError → GuardError) → Result ApiError (Unit {0}) → Steps W GuardError (Unit {0})
  unless_not_found wrap (ok done) = return_value tt
  unless_not_found wrap (err not_found) = return_value tt
  unless_not_found wrap (err already_exists) = fail (wrap already_exists)
  unless_not_found wrap (err conflict) = fail (wrap conflict)
  unless_not_found wrap (err other_error) = fail (wrap other_error)

  abbrev pub or_fail :
      (ApiError → GuardError) → Result ApiError (Unit {0}) → Steps W GuardError (Unit {0})
  or_fail wrap (ok done) = return_value tt
  or_fail wrap (err e) = fail (wrap e)

  abbrev pub replaced_message : JobObject → JobObject → GoString
  replaced_message active replacement =
      codes "BackupJob "
      ++ (name_string (run_name active)
          ++ (codes " was replaced by BackupJob " ++ name_string (run_name replacement)))

  -- The status that `cancelBackupJobForReplacement` writes.
  pub replaced_status : Time → JobObject → JobObject → JobObject
  replaced_status now active replacement =
      let canceled = record active.run {
        phase = codes "Canceled";
        completed_at = some now;
        conditions = [];
      } in
      record active {
        run =
            (set_run_condition (record { now = now; parse = λ value. none }) (codes "Replaced")
              (codes "True") (codes "ReplacedByRun") (replaced_message active replacement)
              canceled).0;
      }

  pub cancel_backup_job_for_replacement : JobObject → JobObject → Steps W GuardError (Unit {0})
  unfolding replaced_status
  cancel_backup_job_for_replacement active replacement w =
      let canceled = replaced_status (client.now w) active replacement in
      (either (client.update_job_status canceled) (unless_not_found cancel_failed) >>= λ _.
      either (client.cleanup_run_resources canceled) (or_fail cleanup_failed))
        w

  -- The attempt ends the loop with an outcome, or `none` is `continue`.
  abbrev pub Attempt : Type 0
  Attempt = Steps W GuardError (Option GuardOutcome)

  abbrev pub lease_created : Result ApiError (Unit {0}) → Attempt
  lease_created (ok done) = return_value (some acquired)
  lease_created (err already_exists) = return_value none
  lease_created (err not_found) = fail (create_lease_failed not_found)
  lease_created (err conflict) = fail (create_lease_failed conflict)
  lease_created (err other_error) = fail (create_lease_failed other_error)

  abbrev pub lease_updated : (ApiError → GuardError) → Result ApiError (Unit {0}) → Attempt
  lease_updated wrap (ok done) = return_value (some acquired)
  lease_updated wrap (err conflict) = return_value none
  lease_updated wrap (err not_found) = fail (wrap not_found)
  lease_updated wrap (err already_exists) = fail (wrap already_exists)
  lease_updated wrap (err other_error) = fail (wrap other_error)

  module _ (ref target : NamespacedName) (job : JobObject) (replace : Bool) where
    -- `claimTargetGuardLease` and the update.
    unfoldable pub claim_lease : (ApiError → GuardError) → Time → GoString → Lease → Attempt
    claim_lease wrap now existing lease =
        either
          (client.update_lease
            (claim_target_guard_lease lease job target (backup_run_guard_holder job) now existing))
          (lease_updated wrap)

    -- The `default:` case, when the holder has been looked up.
    unfoldable pub past_holder : Time → GoString → Lease → Option JobObject → Attempt
    unfolding claim_lease cancel_backup_job_for_replacement
    past_holder now existing lease none = claim_lease steal_lease_failed now existing lease
    past_holder now existing lease (some blocking) =
        if not replace
        then return_value (some (blocked_by blocking))
        else (cancel_backup_job_for_replacement blocking job >>= λ _.
            claim_lease steal_lease_failed now existing lease)

    unfoldable pub lease_read : Time → Result ApiError Lease → Attempt
    unfolding claim_lease
    lease_read now (err not_found) =
        either (client.create_lease (new_lease ref job target (backup_run_guard_holder job) now))
          lease_created
    lease_read now (err already_exists) = fail (get_lease_failed already_exists)
    lease_read now (err conflict) = fail (get_lease_failed conflict)
    lease_read now (err other_error) = fail (get_lease_failed other_error)
    lease_read now (ok lease) =
        let existing = holder_of lease.holder_identity in
        if is_empty existing || str_eq existing (backup_run_guard_holder job)
        then claim_lease update_lease_failed now existing lease
        else (active_guard_holder existing target >>= past_holder now existing lease)

    -- The body of the loop.
    unfoldable pub attempt : Attempt
    unfolding claim_lease active_guard_holder lease_read past_holder
    attempt w = either (client.get_lease ref) (lease_read (client.now w)) w

    abbrev pub go_on :
        Steps W GuardError GuardOutcome → Option GuardOutcome → Steps W GuardError GuardOutcome
    go_on rest none = rest
    go_on rest (some outcome) = return_value outcome

    -- `for attempt := 0; attempt < n; attempt++`
    unfoldable pub attempts : ℕ → Steps W GuardError GuardOutcome
    unfolding attempt
    attempts zero = fail changed_too_frequently
    attempts (suc n) = attempt >>= go_on (attempts n)

    -- `acquireTargetGuard`; `ref` is `TargetGuardLeaseRef(machineRef)`.
    unfoldable pub acquire_target_guard : Steps W GuardError GuardOutcome
    unfolding attempts
    acquire_target_guard = attempts 3

  abbrev pub held_by_other : GoString → Option GoString → Bool
  held_by_other holder none = false
  held_by_other holder (some other) = not (str_eq other holder)

  -- The loop of `releaseTargetGuardsForRun`.
  pub release_leases : GoString → List Lease → Steps W GuardError (Unit {0})
  release_leases holder [] = return_value tt
  release_leases holder (lease ∷ leases) =
      let rest = release_leases holder leases in
      if held_by_other holder lease.holder_identity
      then rest
      else (either (client.delete_lease lease) (unless_not_found delete_lease_failed) >>= λ _. rest)

  unfoldable pub leases_listed :
      GoString → Result ApiError (List Lease) → Steps W GuardError (Unit {0})
  unfolding release_leases
  leases_listed holder (err e) = fail (list_leases_failed e)
  leases_listed holder (ok leases) = release_leases holder leases

  unfoldable pub release_target_guards_for_run : JobObject → Steps W GuardError (Unit {0})
  unfolding release_leases
  release_target_guards_for_run job =
      either (client.list_leases (run_labels job)) (leases_listed (backup_run_guard_holder job))
