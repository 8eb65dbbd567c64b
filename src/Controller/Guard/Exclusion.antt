-- ===== src/Controller/Guard/Exclusion.antt =====
-- `acquireTargetGuard` of internal/controller/reconcilers.go.
use kube_rsync_machine.Common.{
  ℕ, ◌≡◌, ◌⊎◌, refl, subst, ap, ap₂, Bool, ◌||◌, Option, none, some, Result, ok, err, suc, zero,
  Bool-cases, inl, inr,
}
use kube_rsync_machine.Common.Steps.{Steps, return_value, after_call}
use kube_rsync_machine.Common.Text.{is_empty, str_eq}
use kube_rsync_machine.Controller.Clock.{Time}
use kube_rsync_machine.Controller.Refs.{NamespacedName}
use kube_rsync_machine.Controller.Guard.{
  Lease, JobObject, ApiError, not_found, already_exists, conflict, other_error, Client, GuardError,
  GuardOutcome, acquired, blocked_by, steal_lease_failed, update_lease_failed,
  backup_run_guard_holder, claim_target_guard_lease, new_lease, holder_of,
}
use kube_rsync_machine.Controller.Guard.Acquire.{
  active_guard_holder, lease_created, lease_updated, claim_lease, past_holder, lease_read, attempt,
  go_on, attempts, acquire_target_guard, cancel_backup_job_for_replacement,
}
use kube_rsync_machine.Controller.Guard.Free.{
  IsOptimistic, IsBegun, first_attempt, next_attempt, IsFree, no_lease, own_lease, idle_holder,
  replaced_holder, IsTaken,
}

module _ {W : Type 0} (client : Client W) (ref target : NamespacedName) (job : JobObject)
    (replace : Bool) (stored : W → Option Lease) where
  -- One attempt has taken the guard.
  abbrev Takes : W → W → Type 0
  Takes begun w' =
      (at_write : W) × IsFree client ref target job replace stored begun at_write
      × (lease : Lease) × (stored w' ≡ some lease)
      × (lease.holder_identity ≡ some (backup_run_guard_holder job))

  lease_created_acquired :
      (r : Result ApiError (Unit {0})) (w w' : W)
      → lease_created client r w ≡ (w', ok (some acquired))
      → (r ≡ ok tt) × (w ≡ w')
  lease_created_acquired (ok done) w w' h = (refl, ap (λ p. p.0) h)
  lease_created_acquired (err not_found) w w' h = absurd (cc)
  lease_created_acquired (err already_exists) w w' h = absurd (cc)
  lease_created_acquired (err conflict) w w' h = absurd (cc)
  lease_created_acquired (err other_error) w w' h = absurd (cc)

  lease_updated_acquired :
      (wrap : ApiError → GuardError) (r : Result ApiError (Unit {0})) (w w' : W)
      → lease_updated client wrap r w ≡ (w', ok (some acquired))
      → (r ≡ ok tt) × (w ≡ w')
  lease_updated_acquired wrap (ok done) w w' h = (refl, ap (λ p. p.0) h)
  lease_updated_acquired wrap (err not_found) w w' h = absurd (cc)
  lease_updated_acquired wrap (err already_exists) w w' h = absurd (cc)
  lease_updated_acquired wrap (err conflict) w w' h = absurd (cc)
  lease_updated_acquired wrap (err other_error) w w' h = absurd (cc)

  -- The update that takes the guard over a lease that has been read.
  claim_lease_acquired :
      IsOptimistic client ref stored
      → (wrap : ApiError → GuardError) (now : Time) (lease : Lease) (begun w w' : W)
      → (client.get_lease ref begun).1 ≡ ok lease
      → (stored w ≡ some lease → IsFree client ref target job replace stored begun w)
      → claim_lease client ref target job replace wrap now (holder_of lease.holder_identity) lease w
        ≡ (w', ok (some acquired))
      → Takes begun w'
  unfolding claim_lease claim_target_guard_lease
  claim_lease_acquired laws wrap now lease begun w w' got free h =
      let claimed =
        claim_target_guard_lease lease job target (backup_run_guard_holder job) now
          (holder_of lease.holder_identity) in
      let (w0, read, namespace, name) = laws.get_ok begun lease got in
      let (updated, same) =
        lease_updated_acquired wrap (client.update_lease claimed w).1
          (client.update_lease claimed w).0 w' h in
      let (there, lease', stored', held) =
        laws.update_ok w claimed lease w0 read namespace name refl updated in
      (w, free there, lease', subst (λ v. stored v ≡ some lease') same stored', held)

  canceled_acquired :
      IsOptimistic client ref stored
      → (now : Time) (lease : Lease) (begun w w' : W) (r : Result GuardError (Unit {0}))
      → (client.get_lease ref begun).1 ≡ ok lease
      → (r ≡ ok tt → stored w ≡ some lease → IsFree client ref target job replace stored begun w)
      → after_call
          (λ done.
            claim_lease client ref target job replace steal_lease_failed now
              (holder_of lease.holder_identity)
              lease)
          r
          w
        ≡ (w', ok (some acquired))
      → Takes begun w'
  canceled_acquired laws now lease begun w w' (ok done) got free h =
      claim_lease_acquired laws steal_lease_failed now lease begun w w' got (free refl) h
  canceled_acquired laws now lease begun w w' (err e) got free h = absurd (cc)

  blocked_not_acquired :
      (blocking : JobObject) (begun w w' : W)
      → return_value {E = GuardError} (some (blocked_by blocking)) w ≡ (w', ok (some acquired))
      → Takes begun w'
  blocked_not_acquired blocking begun w w' h = absurd (cc)

  past_holder_acquired :
      IsOptimistic client ref stored
      → (now : Time) (lease : Lease) (found : Option JobObject) (begun w w' : W)
      → (client.get_lease ref begun).1 ≡ ok lease
      → active_guard_holder client
          (holder_of lease.holder_identity)
          target
          (client.get_lease ref begun).0
        ≡ (w, ok found)
      → past_holder client ref target job replace now
          (holder_of lease.holder_identity)
          lease
          found
          w
        ≡ (w', ok (some acquired))
      → Takes begun w'
  unfolding past_holder
  past_holder_acquired laws now lease none begun w w' got idle h =
      claim_lease_acquired laws steal_lease_failed now lease begun w w' got
        (λ there. idle_holder lease got idle there) h
  past_holder_acquired laws now lease (some blocking) begun w w' got active h =
      elim (Bool-cases replace) [
        | inl asked ↦
            let cancel = cancel_backup_job_for_replacement client blocking job w in
            canceled_acquired laws now lease begun cancel.0 w' cancel.1 got
              (λ done there.
                replaced_holder lease w blocking got active asked (ap (λ r. (cancel.0, r)) done)
                  there)
              (rw asked at h)
        | inr kept ↦ (blocked_not_acquired blocking begun w w' (rw kept at h))
      ]

  looked_up_acquired :
      IsOptimistic client ref stored
      → (now : Time) (lease : Lease) (begun w w' : W) (r : Result GuardError (Option JobObject))
      → (client.get_lease ref begun).1 ≡ ok lease
      → active_guard_holder client
          (holder_of lease.holder_identity)
          target
          (client.get_lease ref begun).0
        ≡ (w, r)
      → after_call
          (past_holder client ref target job replace now (holder_of lease.holder_identity) lease)
          r
          w
        ≡ (w', ok (some acquired))
      → Takes begun w'
  looked_up_acquired laws now lease begun w w' (ok found) got looked h =
      past_holder_acquired laws now lease found begun w w' got looked h
  looked_up_acquired laws now lease begun w w' (err e) got looked h = absurd (cc)

  lease_read_acquired :
      IsOptimistic client ref stored
      → (now : Time) (r : Result ApiError Lease) (begun w' : W) → (client.get_lease ref begun).1 ≡ r
      → lease_read client ref target job replace now r (client.get_lease ref begun).0
        ≡ (w', ok (some acquired))
      → Takes begun w'
  unfolding new_lease lease_read
  lease_read_acquired laws now (err not_found) begun w' got h =
      let w = (client.get_lease ref begun).0 in
      let fresh = new_lease ref job target (backup_run_guard_holder job) now in
      let (created, same) =
        lease_created_acquired (client.create_lease fresh w).1 (client.create_lease fresh w).0 w'
          h in
      let (none_there, lease', stored', held) = laws.create_ok w fresh refl refl created in
      (
        w,
        no_lease got refl none_there,
        lease',
        subst (λ v. stored v ≡ some lease') same stored',
        held,
      )
  lease_read_acquired laws now (err already_exists) begun w' got h = absurd (cc)
  lease_read_acquired laws now (err conflict) begun w' got h = absurd (cc)
  lease_read_acquired laws now (err other_error) begun w' got h = absurd (cc)
  lease_read_acquired laws now (ok lease) begun w' got h =
      let w = (client.get_lease ref begun).0 in
      let existing = holder_of lease.holder_identity in
      elim (Bool-cases (is_empty existing || str_eq existing (backup_run_guard_holder job))) [
        | inl own ↦
            claim_lease_acquired laws update_lease_failed now lease begun w w' got
              (λ there. own_lease lease got refl there own) (rw own at h)
        | inr other ↦
            let looked = active_guard_holder client existing target w in
            looked_up_acquired laws now lease begun looked.0 w' looked.1 got refl (rw other at h)
      ]

  go_on_acquired :
      (rest : Steps W GuardError GuardOutcome) (r : Result GuardError (Option GuardOutcome))
      (w w' : W)
      → after_call (go_on client ref target job replace rest) r w ≡ (w', ok acquired)
      → (r ≡ ok (some acquired)) × (w ≡ w') ⊎ ((r ≡ ok none) × (rest w ≡ (w', ok acquired)))
  go_on_acquired rest (ok none) w w' h = inr (refl, h)
  go_on_acquired rest (ok (some acquired)) w w' h = inl (refl, ap (λ p. p.0) h)
  go_on_acquired rest (ok (some (blocked_by other))) w w' h = absurd (cc)
  go_on_acquired rest (err e) w w' h = absurd (cc)

  attempts_acquired :
      IsOptimistic client ref stored
      → (n : ℕ) (w begun w' : W) → IsBegun client ref target job replace stored w begun
      → attempts client ref target job replace n begun ≡ (w', ok acquired)
      → IsTaken client ref target job replace stored w w'
  unfolding attempts attempt
  attempts_acquired laws zero w begun w' b h = absurd (cc)
  attempts_acquired laws (suc n) w begun w' b h =
      let once = attempt client ref target job replace begun in
      elim (go_on_acquired (attempts client ref target job replace n) once.1 once.0 w' h) [
        | inl (done, same) ↦
            let (at_write, free, lease, there, held) =
              lease_read_acquired laws (client.now begun) (client.get_lease ref begun).1 begun w'
                refl (ap₂ (λ x y. (x, y)) same done) in
            record {
              begun = begun;
              has_begun = b;
              at_write = at_write;
              was_free = free;
              lease = lease;
              now_stored = there;
              now_held = held;
            }
        | inr (on, later) ↦ attempts_acquired laws n w once.0 w' (next_attempt b on) later
      ]

  -- Under optimistic concurrency, a call that acquires the guard ends with the lease naming the run.
  -- When it was written, the lease was as an attempt of the call has read it: missing, or held by
  -- nobody or by the run itself, or held by a run that this attempt has looked up after the reading
  -- and found not to be active on the machine, or, only if the call was asked to replace, found active
  -- and then canceled.
  pub acquire_target_guard-IsTaken :
      IsOptimistic client ref stored
      → (w w' : W) → acquire_target_guard client ref target job replace w ≡ (w', ok acquired)
      → IsTaken client ref target job replace stored w w'
  unfolding acquire_target_guard
  acquire_target_guard-IsTaken laws w w' h = attempts_acquired laws 3 w w w' first_attempt h
