-- ===== src/Controller/Guard/Free.antt =====
-- When a run may take the guard of a machine: for `acquireTargetGuard` of
-- internal/controller/reconcilers.go.
use kube_rsync_machine.Common.{◌≡◌, Bool, true, ◌||◌, Option, none, some, ok, err}
use kube_rsync_machine.Common.Text.{is_empty, str_eq}
use kube_rsync_machine.Controller.Refs.{NamespacedName}
use kube_rsync_machine.Controller.Guard.{
  Lease, JobObject, not_found, Client, backup_run_guard_holder, holder_of,
}
use kube_rsync_machine.Controller.Guard.Acquire.{
  active_guard_holder, attempt, cancel_backup_job_for_replacement,
}

-- The optimistic concurrency of Kubernetes, for the lease `ref`, of which `stored` is the present
-- state: what is read is a state of the lease, if not the present one; it is created only where there is none, and is updated
-- only if it has the resource version that the update names; a resource version belongs to one
-- state of the lease.
pub record IsOptimistic {W : Type 0} (client : Client W) (ref : NamespacedName)
    (stored : W → Option Lease) : Type 0 where
  pub get_ok :
      (w : W) (lease : Lease)
      → (client.get_lease ref w).1 ≡ ok lease
      → (w0 : W) × (stored w0 ≡ some lease)
        × (lease.namespace ≡ ref.namespace)
        × (lease.name ≡ ref.name)
  pub create_ok :
      (w : W) (lease : Lease)
      → lease.namespace ≡ ref.namespace
      → lease.name ≡ ref.name
      → (client.create_lease lease w).1 ≡ ok tt
      → (stored w ≡ none)
        × (now : Lease) × (stored (client.create_lease lease w).0 ≡ some now)
        × (now.holder_identity ≡ lease.holder_identity)
  pub update_ok :
      (w : W) (lease old : Lease) (w0 : W)
      → stored w0 ≡ some old
      → lease.namespace ≡ ref.namespace
      → lease.name ≡ ref.name
      → lease.resource_version ≡ old.resource_version
      → (client.update_lease lease w).1 ≡ ok tt
      → (stored w ≡ some old)
        × (now : Lease) × (stored (client.update_lease lease w).0 ≡ some now)
        × (now.holder_identity ≡ lease.holder_identity)

module _ {W : Type 0} (client : Client W) (ref target : NamespacedName) (job : JobObject)
    (replace : Bool) (stored : W → Option Lease) where
  -- The states in which the attempts of a call begin: the first, and after an attempt that ends in
  -- `continue`.
  pub data IsBegun (w : W) : W → Type 0 where
    first_attempt : IsBegun w w
    next_attempt :
        {v : W}
        → IsBegun w v
        → (attempt client ref target job replace v).1 ≡ ok none
        → IsBegun w (attempt client ref target job replace v).0

  -- Why the run may take the guard: at the state `at_write`, in which it writes, the lease is still as
  -- the attempt that began at `begun` has read it. There is none; or nobody or the run itself holds it;
  -- or the attempt has then looked the holder up and found it not to be active, and writes next; or
  -- it has found the holder active, was asked to replace it, has canceled it, and writes next.
  pub data IsFree (begun at_write : W) : Type 0 where
    no_lease :
        (client.get_lease ref begun).1 ≡ err not_found
        → (client.get_lease ref begun).0 ≡ at_write
        → stored at_write ≡ none
        → IsFree begun at_write
    own_lease :
        (lease : Lease)
        → (client.get_lease ref begun).1 ≡ ok lease
        → (client.get_lease ref begun).0 ≡ at_write
        → stored at_write ≡ some lease
        → (is_empty (holder_of lease.holder_identity)
            || str_eq (holder_of lease.holder_identity) (backup_run_guard_holder job))
          ≡ true
        → IsFree begun at_write
    idle_holder :
        (lease : Lease)
        → (client.get_lease ref begun).1 ≡ ok lease
        → active_guard_holder client
            (holder_of lease.holder_identity)
            target
            (client.get_lease ref begun).0
          ≡ (at_write, ok none)
        → stored at_write ≡ some lease
        → IsFree begun at_write
    replaced_holder :
        (lease : Lease) (looked : W) (blocking : JobObject)
        → (client.get_lease ref begun).1 ≡ ok lease
        → active_guard_holder client
            (holder_of lease.holder_identity)
            target
            (client.get_lease ref begun).0
          ≡ (looked, ok (some blocking))
        → replace ≡ true
        → cancel_backup_job_for_replacement client blocking job looked ≡ (at_write, ok tt)
        → stored at_write ≡ some lease
        → IsFree begun at_write

  -- The run holds the guard, which was free when it was taken.
  pub record IsTaken (w w' : W) : Type 0 where
    pub begun : W
    pub has_begun : IsBegun w begun
    pub at_write : W
    pub was_free : IsFree begun at_write
    pub lease : Lease
    pub now_stored : stored w' ≡ some lease
    pub now_held : lease.holder_identity ≡ some (backup_run_guard_holder job)
