-- ===== src/Tests/Guard.antt =====
-- The guard of a machine on a small cluster.
use kube_rsync_machine.Common.{
  ◌≡◌, ◌↔◌, refl, sym, ap, ◌∙◌, false, [], ◌∷◌, Option, none, some, Result, ok, err, if◌then◌else◌,
  Bool-cases, inl, inr, arith,
}
use kube_rsync_machine.Common.Text.{GoString, codes, contains, str_eq, str_eq_iff, split}
use kube_rsync_machine.Tests.Runs.{job}
use kube_rsync_machine.Controller.Refs.{NamespacedName, name_string}
use kube_rsync_machine.Controller.Guard.{
  Lease, JobObject, ApiError, not_found, already_exists, conflict, Client, acquired,
  claim_target_guard_lease, backup_run_guard_holder, parse_backup_job_guard_holder,
}
use kube_rsync_machine.Controller.Guard.Acquire.{
  acquire_target_guard, attempts, attempt, lease_read, past_holder, claim_lease,
  active_guard_holder, holder_read,
}
use kube_rsync_machine.Controller.Guard.Free.{IsOptimistic, IsTaken}
use kube_rsync_machine.Controller.Guard.Exclusion.{acquire_target_guard-IsTaken}
use kube_rsync_machine.Controller.Guard.Holder.{parse_backup_job_guard_holder_iff}

-- The cluster: the holder of the lease, if there is a lease.
abbrev Small : Type 0
Small = Option (Option GoString)

abbrev version_text : Option GoString → GoString
version_text none = []
version_text (some holder) = 1 ∷ holder

abbrev guard_lease : Option GoString → Lease
guard_lease holder = record {
  namespace = codes "krm";
  name = codes "guard";
  resource_version = version_text holder;
  labels = [];
  annotations = [];
  holder_identity = holder;
  lease_duration_seconds = none;
  acquire_time = none;
  renew_time = none;
  lease_transitions = none;
}

abbrev small_stored : Small → Option Lease
small_stored none = none
small_stored (some holder) = some (guard_lease holder)

abbrev small_get : Small → Small × Result ApiError Lease
small_get none = (none, err not_found)
small_get (some holder) = (some holder, ok (guard_lease holder))

abbrev small_create : Lease → Small → Small × Result ApiError (Unit {0})
small_create lease none = (some lease.holder_identity, ok tt)
small_create lease (some holder) = (some holder, err already_exists)

abbrev small_update : Lease → Small → Small × Result ApiError (Unit {0})
small_update lease none = (none, err not_found)
small_update lease (some holder) =
    if str_eq lease.resource_version (version_text holder)
    then (some lease.holder_identity, ok tt)
    else (some holder, err conflict)

abbrev small_client : Client Small
small_client = record {
  now = λ w. 12;
  get_lease = λ ref. small_get;
  create_lease = small_create;
  update_lease = small_update;
  delete_lease = λ lease w. (none, ok tt);
  list_leases = λ labels w. (w, ok []);
  get_job = λ ref w. (w, err not_found);
  get_machine = λ ref w. (w, ok tt);
  update_job_status = λ job w. (w, ok tt);
  cleanup_run_resources = λ job w. (w, ok tt);
}

abbrev guard_ref : NamespacedName
guard_ref = record { namespace = codes "krm"; name = codes "guard" }

version_text_injective : (a b : Option GoString) → version_text a ≡ version_text b → a ≡ b
version_text_injective none none e = refl
version_text_injective none (some h) e = cc
version_text_injective (some h) none e = cc
version_text_injective (some h) (some k) e = cc

small_got :
    (w : Small) (lease : Lease)
    → (small_get w).1 ≡ ok lease
    → (w0 : Small) × (small_stored w0 ≡ some lease)
      × (lease.namespace ≡ guard_ref.namespace)
      × (lease.name ≡ guard_ref.name)
small_got none lease h = absurd (cc)
small_got (some holder) lease h =
    let same : guard_lease holder ≡ lease = cc in
    (some holder, ap some same, sym (ap (λ l. l.namespace) same), sym (ap (λ l. l.name) same))

small_created :
    (w : Small) (lease : Lease)
    → (small_create lease w).1 ≡ ok tt
    → (small_stored w ≡ none)
      × (now : Lease) × (small_stored (small_create lease w).0 ≡ some now)
      × (now.holder_identity ≡ lease.holder_identity)
small_created none lease h = (refl, guard_lease lease.holder_identity, refl, refl)
small_created (some holder) lease h = cc

abbrev version_read : Option Lease → GoString
version_read none = []
version_read (some lease) = lease.resource_version

small_updated :
    (w : Small) (lease old : Lease) (w0 : Small)
    → small_stored w0 ≡ some old
    → lease.resource_version ≡ old.resource_version
    → (small_update lease w).1 ≡ ok tt
    → (small_stored w ≡ some old)
      × (now : Lease) × (small_stored (small_update lease w).0 ≡ some now)
      × (now.holder_identity ≡ lease.holder_identity)
small_updated none lease old w0 s v h = absurd (cc)
small_updated (some holder) lease old none s v h = absurd (cc)
small_updated (some holder) lease old (some read) s v h =
    elim (Bool-cases (str_eq lease.resource_version (version_text holder))) [
      | inl e ↦
          let version : old.resource_version ≡ version_text read = sym (ap version_read s) in
          let same : holder ≡ read =
            version_text_injective holder read
              (sym ((str_eq_iff lease.resource_version (version_text holder)).0 e) ∙ v ∙ version) in
          rw e (rw same s, guard_lease lease.holder_identity, refl, refl)
      | inr e ↦ absurd (ground arith)
    ]

small-IsOptimistic : IsOptimistic small_client guard_ref small_stored
small-IsOptimistic = record {
  get_ok = small_got;
  create_ok = λ w lease namespace name. small_created w lease;
  update_ok = λ w lease old w0 s namespace name. small_updated w lease old w0 s;
}

abbrev nightly_job : JobObject
nightly_job = record { run = job; machine_ref = record { namespace = []; name = codes "nas" } }

abbrev nas : NamespacedName
nas = record { namespace = codes "apps"; name = codes "nas" }

-- A guard that a missing run holds is taken over.
taken_over :
    acquire_target_guard small_client guard_ref nas nightly_job false
      (some (some (codes "apps/old")))
    ≡ (some (some (codes "apps/nightly")), ok acquired)
unfolding acquire_target_guard attempts attempt lease_read past_holder claim_lease
    active_guard_holder claim_target_guard_lease backup_run_guard_holder name_string
    parse_backup_job_guard_holder str_eq split holder_read
taken_over = refl

acquire_target_guard-IsTaken_example :
    IsTaken small_client guard_ref nas nightly_job false small_stored
      (some (some (codes "apps/old")))
      (some (some (codes "apps/nightly")))
acquire_target_guard-IsTaken_example =
    acquire_target_guard-IsTaken small_client guard_ref nas nightly_job false small_stored
      small-IsOptimistic (some (some (codes "apps/old"))) (some (some (codes "apps/nightly")))
      taken_over

parse_backup_job_guard_holder_iff_example :
    (parse_backup_job_guard_holder (codes "apps/nas") ≡ some nas)
    ↔ (codes "apps/nas" ≡ name_string nas)
unfolding contains
parse_backup_job_guard_holder_iff_example =
    parse_backup_job_guard_holder_iff (codes "apps/nas") nas refl refl refl refl
