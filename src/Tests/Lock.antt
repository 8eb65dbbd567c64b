-- ===== src/Tests/Lock.antt =====
-- The lock file of internal/dataplane/snapshot.go at concrete inputs.
use kube_rsync_machine.Common.{◌≡◌, ◌↔◌, refl, true, false, List, [], ◌∷◌, none, some, ok, All}
use kube_rsync_machine.Common.Text.{GoString, codes, contains, str_eq, str_ne}
use kube_rsync_machine.Dataplane.Lock.{
  Io, Stamp, lock_data, lock_data_matches_run_id, acquire_target_lock, release,
}
use kube_rsync_machine.Dataplane.Lock.Owner.{IsStamp, lock_data_matches_run_id_iff}
use kube_rsync_machine.Dataplane.Lock.Exclusion.{
  Call, acquires, releases, after_calls, IsForeign, IsQuiet, lock_is_exclusive, lock_cycle,
}
use kube_rsync_machine.Tests.Paths.{run_1, run_1-IsRunId}

abbrev run_2 : GoString
run_2 = codes "run-2"

abbrev quiet : Io
quiet = record {
  abs_fails = false;
  mkdir_fails = false;
  open_fails = false;
  read_fails = false;
  write_fails = false;
  remove_fails = false;
  partial = [];
}

quiet-IsQuiet : IsQuiet quiet
quiet-IsQuiet = record {
  abs_works = refl;
  mkdir_works = refl;
  open_works = refl;
  read_works = refl;
  write_works = refl;
  remove_works = refl;
}

abbrev stamp : Stamp
stamp = record {
  created_at = codes "2024-01-02T03:04:05Z";
  hostname = codes "pod-a";
  pid = codes "17";
}

stamp-IsStamp : IsStamp stamp
unfolding contains
stamp-IsStamp = record { created_at_line = refl; hostname_line = refl; pid_line = refl }

-- Another run tries to take the lock, then to release it.
abbrev others : List Call
others = acquires quiet stamp run_2 ∷ releases quiet (some run_2) ∷ []

others-IsForeign : All (IsForeign run_1) others
unfolding str_eq
others-IsForeign = (tt, (str_ne run_1 run_2 refl, tt))

lock_data_matches_run_id_iff_example :
    (lock_data_matches_run_id (lock_data run_1 stamp) run_2 ≡ true) ↔ (run_1 ≡ run_2)
lock_data_matches_run_id_iff_example =
    lock_data_matches_run_id_iff run_1 run_2 stamp run_1-IsRunId stamp-IsStamp

lock_is_exclusive_example :
    after_calls others (some (lock_data run_1 stamp)) ≡ some (lock_data run_1 stamp)
lock_is_exclusive_example =
    lock_is_exclusive run_1 stamp others run_1-IsRunId stamp-IsStamp others-IsForeign

lock_cycle_example :
    (acquire_target_lock quiet stamp run_1 none ≡ (some (lock_data run_1 stamp), ok run_1))
    × (release quiet (some run_1) (after_calls others (some (lock_data run_1 stamp)))
        ≡ (none, ok tt))
lock_cycle_example =
    lock_cycle run_1 stamp quiet quiet others run_1-IsRunId stamp-IsStamp quiet-IsQuiet
      quiet-IsQuiet others-IsForeign
