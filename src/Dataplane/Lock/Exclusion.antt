-- ===== src/Dataplane/Lock/Exclusion.antt =====
-- Histories of `AcquireTargetLock` and `Release` of internal/dataplane/snapshot.go by any processes.
use kube_rsync_machine.Common.{
  ◌≡◌, ◌≢◌, refl, false, List, [], ◌∷◌, arith, All, Option, none, some, ok,
}
use kube_rsync_machine.Common.Text.{GoString}
use kube_rsync_machine.Dataplane.Paths.RunId.{IsRunId, validate_run_id_iff}
use kube_rsync_machine.Dataplane.Lock.{Io, Stamp, LockFile, lock_data, acquire_target_lock, release}
use kube_rsync_machine.Dataplane.Lock.Owner.{IsStamp, lock_data_matches_run_id_iff}

pub data Call : Type 0 where
  acquires : Io → Stamp → GoString → Call
  releases : Io → Option GoString → Call

abbrev pub after_call : Call → LockFile → LockFile
after_call (acquires io stamp run_id) file = (acquire_target_lock io stamp run_id file).0
after_call (releases io lock) file = (release io lock file).0

abbrev pub after_calls : List Call → LockFile → LockFile
after_calls [] file = file
after_calls (call ∷ calls) file = after_calls calls (after_call call file)

-- The call is no release of the lock of `run_id`.
abbrev pub IsForeign : GoString → Call → Type 0
IsForeign run_id (acquires io stamp other) = Unit
IsForeign run_id (releases io none) = Unit
IsForeign run_id (releases io (some other)) = run_id ≢ other

acquire_held_file :
    (io : Io) (stamp : Stamp) (run_id contents : GoString)
    → (acquire_target_lock io stamp run_id (some contents)).0 ≡ some contents
unfolding acquire_target_lock
acquire_held_file io stamp run_id contents = ground arith

acquire_held_error :
    (io : Io) (stamp : Stamp) (run_id contents lock : GoString)
    → (acquire_target_lock io stamp run_id (some contents)).1 ≢ ok lock
unfolding acquire_target_lock
acquire_held_error io stamp run_id contents lock h = ground arith

-- While the lock file exists, whatever it says, every acquisition leaves it alone and returns an
-- error.
pub acquire_target_lock_held :
    (io : Io) (stamp : Stamp) (run_id contents : GoString)
    → ((acquire_target_lock io stamp run_id (some contents)).0 ≡ some contents)
      × ((lock : GoString) → (acquire_target_lock io stamp run_id (some contents)).1 ≢ ok lock)
acquire_target_lock_held io stamp run_id contents =
    (acquire_held_file io stamp run_id contents, acquire_held_error io stamp run_id contents)

release_foreign :
    (run_id : GoString) (stamp : Stamp) (io : Io) (lock : Option GoString)
    → IsRunId run_id
    → IsStamp stamp
    → IsForeign run_id (releases io lock)
    → (release io lock (some (lock_data run_id stamp))).0 ≡ some (lock_data run_id stamp)
unfolding release
release_foreign run_id stamp io none r s f = refl
release_foreign run_id stamp io (some other) r s f =
    ground (arith, lock_data_matches_run_id_iff run_id other stamp r s)

foreign_call :
    (run_id : GoString) (stamp : Stamp) (call : Call)
    → IsRunId run_id
    → IsStamp stamp
    → IsForeign run_id call
    → after_call call (some (lock_data run_id stamp)) ≡ some (lock_data run_id stamp)
foreign_call run_id stamp (acquires io other_stamp other) r s f =
    acquire_held_file io other_stamp other (lock_data run_id stamp)
foreign_call run_id stamp (releases io lock) r s f = release_foreign run_id stamp io lock r s f

-- Once a run holds the target, it holds it until its own release: no history of acquisitions by
-- any runs and releases by other runs changes the lock file, whichever system calls fail.
pub lock_is_exclusive :
    (run_id : GoString) (stamp : Stamp) (calls : List Call)
    → IsRunId run_id
    → IsStamp stamp
    → All (IsForeign run_id) calls
    → after_calls calls (some (lock_data run_id stamp)) ≡ some (lock_data run_id stamp)
lock_is_exclusive run_id stamp [] r s f = refl
lock_is_exclusive run_id stamp (call ∷ calls) r s f =
    rw (foreign_call run_id stamp call r s f.0) (lock_is_exclusive run_id stamp calls r s f.1)

-- No system call fails.
pub record IsQuiet (io : Io) : Type 0 where
  pub abs_works : io.abs_fails ≡ false
  pub mkdir_works : io.mkdir_fails ≡ false
  pub open_works : io.open_fails ≡ false
  pub read_works : io.read_fails ≡ false
  pub write_works : io.write_fails ≡ false
  pub remove_works : io.remove_fails ≡ false

-- A valid run takes a free target, whatever others try meanwhile it can give it back, and then the
-- target is free again.
pub lock_cycle :
    (run_id : GoString) (stamp : Stamp) (io io' : Io) (calls : List Call)
    → IsRunId run_id
    → IsStamp stamp
    → IsQuiet io
    → IsQuiet io'
    → All (IsForeign run_id) calls
    → (acquire_target_lock io stamp run_id none ≡ (some (lock_data run_id stamp), ok run_id))
      × (release io' (some run_id) (after_calls calls (some (lock_data run_id stamp)))
          ≡ (none, ok tt))
unfolding acquire_target_lock release
lock_cycle run_id stamp io io' calls r s q q' f = (
  ground (
    arith,
    (validate_run_id_iff run_id).1 r,
    q.abs_works,
    q.mkdir_works,
    q.open_works,
    q.write_works,
  ),
  rw (lock_is_exclusive run_id stamp calls r s f) (
      ground (
        arith,
        lock_data_matches_run_id_iff run_id run_id stamp r s,
        q'.read_works,
        q'.remove_works,
      )),
)
