-- ===== src/Dataplane/Lock.antt =====
-- internal/dataplane/snapshot.go: the lock file `.krm-run.lock` of a target, taken by
-- `AcquireTargetLock` and given back by `Release`. The state is the file's contents, if it exists.
pub mod Owner
pub mod Exclusion
use kube_rsync_machine.Common.{
  ℕ, ◌≡◌, Bool, true, false, List, [], ◌∷◌, ◌++◌, Option, none, some, Result, ok, err,
  if◌then◌else◌, any, ◌||◌,
}
use kube_rsync_machine.Common.Text.{GoString, codes, str_eq, split}
use kube_rsync_machine.Dataplane.Paths.{validate_run_id, RunIdError}

-- Which of the system calls of one operation fail, other than for `O_EXCL` on a file that exists and
-- for a file that is missing. `partial` is what a failed write leaves in the file.
pub record Io : Type 0 where
  pub abs_fails : Bool
  pub mkdir_fails : Bool
  pub open_fails : Bool
  pub read_fails : Bool
  pub write_fails : Bool
  pub remove_fails : Bool
  pub partial : GoString

-- What the lock file says besides the run id.
pub record Stamp : Type 0 where
  pub created_at : GoString
  pub hostname : GoString
  pub pid : GoString

pub data LockError : Type 0 where
  bad_run_id : RunIdError → LockError
  target_is_locked no_longer_owned io_error : LockError

-- The contents of `.krm-run.lock`.
abbrev pub LockFile : Type 0
LockFile = Option GoString

-- `fmt.Fprintf(file, "runID=%s\ncreatedAt=%s\nhostname=%s\npid=%d\n", ...)`
unfoldable pub lock_data : GoString → Stamp → GoString
lock_data run_id stamp =
    (codes "runID=" ++ run_id)
    ++ b'\n'
      ∷ ((codes "createdAt=" ++ stamp.created_at)
          ++ b'\n'
            ∷ ((codes "hostname=" ++ stamp.hostname)
                ++ b'\n' ∷ ((codes "pid=" ++ stamp.pid) ++ b'\n' ∷ [])))

unfoldable pub lock_data_matches_run_id : GoString → GoString → Bool
lock_data_matches_run_id contents run_id =
    any (λ line. str_eq line (codes "runID=" ++ run_id)) (split b'\n' contents)

-- `os.Remove(path)` after a failed write, whose error is dropped.
pub after_failed_write : Io → LockFile
after_failed_write io = if io.remove_fails then some io.partial else none

-- `os.OpenFile(path, O_WRONLY|O_CREATE|O_EXCL)` and what follows it.
pub create_lock : Io → Stamp → GoString → LockFile → LockFile × Result LockError GoString
unfolding after_failed_write
create_lock io stamp run_id (some contents) =
    (some contents, err (if io.open_fails || io.read_fails then io_error else target_is_locked))
create_lock io stamp run_id none =
    if io.open_fails
    then (none, err io_error)
    else if io.write_fails
    then (after_failed_write io, err io_error)
    else (some (lock_data run_id stamp), ok run_id)

-- `AcquireTargetLock`: the new file, and the run id that the returned lock holds.
unfoldable pub acquire_target_lock :
    Io → Stamp → GoString → LockFile → LockFile × Result LockError GoString
unfolding create_lock
acquire_target_lock io stamp run_id file = elim (validate_run_id run_id) [
  | err e ↦ (file, err (bad_run_id e))
  | ok _ ↦
      if io.abs_fails || io.mkdir_fails
      then (file, err io_error)
      else create_lock io stamp run_id file
]

-- `(*TargetLock).Release` of the lock that holds `run_id`; `none` is a nil receiver.
unfoldable pub release : Io → Option GoString → LockFile → LockFile × Result LockError (Unit {0})
release io none file = (file, ok tt)
release io (some run_id) none = (none, if io.read_fails then err io_error else ok tt)
release io (some run_id) (some contents) =
    if io.read_fails
    then (some contents, err io_error)
    else if lock_data_matches_run_id contents run_id
    then (if io.remove_fails then (some contents, err io_error) else (none, ok tt))
    else (some contents, err no_longer_owned)
