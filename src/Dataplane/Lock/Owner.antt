-- ===== src/Dataplane/Lock/Owner.antt =====
-- `lockDataMatchesRunID` of internal/dataplane/snapshot.go, on contents written by `AcquireTargetLock`.
use kube_rsync_machine.Common.{◌≡◌, ◌↔◌, refl, true, false, [], ◌∷◌, ◌++◌, any, arith}
use kube_rsync_machine.Common.Text.{GoString, codes, str_eq, str_eq_iff, contains, split}
use kube_rsync_machine.Common.Text.Split.{split_at_sep, Lacks}
use kube_rsync_machine.Common.Text.Prefix.{contains-append}
use kube_rsync_machine.Dataplane.Paths.RunId.{IsRunId}
use kube_rsync_machine.Dataplane.Lock.{Stamp, lock_data, lock_data_matches_run_id}

-- The host's facts are single lines.
pub record IsStamp (stamp : Stamp) : Type 0 where
  pub created_at_line : contains stamp.created_at b'\n' ≡ false
  pub hostname_line : contains stamp.hostname b'\n' ≡ false
  pub pid_line : contains stamp.pid b'\n' ≡ false

label_Lacks :
    (label value : GoString)
    → contains label b'\n' ≡ false
    → contains value b'\n' ≡ false
    → Lacks b'\n' (label ++ value)
label_Lacks label value h k = ground (arith, contains-append label value b'\n')

split-lock_data :
    (run_id : GoString) (stamp : Stamp)
    → IsRunId run_id
    → IsStamp stamp
    → split b'\n' (lock_data run_id stamp)
      ≡ (codes "runID=" ++ run_id)
        ∷ (codes "createdAt=" ++ stamp.created_at)
        ∷ (codes "hostname=" ++ stamp.hostname)
        ∷ (codes "pid=" ++ stamp.pid)
        ∷ []
        ∷ []
unfolding lock_data split contains
split-lock_data run_id stamp r s = rw (
  split_at_sep b'\n' (codes "runID=" ++ run_id) _
      (label_Lacks (codes "runID=") run_id refl r.no_newline),
  split_at_sep b'\n' (codes "createdAt=" ++ stamp.created_at) _
      (label_Lacks (codes "createdAt=") stamp.created_at refl s.created_at_line),
  split_at_sep b'\n' (codes "hostname=" ++ stamp.hostname) _
      (label_Lacks (codes "hostname=") stamp.hostname refl s.hostname_line),
  split_at_sep b'\n' (codes "pid=" ++ stamp.pid) _
      (label_Lacks (codes "pid=") stamp.pid refl s.pid_line),
)

-- Of the lines only the first can be the one that is looked for.
owner_line :
    (run_id other : GoString) (stamp : Stamp)
    → (any
          (λ line. str_eq line (codes "runID=" ++ other))
          ((codes "runID=" ++ run_id)
            ∷ (codes "createdAt=" ++ stamp.created_at)
            ∷ (codes "hostname=" ++ stamp.hostname)
            ∷ (codes "pid=" ++ stamp.pid)
            ∷ []
            ∷ [])
        ≡ true)
      ↔ (run_id ≡ other)
unfolding str_eq
owner_line run_id other stamp =
    (λ h. ground (arith, str_eq_iff run_id other), λ e. ground (arith, str_eq_iff run_id other))

-- The contents written for a run name that run as the owner, and no other.
pub lock_data_matches_run_id_iff :
    (run_id other : GoString) (stamp : Stamp)
    → IsRunId run_id
    → IsStamp stamp
    → (lock_data_matches_run_id (lock_data run_id stamp) other ≡ true) ↔ (run_id ≡ other)
unfolding lock_data_matches_run_id
lock_data_matches_run_id_iff run_id other stamp r s =
    rw (lock_data_matches_run_id, split-lock_data run_id stamp r s) (owner_line run_id other stamp)
