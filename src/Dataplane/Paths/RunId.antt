-- ===== src/Dataplane/Paths/RunId.antt =====
-- `validateRunID` of internal/dataplane/snapshot.go.
use kube_rsync_machine.Common.{◌≡◌, false, ok, arith, Result-cases, inl, inr, ◌↔◌}
use kube_rsync_machine.Common.Text.{GoString, str_eq_iff, str_eq_refl, contains}
use kube_rsync_machine.Dataplane.Paths.{normalize_relative_path, validate_run_id}
use kube_rsync_machine.Dataplane.Paths.Relative.{IsSegment}
use kube_rsync_machine.Dataplane.Paths.Destination.{normalized-IsSegment, normalize_segment}

-- The name of one directory entry, on one line and without '='.
pub record IsRunId (r : GoString) : Type 0 where
  pub segment : IsSegment r
  pub no_return : contains r b'\r' ≡ false
  pub no_newline : contains r b'\n' ≡ false
  pub no_equals : contains r b'=' ≡ false

validate_run_id_sound : (r : GoString) → validate_run_id r ≡ ok tt → IsRunId r
unfolding validate_run_id
validate_run_id_sound r h = elim (Result-cases (normalize_relative_path r)) [
  | inl (path, e) ↦
      let same : path ≡ r = ground (arith, str_eq_iff path r) in
      let fixed : normalize_relative_path r ≡ ok r = cc (e, same) in
      record {
        segment = normalized-IsSegment r r fixed (ground arith);
        no_return = ground arith;
        no_newline = ground arith;
        no_equals = ground arith;
      }
  | inr (error, e) ↦ absurd (ground arith)
]

validate_run_id_complete : (r : GoString) → IsRunId r → validate_run_id r ≡ ok tt
unfolding validate_run_id
validate_run_id_complete r v = ground (
  arith,
  normalize_segment r v.segment,
  str_eq_refl r,
  v.segment.nonempty,
  v.segment.one_segment,
  v.no_return,
  v.no_newline,
  v.no_equals,
)

-- A run id is accepted exactly when it is a single directory name (not empty, "." or "..", without
-- '/' and '\') that holds no '\r', '\n' or '='.
pub validate_run_id_iff : (r : GoString) → (validate_run_id r ≡ ok tt) ↔ IsRunId r
validate_run_id_iff r = (validate_run_id_sound r, validate_run_id_complete r)
