-- ===== src/Controller/Guard/Holder.antt =====
-- `backupRunGuardHolder` and `parseBackupJobGuardHolder` of internal/controller/reconcilers.go.
use kube_rsync_machine.Common.{
  ◌≡◌, ◌↔◌, refl, sym, ap, ◌∙◌, false, ◌||◌, List, [], ◌∷◌, some, arith, Bool-cases, inl, inr,
}
use kube_rsync_machine.Common.Text.{GoString, is_empty, split, join}
use kube_rsync_machine.Common.Text.Split.{Lacks, split_at_sep, split_lacking, join-split}
use kube_rsync_machine.Controller.Refs.{NamespacedName, name_string}
use kube_rsync_machine.Controller.Guard.{parse_backup_job_guard_holder, two_parts}

joined_parts :
    (parts : List GoString) (ref : NamespacedName)
    → two_parts parts ≡ some ref
    → join b'/' parts ≡ name_string ref
unfolding join name_string
joined_parts [] ref h = cc
joined_parts (a ∷ []) ref h = cc
joined_parts (a ∷ b ∷ []) ref h = elim (Bool-cases (is_empty a || is_empty b)) [
  | inl e ↦ absurd (ground arith)
  | inr e ↦ ap name_string (ground arith)
]
joined_parts (a ∷ b ∷ c ∷ parts) ref h = cc

split-name_string :
    (ref : NamespacedName)
    → Lacks b'/' ref.namespace
    → Lacks b'/' ref.name
    → split b'/' (name_string ref) ≡ ref.namespace ∷ ref.name ∷ []
unfolding name_string
split-name_string ref s t =
    cc (split_at_sep b'/' ref.namespace ref.name s, split_lacking b'/' ref.name t)

-- A holder is read as a run exactly if it is what the code writes for the run, where the run's
-- namespace and name are not empty and hold no '/'.
pub parse_backup_job_guard_holder_iff :
    (holder : GoString) (ref : NamespacedName)
    → is_empty ref.namespace ≡ false
    → is_empty ref.name ≡ false
    → Lacks b'/' ref.namespace
    → Lacks b'/' ref.name
    → (parse_backup_job_guard_holder holder ≡ some ref) ↔ (holder ≡ name_string ref)
unfolding parse_backup_job_guard_holder
parse_backup_job_guard_holder_iff holder ref n m s t = (
  λ h. sym (join-split b'/' holder) ∙ joined_parts (split b'/' holder) ref h,
  λ h.
      ap (λ x. two_parts (split b'/' x)) h
      ∙ ap two_parts (split-name_string ref s t)
      ∙ rw (n, m) refl,
)
