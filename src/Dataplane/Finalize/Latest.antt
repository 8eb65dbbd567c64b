-- ===== src/Dataplane/Finalize/Latest.antt =====
-- `replaceLatestSymlink` of internal/dataplane/snapshot.go.
use kube_rsync_machine.Common.{
  ◌≡◌, refl, ap, ◌∙◌, subst, append-nil, true, false, [], none, some, ok, Bool-cases, Result-cases,
  inl, inr, arith,
}
use kube_rsync_machine.Common.Maps.{lookup, lookup-insert, lookup-insert_ne}
use kube_rsync_machine.Common.Text.{GoString, str_eq, split}
use kube_rsync_machine.Dataplane.Paths.{slash, normalize_relative_path}
use kube_rsync_machine.Dataplane.Files.{
  FilePath, FilePath_eq, path_eq, Node, symlink, Files, System, is_under, is_directory, remove_all,
  walk, stat,
}
use kube_rsync_machine.Dataplane.Files.Laws.{lookup-remove_all}
use kube_rsync_machine.Dataplane.Files.Writes.{
  Written, try_remove_all, make_entry, unless_error, rename,
}
use kube_rsync_machine.Dataplane.Files.Moves.{
  is_under-append, lookup-move_tree_outside, lookup-move_tree_inside, remove_all_free, rename_ok,
  make_entry_ok, lookup-try_remove_all,
}
use kube_rsync_machine.Dataplane.Retention.{latest}
use kube_rsync_machine.Dataplane.Finalize.{
  temporary, swap_latest, replace_latest_symlink, ensure_inside, with_error,
}

-- The call has made `latest` a link to the target and has changed no other entry.
pub record IsReplaced (target : GoString) (files files' : Files) : Type 0 where
  pub linked : lookup latest files' ≡ some (symlink target)
  pub others :
      (q : FilePath)
      → is_under latest q ≡ false
      → is_under temporary q ≡ false
      → lookup q files' ≡ lookup q files

under_self : (p : FilePath) → is_under p p ≡ true
under_self p = subst (λ q. is_under p q ≡ true) (append-nil p) (is_under-append p [])

made_then_moved :
    (system : System) (target : GoString) (made : Written) (files' : Files)
    → unless_error made
        (λ files. rename system temporary latest (try_remove_all system latest files))
      ≡ (files', none)
    → (files : Files) × (made ≡ (files, none))
      × (rename system temporary latest (try_remove_all system latest files) ≡ (files', none))
made_then_moved system target (files, none) files' h = (files, refl, h)
made_then_moved system target (files, some e) files' h = absurd (cc)

swap_latest_ok :
    (system : System) (target : GoString) (files files' : Files)
    → swap_latest system target files ≡ (files', none)
    → IsReplaced target files files'
unfolding swap_latest is_under str_eq path_eq
swap_latest_ok system target files files' h =
    let cleared = try_remove_all system temporary files in
    let (made, e, renamed) =
      made_then_moved system target (make_entry system temporary (symlink target) cleared) files'
        h in
    let inserted = make_entry_ok system temporary (symlink target) cleared made e in
    let freed = try_remove_all system latest made in
    let (moved, _) = rename_ok system temporary latest freed files' renamed in
    record {
      linked =
          ap (lookup latest) moved
          ∙ lookup-move_tree_inside temporary latest [] (remove_all latest freed)
              (remove_all_free latest freed)
          ∙ lookup-remove_all latest temporary freed
          ∙ lookup-try_remove_all system latest temporary made refl
          ∙ ap (lookup temporary) inserted
          ∙ lookup-insert temporary temporary (symlink target) cleared;
      others = λ q h k.
          ap (lookup q) moved
          ∙ lookup-move_tree_outside temporary latest q (remove_all latest freed) k h
          ∙ (lookup-remove_all latest q freed ∙ rw h refl)
          ∙ lookup-try_remove_all system latest q made h
          ∙ ap (lookup q) inserted
          ∙ lookup-insert_ne temporary q (symlink target) cleared
              (λ e. cc (k, ap (is_under temporary) e, under_self temporary))
          ∙ lookup-try_remove_all system temporary q files k;
    }

with_error-none :
    (w : Written) (files' : Files) → with_error w ≡ (files', none) → w ≡ (files', none)
with_error-none (files, none) files' h = ap (λ p. (p.0, none)) h
with_error-none (files, some e) files' h = absurd (cc)

-- Whichever calls fail: if `latest` is replaced, its target is a directory, it is a link to that, and
-- no other entry has changed but `latest.tmp`.
pub replace_latest_symlink_ok :
    (system : System) (target : GoString) (files files' : Files)
    → replace_latest_symlink system target files ≡ (files', none)
    → (node : Node) × (stat system (walk [] (split slash target)) files ≡ ok node)
      × (is_directory node ≡ true)
      × IsReplaced target files files'
unfolding replace_latest_symlink
replace_latest_symlink_ok system target files files' h =
    elim (Result-cases (normalize_relative_path target)) [
      | inr (error, n) ↦ absurd (ground arith)
      | inl (normalized, n) ↦ elim (Bool-cases (ensure_inside (walk [] (split slash target)))) [
        | inr out ↦ absurd (ground arith)
        | inl inside ↦ elim (Result-cases (stat system (walk [] (split slash target)) files)) [
          | inr (error, s) ↦ absurd (ground arith)
          | inl (node, s) ↦ elim (Bool-cases (is_directory node)) [
            | inr other ↦ absurd (ground arith)
            | inl d ↦
                let swapped : with_error (swap_latest system target files) ≡ (files', none) =
                  ground arith in
                (
                  node,
                  s,
                  d,
                  swap_latest_ok system target files files'
                      (with_error-none (swap_latest system target files) files' swapped),
                )
          ]
        ]
      ]
    ]
