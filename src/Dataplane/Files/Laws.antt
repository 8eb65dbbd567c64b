-- ===== src/Dataplane/Files/Laws.antt =====
-- `os.RemoveAll` on the file system of Files.antt.
use kube_rsync_machine.Common.{
  ◌≡◌, ◌≢◌, refl, false, [], ◌∷◌, none, some, Option-cases, inl, inr, if◌then◌else◌, arith,
}
use kube_rsync_machine.Common.Maps.{lookup}
use kube_rsync_machine.Common.Text.{GoString, str_eq_iff}
use kube_rsync_machine.Dataplane.Files.{
  FilePath, FilePath_eq, path_eq_iff, Files, is_under, remove_all, child_name, dir_names,
}

-- Removing a tree takes away what is under its root, and nothing else.
pub lookup-remove_all :
    (p q : FilePath) (files : Files)
    → lookup q (remove_all p files) ≡ (if is_under p q then none else lookup q files)
unfolding lookup remove_all
lookup-remove_all p q [] = ground arith
lookup-remove_all p q ((r, node) ∷ files) =
    ground (arith, path_eq_iff r q, lookup-remove_all p q files)

-- Directories in another tier are not under a snapshot.
other_tier :
    (tier other name : GoString) (p : FilePath) (child : GoString)
    → tier ≢ other
    → child_name (other ∷ []) p ≡ some child
    → is_under (tier ∷ name ∷ []) p ≡ false
unfolding child_name is_under
other_tier tier other name [] child ne h = refl
other_tier tier other name (s ∷ p) child ne h =
    ground (arith, str_eq_iff tier s, str_eq_iff other s)

-- Removing a snapshot does not change what the other tiers list.
pub dir_names-remove_all :
    (tier other name : GoString) (files : Files)
    → tier ≢ other
    → dir_names (other ∷ []) (remove_all (tier ∷ name ∷ []) files) ≡ dir_names (other ∷ []) files
unfolding dir_names remove_all
dir_names-remove_all tier other name [] ne = refl
dir_names-remove_all tier other name ((p, node) ∷ files) ne =
    let rest = dir_names-remove_all tier other name files ne in
    elim (Option-cases (child_name (other ∷ []) p)) [
      | inl e ↦ ground (arith, rest, e)
      | inr (child, e) ↦ ground (arith, rest, e, other_tier tier other name p child ne e)
    ]
