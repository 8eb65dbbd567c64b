-- ===== src/Dataplane/Files/Moves.antt =====
-- `os.Rename` and the making of entries, on the file system of Files.antt.
use kube_rsync_machine.Common.{
  ◌≡◌, refl, true, false, [], ◌∷◌, ◌++◌, none, drop, length, All, Bool-cases, Option-cases, inl,
  inr, arith,
}
use kube_rsync_machine.Common.Maps.{lookup, insert}
use kube_rsync_machine.Common.Text.{str_eq_iff}
use kube_rsync_machine.Dataplane.Files.{
  FilePath, FilePath_eq, path_eq, path_eq_iff, Node, Files, System, is_under, remove_all,
}
use kube_rsync_machine.Dataplane.Files.Laws.{lookup-remove_all}
use kube_rsync_machine.Dataplane.Files.Writes.{move_tree, rename, try_remove_all, make_entry}

pub is_under-append : (q s : FilePath) → is_under q (q ++ s) ≡ true
unfolding is_under
is_under-append [] s = refl
is_under-append (t ∷ q) s = ground (arith, is_under-append q s, str_eq_iff t t)

under_append : (p r : FilePath) → is_under p r ≡ true → p ++ drop (length p) r ≡ r
unfolding is_under
under_append [] r h = refl
under_append (s ∷ p) [] h = cc
under_append (s ∷ p) (t ∷ r) h =
    let same : s ≡ t = ground (arith, str_eq_iff s t) in cc (same, under_append p r (ground arith))

path_eq-append : (q a s : FilePath) → path_eq (q ++ a) (q ++ s) ≡ path_eq a s
unfolding path_eq
path_eq-append [] a s = refl
path_eq-append (t ∷ q) a s = ground (arith, path_eq-append q a s, str_eq_iff t t)

-- Paths outside both trees do not see the move.
pub lookup-move_tree_outside :
    (p q x : FilePath) (files : Files)
    → is_under p x ≡ false
    → is_under q x ≡ false
    → lookup x (move_tree p q files) ≡ lookup x files
unfolding lookup move_tree
lookup-move_tree_outside p q x [] h k = refl
lookup-move_tree_outside p q x ((r, node) ∷ files) h k = ground (
  arith,
  lookup-move_tree_outside p q x files h k,
  path_eq_iff r x,
  path_eq_iff (q ++ drop (length p) r) x,
  is_under-append q (drop (length p) r),
)

-- What was under the old path is under the new one, where nothing was.
pub lookup-move_tree_inside :
    (p q s : FilePath) (files : Files)
    → All (λ entry. is_under q entry.0 ≡ false) files
    → lookup (q ++ s) (move_tree p q files) ≡ lookup (p ++ s) files
unfolding lookup move_tree
lookup-move_tree_inside p q s [] h = refl
lookup-move_tree_inside p q s ((r, node) ∷ files) (free, h) = elim (Bool-cases (is_under p r)) [
  | inl e ↦ ground (
    arith,
    e,
    lookup-move_tree_inside p q s files h,
    path_eq-append q (drop (length p) r) s,
    path_eq-append p (drop (length p) r) s,
    under_append p r e,
  )
  | inr e ↦ ground (
    arith,
    e,
    lookup-move_tree_inside p q s files h,
    path_eq_iff r (q ++ s),
    path_eq_iff r (p ++ s),
    is_under-append q s,
    is_under-append p s,
  )
]

pub remove_all_free :
    (q : FilePath) (files : Files) → All (λ entry. is_under q entry.0 ≡ false) (remove_all q files)
unfolding remove_all
remove_all_free q [] = tt
remove_all_free q ((r, node) ∷ files) = elim (Bool-cases (is_under q r)) [
  | inl e ↦ rw e (remove_all_free q files)
  | inr e ↦ rw e (e, remove_all_free q files)
]

-- A renaming that succeeds moves the tree over what was at the new path.
pub rename_ok :
    (system : System) (p q : FilePath) (files files' : Files)
    → rename system p q files ≡ (files', none)
    → (files' ≡ move_tree p q (remove_all q files)) × (is_under p q ≡ false)
unfolding rename
rename_ok system p q files files' h = elim (Option-cases (lookup p files)) [
  | inl e ↦ absurd (ground arith)
  | inr (node, e) ↦ ground arith
]

pub make_entry_ok :
    (system : System) (p : FilePath) (node : Node) (files files' : Files)
    → make_entry system p node files ≡ (files', none)
    → files' ≡ insert p node files
unfolding make_entry
make_entry_ok system p node files files' h = elim (Option-cases (lookup p files)) [
  | inl e ↦ ground arith
  | inr (old, e) ↦ absurd (ground arith)
]

-- Removing a tree, if it works, hides no path outside it.
pub lookup-try_remove_all :
    (system : System) (p x : FilePath) (files : Files)
    → is_under p x ≡ false
    → lookup x (try_remove_all system p files) ≡ lookup x files
unfolding try_remove_all
lookup-try_remove_all system p x files h = ground (arith, lookup-remove_all p x files)
