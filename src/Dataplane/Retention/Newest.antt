-- ===== src/Dataplane/Retention/Newest.antt =====
-- Which names of a tier `ApplyRetention` of internal/dataplane/snapshot.go removes.
use Prim.Native.Nat.{min}
use kube_rsync_machine.Common.{
  ℕ, ◌-◌, ◌≡◌, true, List, [], ◌∷◌, ◌++◌, arith, take, last_n, length, length-drop,
  take-append-drop, All, map, none,
}
use kube_rsync_machine.Common.Int.{pos}
use kube_rsync_machine.Common.Sort.{IsSorted, sort, sort-IsSorted, length-sort}
use kube_rsync_machine.Common.Text.{GoString, str_leb}
use kube_rsync_machine.Common.Text.Order.{str_leb_total, str_leb_trans}
use kube_rsync_machine.Dataplane.Files.{Files, System, dir_names}
use kube_rsync_machine.Dataplane.Retention.{prune_tier, snapshot_name}
use kube_rsync_machine.Dataplane.Retention.Tiers.{
  IsQuiet, IsTier, listed, planned, remove_names, prune_tier_lem,
}

All-split : (P : GoString → Type 0) (xs ys : List GoString) → All P (xs ++ ys) → All P ys
All-split P [] ys h = h
All-split P (x ∷ xs) ys (px, h) = All-split P xs ys h

-- In a sorted list each element of the front is at most each of the rest.
IsSorted-front :
    (xs ys : List GoString)
    → IsSorted str_leb (xs ++ ys)
    → All (λ x. All (λ y. str_leb x y ≡ true) ys) xs
IsSorted-front [] ys s = tt
IsSorted-front (x ∷ xs) ys (below, s) =
    (All-split (λ y. str_leb x y ≡ true) xs ys below, IsSorted-front xs ys s)

-- With a count of `keep`, the names that go and the newest `keep` names (or all, if there are
-- fewer) are together the sorted names of the tier, and no name that goes is above one that stays.
planned_oldest :
    (tier : GoString) (keep : ℕ) (files : Files)
    → let gone = planned (tier, pos keep) files in
      let kept = last_n keep (listed tier files) in
      (gone ++ kept ≡ listed tier files)
      × (length kept ≡ min keep (length (listed tier files)))
      × All (λ old. All (λ new. str_leb old new ≡ true) kept) gone
planned_oldest tier keep files =
    let names = listed tier files in
    let whole = take-append-drop (length names - keep) names in
    (
      whole,
      omega (arith, length-drop (length names - keep) names),
      IsSorted-front (take (length names - keep) names) (last_n keep names)
          (rw whole (sort-IsSorted str_leb str_leb_total str_leb_trans _)),
    )

-- When no system call fails, one round of the loop over the tiers, with a count of `keep`, removes
-- and reports names `gone` of a tier that is a directory or missing. These and the names that stay
-- are together the tier's sorted names, as many stay as there are, up to `keep`, and no name that
-- goes is above one that stays.
pub prune_tier_oldest :
    (system : System) (tier : GoString) (keep : ℕ) (files : Files) (removed : List GoString)
    → IsQuiet system
    → IsTier tier files
    → (gone : List GoString) × (kept : List GoString) × (prune_tier system
          (tier, pos keep)
          files
          removed
        ≡ (remove_names tier gone files, removed ++ map (snapshot_name tier) gone, none))
      × (gone ++ kept ≡ sort str_leb (dir_names (tier ∷ []) files))
      × (length kept ≡ min keep (length (dir_names (tier ∷ []) files)))
      × All (λ old. All (λ new. str_leb old new ≡ true) kept) gone
prune_tier_oldest system tier keep files removed quiet t =
    let (whole, count, oldest) = planned_oldest tier keep files in
    (
      planned (tier, pos keep) files,
      last_n keep (listed tier files),
      prune_tier_lem system tier (pos keep) files removed quiet t,
      whole,
      omega (arith, count, length-sort str_leb (dir_names (tier ∷ []) files)),
      oldest,
    )
