-- ===== src/Dataplane/Retention/Tiers.antt =====
-- The loop over one tier in `ApplyRetention` of internal/dataplane/snapshot.go.
use kube_rsync_machine.Common.{
  ℕ, suc, ◌-◌, ◌≡◌, ◌≢◌, ◌≤◌, ◌<◌, refl, ap, ◌∙◌, false, List, [], ◌∷◌, ◌++◌, append-nil,
  append_assoc, none, some, Bool-cases, inl, inr, ◌⊎◌, if◌then◌else◌, arith, any, ltb, length, take,
  map,
}
use kube_rsync_machine.Common.Int.{ℤ, pos, negsuc, is_negative, to_ℕ}
use kube_rsync_machine.Common.Sort.{sort}
use kube_rsync_machine.Common.Maps.{lookup}
use kube_rsync_machine.Common.Text.{GoString, str_leb}
use kube_rsync_machine.Dataplane.Files.{
  FilePath, FilePath_eq, Files, directory, System, Call, lists, removes, is_under, remove_all,
  dir_names, read_dirs,
}
use kube_rsync_machine.Dataplane.Files.Laws.{lookup-remove_all, dir_names-remove_all}
use kube_rsync_machine.Dataplane.Retention.{Pruned, snapshot_name, prune_names, prune_tier}

-- No system call fails.
abbrev pub IsQuiet : System → Type 0
IsQuiet system = (call : Call) (p : FilePath) → system.fails call p ≡ false

-- All but the last `keep` names.
abbrev pub excess : ℕ → List GoString → List GoString
excess keep names = take (length names - keep) names

unfoldable pub remove_names : GoString → List GoString → Files → Files
remove_names tier [] files = files
remove_names tier (name ∷ names) files =
    remove_names tier names (remove_all (tier ∷ name ∷ []) files)

excess_cons :
    (keep : ℕ) (name : GoString) (names : List GoString)
    → keep < length (name ∷ names)
    → excess keep (name ∷ names) ≡ name ∷ excess keep names
excess_cons keep name names h = ap (λ k. take k (name ∷ names)) (one_more (length names) keep h)
  where
    one_more : (a b : ℕ) → b < suc a → suc a - b ≡ suc (a - b)
    one_more a b h = omega arith

excess_none : (keep : ℕ) (names : List GoString) → length names ≤ keep → excess keep names ≡ []
excess_none keep names h = ap (λ k. take k names) (no_more (length names) keep h)
  where
    no_more : (a b : ℕ) → a ≤ b → a - b ≡ 0
    no_more a b h = omega arith

prune_names_lem :
    (system : System) (tier : GoString) (keep : ℕ) (names : List GoString) (files : Files)
    (removed : List GoString)
    → IsQuiet system
    → prune_names system tier keep names files removed ≡ (
      remove_names tier (excess keep names) files,
      removed ++ map (snapshot_name tier) (excess keep names),
      none,
    )
unfolding prune_names remove_names
prune_names_lem system tier keep [] files removed q =
    rw (excess_none keep [] (omega arith), append-nil) refl
prune_names_lem system tier keep (name ∷ names) files removed q =
    elim (Bool-cases (ltb keep (length (name ∷ names)))) [
      | inl more ↦
          rw
            (more, q removes (tier ∷ name ∷ []), excess_cons keep name names (ground (arith, more)))
            (prune_names_lem system tier keep names (remove_all (tier ∷ name ∷ []) files)
                (removed ++ snapshot_name tier name ∷ []) q
              ∙ ap
                  (λ r.
                    let p : Pruned = (
                      remove_names tier (excess keep names) (remove_all (tier ∷ name ∷ []) files),
                      r,
                      none,
                    ) in
                    p)
                  (append_assoc removed (snapshot_name tier name ∷ [])
                    (map (snapshot_name tier) (excess keep names))))
      | inr enough ↦
          rw (enough, excess_none keep (name ∷ names) (ground (arith, enough))) (rw append-nil refl)
    ]

-- The tier's directory, or nothing at all.
abbrev pub IsTier : GoString → Files → Type 0
IsTier tier files =
    (lookup (tier ∷ []) files ≡ some directory)
    ⊎ ((lookup (tier ∷ []) files ≡ none) × (dir_names (tier ∷ []) files ≡ []))

-- The restore points of a tier, by name.
abbrev pub listed : GoString → Files → List GoString
listed tier files = sort str_leb (dir_names (tier ∷ []) files)

-- The restore points that the policy's count for the tier does not keep.
abbrev pub planned : GoString × ℤ → Files → List GoString
planned (tier, keep) files = if is_negative keep then [] else excess (to_ℕ keep) (listed tier files)

pub prune_tier_lem :
    (system : System) (tier : GoString) (keep : ℤ) (files : Files) (removed : List GoString)
    → IsQuiet system
    → IsTier tier files
    → prune_tier system (tier, keep) files removed ≡ (
      remove_names tier (planned (tier, keep) files) files,
      removed ++ map (snapshot_name tier) (planned (tier, keep) files),
      none,
    )
unfolding prune_tier remove_names read_dirs sort
prune_tier_lem system tier (negsuc n) files removed q t = rw append-nil refl
prune_tier_lem system tier (pos n) files removed q (inl e) =
    rw (q lists (tier ∷ []), e) (prune_names_lem system tier n (listed tier files) files removed q)
prune_tier_lem system tier (pos n) files removed q (inr (e, empty)) =
    rw (q lists (tier ∷ []), e, empty, excess_none n [] (omega arith), append-nil) refl

pub lookup-remove_names :
    (tier : GoString) (names : List GoString) (q : FilePath) (files : Files)
    → lookup q (remove_names tier names files)
      ≡ (if any (λ n. is_under (tier ∷ n ∷ []) q) names then none else lookup q files)
unfolding remove_names
lookup-remove_names tier [] q files = refl
lookup-remove_names tier (name ∷ names) q files = ground (
  arith,
  lookup-remove_names tier names q (remove_all (tier ∷ name ∷ []) files),
  lookup-remove_all (tier ∷ name ∷ []) q files,
)

dir_names-remove_names :
    (tier other : GoString) (names : List GoString) (files : Files)
    → tier ≢ other
    → dir_names (other ∷ []) (remove_names tier names files) ≡ dir_names (other ∷ []) files
unfolding remove_names
dir_names-remove_names tier other [] files ne = refl
dir_names-remove_names tier other (name ∷ names) files ne =
    dir_names-remove_names tier other names (remove_all (tier ∷ name ∷ []) files) ne
    ∙ dir_names-remove_all tier other name files ne

-- A snapshot is below the tier's directory, so a tier's directory stays.
pub not_above :
    (tier other : GoString) (names : List GoString)
    → any (λ n. is_under (tier ∷ n ∷ []) (other ∷ [])) names ≡ false
unfolding is_under
not_above tier other [] = refl
not_above tier other (n ∷ names) = ground (arith, not_above tier other names)

lookup_tier :
    (tier other : GoString) (names : List GoString) (files : Files)
    → lookup (other ∷ []) (remove_names tier names files) ≡ lookup (other ∷ []) files
lookup_tier tier other names files =
    lookup-remove_names tier names (other ∷ []) files ∙ rw (not_above tier other names) refl

pub IsTier-remove_names :
    (tier other : GoString) (names : List GoString) (files : Files)
    → tier ≢ other
    → IsTier other files
    → IsTier other (remove_names tier names files)
IsTier-remove_names tier other names files ne (inl e) = inl (lookup_tier tier other names files ∙ e)
IsTier-remove_names tier other names files ne (inr (e, empty)) = inr (
  lookup_tier tier other names files ∙ e,
  dir_names-remove_names tier other names files ne ∙ empty,
)

pub planned-remove_names :
    (tier : GoString) (other : GoString × ℤ) (names : List GoString) (files : Files)
    → tier ≢ other.0
    → planned other (remove_names tier names files) ≡ planned other files
planned-remove_names tier (other, keep) names files ne =
    ap (λ ds. if is_negative keep then [] else excess (to_ℕ keep) (sort str_leb ds))
      (dir_names-remove_names tier other names files ne)
