-- ===== src/Dataplane/Finalize/Tiers.antt =====
-- `finalizePromotedSnapshot` of internal/dataplane/snapshot.go.
use kube_rsync_machine.Common.{
  ◌≡◌, ◌⊎◌, refl, sym, ap, ◌∙◌, true, append-nil, append_assoc, List, [], ◌∷◌, ◌++◌, Option, none,
  some, ok, err, Result, ℕ, All, Result-cases, inl, inr, arith,
}
use kube_rsync_machine.Common.Text.{GoString, codes, split}
use kube_rsync_machine.Dataplane.Paths.{slash, normalize_relative_path}
use kube_rsync_machine.Dataplane.Files.{
  FilePath, Node, Files, FileError, not_exist, io_failure, System, is_directory, walk, stat,
}
use kube_rsync_machine.Dataplane.Files.Writes.{Written}
use kube_rsync_machine.Dataplane.Retention.{
  hourly, snapshot_name, RetentionPolicy, apply_retention, Pruned,
}
use kube_rsync_machine.Dataplane.Finalize.{
  Calendar, FinalizeError, failed, tier_snapshot_names, validate_snapshot_sources,
  replace_latest_symlink,
}
use kube_rsync_machine.Dataplane.Finalize.Latest.{IsReplaced, replace_latest_symlink_ok}
use kube_rsync_machine.Dataplane.Finalize.Promoted.{
  Finalized, link_tree, make_tiers, tier_made, retained, latest_replaced,
  finalize_promoted_snapshot,
}

-- The steps by which the tiers get their snapshots: one that is there stays, one that is missing is
-- linked from the hourly one, and its name is reported.
pub data TiersMade (system : System) (src : FilePath)
    : List (GoString × GoString) → List GoString → Files → Files → Type 0 where
  no_tiers : {files : Files} → TiersMade system src [] [] files files
  tier_there :
      {tier name : GoString} {tiers : List (GoString × GoString)} {new : List GoString}
      {files made : Files} (node : Node)
      → stat system (tier ∷ name ∷ []) files ≡ ok node
      → TiersMade system src tiers new files made
      → TiersMade system src ((tier, name) ∷ tiers) new files made
  tier_linked :
      {tier name : GoString} {tiers : List (GoString × GoString)} {new : List GoString}
      {files made : Files} (next : Files)
      → stat system (tier ∷ name ∷ []) files ≡ err not_exist
      → link_tree system src (tier ∷ name ∷ []) files ≡ (next, none)
      → TiersMade system src tiers new next made
      → TiersMade system src ((tier, name) ∷ tiers) (snapshot_name tier name ∷ new) files made

-- Every source is there in the snapshot.
abbrev pub HasSources : System → FilePath → Files → List GoString → Type 0
HasSources system snapshot files =
    All
      (λ source. (node : Node) × (stat system (walk snapshot (split slash source)) files ≡ ok node))

pub validate_snapshot_sources-HasSources :
    (system : System) (snapshot : FilePath) (sources : List GoString) (files : Files)
    → validate_snapshot_sources system snapshot sources files ≡ ok tt
    → HasSources system snapshot files sources
unfolding validate_snapshot_sources
validate_snapshot_sources-HasSources system snapshot [] files h = tt
validate_snapshot_sources-HasSources system snapshot (source ∷ sources) files h =
    elim (Result-cases (normalize_relative_path source)) [
      | inr (error, n) ↦ absurd (ground arith)
      | inl (normalized, n) ↦
          elim (Result-cases (stat system (walk snapshot (split slash source)) files)) [
            | inr (error, s) ↦ absurd (ground arith)
            | inl (node, s) ↦ (
              (node, s),
              validate_snapshot_sources-HasSources system snapshot sources files (ground arith),
            )
          ]
    ]

-- What has happened when the finalization of a promoted snapshot succeeds.
pub record IsFinalized (system : System) (calendar : Calendar) (timestamp : GoString) (day : ℕ)
    (sources : List GoString) (retention : RetentionPolicy) (files files' : Files)
    (names : List GoString) : Type 0 where
  pub snapshot_node : Node
  pub snapshot_there :
      stat system (walk [] (split slash (snapshot_name hourly timestamp))) files ≡ ok snapshot_node
  pub snapshot_directory : is_directory snapshot_node ≡ true
  pub sources_there : HasSources system (hourly ∷ timestamp ∷ []) files sources
  pub linked_files : Files
  pub linked : IsReplaced (snapshot_name hourly timestamp) files linked_files
  pub tiered_files : Files
  pub new_names : List GoString
  pub tiered :
      TiersMade system
        (hourly ∷ timestamp ∷ [])
        (tier_snapshot_names calendar day)
        new_names
        linked_files
        tiered_files
  pub removed : List GoString
  pub pruned : apply_retention system retention tiered_files ≡ (files', removed, none)
  pub reported :
      names
      ≡ snapshot_name hourly timestamp
        ∷ (codes "latest -> " ++ snapshot_name hourly timestamp)
        ∷ new_names

retained-none :
    (points names : List GoString) (p : Pruned) (files' : Files)
    → retained points p ≡ (files', names, none)
    → (removed : List GoString) × (p ≡ (files', removed, none)) × (names ≡ points)
retained-none points names (files, removed, none) files' h =
    (removed, ap (λ x. (x.0, removed, none)) h, sym (ap (λ x. x.1) h))
retained-none points names (files, removed, some e) files' h = absurd (cc)

pub stat_cases :
    (r : Result FileError Node)
    → ((node : Node) × (r ≡ ok node)) ⊎ ((r ≡ err not_exist) ⊎ (r ≡ err io_failure))
stat_cases (ok node) = inl (node, refl)
stat_cases (err not_exist) = inr (inl refl)
stat_cases (err io_failure) = inr (inr refl)

failed_not_none :
    (files files' : Files) (points names : List GoString)
    → ◌≡◌ {A = Finalized} (files, points, some (failed io_failure)) (files', names, none)
    → ⊥
failed_not_none files files' points names h = cc

tier_made-none :
    (points names : List GoString) (name : GoString) (w : Written)
    (rest : List GoString → Files → Finalized) (files' : Files)
    → tier_made points name w rest ≡ (files', names, none)
    → (next : Files) × (w ≡ (next, none))
      × (rest (points ++ name ∷ []) next ≡ (files', names, none))
tier_made-none points names name (next, none) rest files' h = (next, refl, h)
tier_made-none points names name (next, some e) rest files' h = absurd (cc)

abbrev first_names : GoString → List GoString
first_names name = name ∷ (codes "latest -> " ++ name) ∷ []

latest_replaced-none :
    (name : GoString) (w : Files × Option FinalizeError) (rest : List GoString → Files → Finalized)
    (names : List GoString) (files' : Files)
    → latest_replaced name w rest ≡ (files', names, none)
    → (next : Files) × (w ≡ (next, none)) × (rest (first_names name) next ≡ (files', names, none))
latest_replaced-none name (next, none) rest names files' h = (next, refl, h)
latest_replaced-none name (next, some e) rest names files' h = absurd (cc)

module _ (system : System) (src : FilePath) (retention : RetentionPolicy) where
  abbrev prune : List GoString → Files → Finalized
  prune points made = retained points (apply_retention system retention made)

  abbrev Tiered :
      List (GoString × GoString) → List GoString → List GoString → Files → Files → Type 0
  Tiered tiers points names files files' =
      (made : Files) × (removed : List GoString) × (new : List GoString) × TiersMade system src
        tiers new files made
      × (apply_retention system retention made ≡ (files', removed, none))
      × (names ≡ points ++ new)

  make_tiers-none :
      (tiers : List (GoString × GoString)) (points names : List GoString) (files files' : Files)
      → make_tiers system src prune tiers points files ≡ (files', names, none)
      → Tiered tiers points names files files'
  unfolding make_tiers
  make_tiers-none [] points names files files' h =
      let (removed, p, same) =
        retained-none points names (apply_retention system retention files) files' h in
      (files, removed, [], TiersMade.no_tiers, p, same ∙ sym (append-nil points))
  make_tiers-none ((tier, name) ∷ tiers) points names files files' h =
      elim (stat_cases (stat system (tier ∷ name ∷ []) files)) [
        | inl (node, s) ↦
            let (made, removed, new, steps, p, same) =
              make_tiers-none tiers points names files files' (rw (s, make_tiers) at h) in
            (made, removed, new, TiersMade.tier_there node s steps, p, same)
        | inr (inl s) ↦
            let (next, e, later) =
              tier_made-none points names (snapshot_name tier name)
                (link_tree system src (tier ∷ name ∷ []) files) (make_tiers system src prune tiers)
                files' (rw (s, make_tiers) at h) in
            let (made, removed, new, steps, p, same) =
              make_tiers-none tiers (points ++ snapshot_name tier name ∷ []) names next files'
                later in
            (
              made,
              removed,
              snapshot_name tier name ∷ new,
              TiersMade.tier_linked next s e steps,
              p,
              same ∙ append_assoc points (snapshot_name tier name ∷ []) new,
            )
        | inr (inr s) ↦ absurd (failed_not_none files files' points names (rw (s, make_tiers) at h))
      ]

pub finalize_promoted_snapshot_ok :
    (system : System) (calendar : Calendar) (timestamp : GoString) (day : ℕ)
    (sources : List GoString) (retention : RetentionPolicy) (files files' : Files)
    (names : List GoString)
    → finalize_promoted_snapshot system calendar timestamp day sources retention files
      ≡ (files', names, none)
    → IsFinalized system calendar timestamp day sources retention files files' names
unfolding finalize_promoted_snapshot
finalize_promoted_snapshot_ok system calendar timestamp day sources retention files files' names h =
    elim (Result-cases (validate_snapshot_sources system (hourly ∷ timestamp ∷ []) sources files)) [
      | inr (error, v) ↦ absurd (ground arith)
      | inl (done, v) ↦
          let target = snapshot_name hourly timestamp in
          let src : FilePath = hourly ∷ timestamp ∷ [] in
          let (linked, replaced, later) =
            latest_replaced-none target (replace_latest_symlink system target files)
              (make_tiers system src (prune system src retention)
                (tier_snapshot_names calendar day))
              names files' (rw (v, finalize_promoted_snapshot) at h) in
          let (node, there, dir, is_replaced) =
            replace_latest_symlink_ok system target files linked replaced in
          let (made, removed, new, steps, pruned, same) =
            make_tiers-none system src retention (tier_snapshot_names calendar day)
              (first_names target) names linked files' later in
          record {
            snapshot_node = node;
            snapshot_there = there;
            snapshot_directory = dir;
            sources_there = validate_snapshot_sources-HasSources system src sources files v;
            linked_files = linked;
            linked = is_replaced;
            tiered_files = made;
            new_names = new;
            tiered = steps;
            removed = removed;
            pruned = pruned;
            reported = same;
          }
    ]
