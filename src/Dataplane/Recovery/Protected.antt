-- ===== src/Dataplane/Recovery/Protected.antt =====
-- `RecoverSpace` of internal/dataplane/snapshot.go: the protected restore points, and the room left.
use kube_rsync_machine.Common.{
  ℕ, ◌≡◌, ◌≤◌, refl, subst, ap, ◌∙◌, Bool, true, false, List, [], ◌∷◌, ◌++◌, none, some, ok, leb,
  leb→le, arith, any, Bool-cases, Result-cases, inl, inr,
}
use kube_rsync_machine.Common.Maps.{lookup}
use kube_rsync_machine.Common.Text.{GoString, str_eq, str_eq_iff}
use kube_rsync_machine.Dataplane.Files.{
  FilePath, FilePath_eq, Files, System, removes, is_under, remove_all,
}
use kube_rsync_machine.Dataplane.Files.Laws.{lookup-remove_all}
use kube_rsync_machine.Dataplane.Retention.{snapshot_name}
use kube_rsync_machine.Dataplane.Recovery.{
  Disk, SnapshotInfo, info_name, Recovered, is_protected, recover_loop, recover_space, survey,
  removable_snapshots, normalize_all,
}

-- The name is among the protected ones.
abbrev pub is_kept : List GoString → GoString → Bool
is_kept protected name = any (λ p. str_eq p name) protected

-- A candidate that is not protected is no protected restore point, nor above one.
not_under :
    (protected : List GoString) (c : SnapshotInfo) (tier name : GoString) (below : FilePath)
    → is_protected protected c ≡ false
    → is_kept protected (snapshot_name tier name) ≡ true
    → is_under (c.tier ∷ c.name ∷ []) (tier ∷ name ∷ below) ≡ false
unfolding is_under
not_under protected c tier name below out kept =
    ground (arith, out, kept, str_eq_iff c.tier tier, str_eq_iff c.name name)

recover_loop_protects :
    (system : System) (disk : Disk) (minimum : ℕ) (protected : List GoString)
    (candidates : List SnapshotInfo) (files : Files) (removed : List GoString) (available : ℕ)
    (tier name : GoString) (below : FilePath)
    → is_kept protected (snapshot_name tier name) ≡ true
    → lookup
        (tier ∷ name ∷ below)
        (recover_loop system disk minimum protected candidates files removed available).0
      ≡ lookup (tier ∷ name ∷ below) files
unfolding recover_loop
recover_loop_protects system disk minimum protected [] files removed available tier name below k =
    refl
recover_loop_protects system disk minimum protected (c ∷ candidates) files removed available tier
      name below k =
    let path : FilePath = c.tier ∷ c.name ∷ [] in
    let files' = remove_all path files in
    let removed' = removed ++ info_name c ∷ [] in
    elim (Bool-cases (is_protected protected c)) [
      | inl skip ↦ rw skip (
          recover_loop_protects system disk minimum protected candidates files removed available
            tier name below k)
      | inr out ↦
          let same : lookup (tier ∷ name ∷ below) files' ≡ lookup (tier ∷ name ∷ below) files =
            lookup-remove_all path (tier ∷ name ∷ below) files
            ∙ rw (not_under protected c tier name below out k) refl in
          elim (Bool-cases (system.fails removes path)) [
            | inl stop ↦ rw (out, stop) refl
            | inr gone ↦ elim (Result-cases (disk.available files')) [
              | inr (e, unknown) ↦ rw (out, gone, unknown) same
              | inl (room, known) ↦ elim (Bool-cases (leb minimum room)) [
                | inl enough ↦ rw (out, gone, known, enough) same
                | inr short ↦
                    rw (out, gone, known, short)
                      (recover_loop_protects system disk minimum protected candidates files'
                          removed' room tier name below k
                        ∙ same)
              ]
            ]
          ]
    ]

-- There is room for `minimum` bytes with these files.
abbrev pub HasRoom : Disk → ℕ → Files → Type 0
HasRoom disk minimum files = (room : ℕ) × (disk.available files ≡ ok room) × (minimum ≤ room)

-- Without an error there is room.
abbrev EndsWithRoom : Disk → ℕ → Recovered → Type 0
EndsWithRoom disk minimum (files, removed, none) = HasRoom disk minimum files
EndsWithRoom disk minimum (files, removed, some e) = Unit

recover_loop-EndsWithRoom :
    (system : System) (disk : Disk) (minimum : ℕ) (protected : List GoString)
    (candidates : List SnapshotInfo) (files : Files) (removed : List GoString) (available : ℕ)
    → EndsWithRoom disk minimum
        (recover_loop system disk minimum protected candidates files removed available)
unfolding recover_loop
recover_loop-EndsWithRoom system disk minimum protected [] files removed available = tt
recover_loop-EndsWithRoom system disk minimum protected (c ∷ candidates) files removed available =
    let path : FilePath = c.tier ∷ c.name ∷ [] in
    let files' = remove_all path files in
    let removed' = removed ++ info_name c ∷ [] in
    elim (Bool-cases (is_protected protected c)) [
      | inl skip ↦ rw skip (
          recover_loop-EndsWithRoom system disk minimum protected candidates files removed
            available)
      | inr out ↦ elim (Bool-cases (system.fails removes path)) [
        | inl stop ↦ rw (out, stop) tt
        | inr gone ↦ elim (Result-cases (disk.available files')) [
          | inr (e, unknown) ↦ rw (out, gone, unknown) tt
          | inl (room, known) ↦ elim (Bool-cases (leb minimum room)) [
            | inl enough ↦ rw (out, gone, known, enough) (room, known, leb→le minimum room enough)
            | inr short ↦
                rw (out, gone, known, short)
                  (recover_loop-EndsWithRoom system disk minimum protected candidates files'
                    removed' room)
          ]
        ]
      ]
    ]

recover_space-EndsWithRoom :
    (system : System) (disk : Disk) (minimum : ℕ) (protected : List GoString) (files : Files)
    → EndsWithRoom disk minimum (recover_space system disk minimum protected files)
unfolding recover_space
recover_space-EndsWithRoom system disk minimum protected files =
    elim (Result-cases (disk.available files)) [
      | inr (e, unknown) ↦ rw (unknown, recover_space) tt
      | inl (room, known) ↦ elim (Bool-cases (leb minimum room)) [
        | inl enough ↦ rw (known, recover_space, enough) (room, known, leb→le minimum room enough)
        | inr short ↦ elim (Result-cases (survey system disk protected files)) [
          | inr (e, refused) ↦ rw (known, recover_space, short, refused) tt
          | inl ((normalized, candidates), surveyed) ↦
              rw (known, recover_space, short, surveyed)
                (recover_loop-EndsWithRoom system disk minimum normalized candidates files [] room)
        ]
      ]
    ]

survey_names :
    (system : System) (disk : Disk) (protected normalized names : List GoString)
    (candidates : List SnapshotInfo) (files : Files)
    → normalize_all protected ≡ ok normalized
    → survey system disk protected files ≡ ok (names, candidates)
    → names ≡ normalized
unfolding survey
survey_names system disk protected normalized names candidates files e h =
    elim (Result-cases (removable_snapshots system disk files)) [
      | inl (infos, f) ↦ ground (arith, e, f, h)
      | inr (error, f) ↦ absurd (ground (arith, e, f, h))
    ]

-- Whichever calls fail, a restore point whose name is among the normalized protected ones is there
-- afterwards as it was, with everything below it.
pub recover_space_protects :
    (system : System) (disk : Disk) (minimum : ℕ) (protected normalized : List GoString)
    (files : Files) (tier name : GoString) (below : FilePath)
    → normalize_all protected ≡ ok normalized
    → is_kept normalized (snapshot_name tier name) ≡ true
    → lookup (tier ∷ name ∷ below) (recover_space system disk minimum protected files).0
      ≡ lookup (tier ∷ name ∷ below) files
unfolding recover_space
recover_space_protects system disk minimum protected normalized files tier name below e k =
    elim (Result-cases (disk.available files)) [
      | inr (error, unknown) ↦ rw (unknown, recover_space) refl
      | inl (room, known) ↦ elim (Bool-cases (leb minimum room)) [
        | inl enough ↦ rw (known, recover_space, enough) refl
        | inr short ↦ elim (Result-cases (survey system disk protected files)) [
          | inr (error, refused) ↦ rw (known, recover_space, short, refused) refl
          | inl ((names, candidates), surveyed) ↦
              rw (known, recover_space, short, surveyed)
                (recover_loop_protects system disk minimum names candidates files [] room tier name
                  below
                  (ap (λ ns. is_kept ns (snapshot_name tier name))
                      (survey_names system disk protected normalized names candidates files e
                        surveyed)
                    ∙ k))
        ]
      ]
    ]

-- If no error is returned, whichever calls fail, there is room for the bytes that were asked for.
pub recover_space_enough :
    (system : System) (disk : Disk) (minimum : ℕ) (protected : List GoString) (files files' : Files)
    (removed : List GoString)
    → recover_space system disk minimum protected files ≡ (files', removed, none)
    → HasRoom disk minimum files'
recover_space_enough system disk minimum protected files files' removed h =
    subst (EndsWithRoom disk minimum) h
      (recover_space-EndsWithRoom system disk minimum protected files)
