-- ===== src/Controller/Destinations/Clean.antt =====
-- `cleanRelativePath` and `effectiveDestinationPath` of internal/controller/helpers.go beside
-- `NormalizeRelativePath` and `NormalizeDestinationPath` of internal/dataplane/snapshot.go.
use kube_rsync_machine.Common.{
  ◌≡◌, ◌≢◌, refl, sym, ap, ◌∙◌, false, List, [], ◌∷◌, ◌++◌, ok, any, arith, All, Bool-cases, ◌||◌,
  Result-cases, inl, inr,
}
use kube_rsync_machine.Common.Text.{
  GoString, codes, is_empty, str_eq, str_eq_iff, has_prefix, contains, split, join, path_clean,
  path_join,
}
use kube_rsync_machine.Common.Text.Clean.{or_dot, path_clean_relative}
use kube_rsync_machine.Dataplane.Paths.{
  normalize_relative_path, normalize_destination_path, destination_below, is_skipped,
}
use kube_rsync_machine.Dataplane.Paths.Relative.{
  IsSegment, normalize_relative_path_sound, normalize_relative_path_names,
  normalize_relative_path_refuses, normalize_relative_path_idem,
}
use kube_rsync_machine.Dataplane.Paths.Destination.{normalized-IsSegment, normalize_segment}
use kube_rsync_machine.Controller.Destinations.{clean_relative_path, effective_destination_path}

pub none_up :
    (parts : List GoString)
    → any (λ part. str_eq part (codes "..")) parts ≡ false
    → All (λ p. str_eq p (codes "..") ≡ false) parts
none_up [] h = tt
none_up (part ∷ parts) h = (ground arith, none_up parts (ground arith))

-- What `NormalizeRelativePath` accepts.
pub accepted :
    (value path : GoString)
    → normalize_relative_path value ≡ ok path
    → (is_empty value ≡ false)
      × (has_prefix value (codes "/") ≡ false)
      × (contains value b'\\' ≡ false)
      × (any (λ part. str_eq part (codes "..")) (split b'/' value) ≡ false)
unfolding normalize_relative_path
accepted value path h =
    elim (Bool-cases (any (λ part. str_eq part (codes "..")) (split b'/' value))) [
      | inl up ↦ absurd (normalize_relative_path_refuses value path up h)
      | inr down ↦ (ground arith, ground arith, ground arith, down)
    ]

or_dot_whole : (names : List GoString) → names ≢ [] → or_dot names ≡ join b'/' names
or_dot_whole [] ne = absurd (ne refl)
or_dot_whole (p ∷ ps) ne = refl

-- Where `NormalizeRelativePath` accepts, `path.Clean` gives the same path.
pub path_clean-normalize :
    (value path : GoString) → normalize_relative_path value ≡ ok path → path_clean value ≡ path
unfolding is_skipped
path_clean-normalize value path h =
    let (names, joined, parts, ne, segs) = normalize_relative_path_sound value path h in
    let (_, relative, _, down) = accepted value path h in
    path_clean_relative value relative (none_up (split b'/' value) down)
    ∙ ap or_dot (sym parts)
    ∙ or_dot_whole names ne
    ∙ sym joined

pub not_dot :
    (value path : GoString)
    → normalize_relative_path value ≡ ok path
    → str_eq path (codes ".") ≡ false
unfolding contains
not_dot value path h = elim (Bool-cases (str_eq path (codes "."))) [
  | inl e ↦
      let same : path ≡ codes "." = (str_eq_iff path (codes ".")).0 e in
      absurd ((normalized-IsSegment value path h (rw same refl)).not_here same)
  | inr e ↦ e
]

relative_not_root :
    (value : GoString) → has_prefix value (codes "/") ≡ false → str_eq value (codes "/") ≡ false
unfolding has_prefix str_eq
relative_not_root [] h = refl
relative_not_root (c ∷ value) h = ground arith

-- Where the data plane's `NormalizeRelativePath` accepts a path, `cleanRelativePath` gives the same.
pub clean_relative_path-normalize :
    (value path : GoString)
    → normalize_relative_path value ≡ ok path
    → clean_relative_path value ≡ ok path
unfolding clean_relative_path
clean_relative_path-normalize value path h =
    let (filled, relative, bare, down) = accepted value path h in
    rw
      (
        filled,
        relative_not_root value relative,
        relative,
        bare,
        down,
        path_clean-normalize value path h,
        not_dot value path h,
      )
      refl

join_below :
    (namespace : GoString) (names : List GoString)
    → names ≢ []
    → join b'/' (namespace ∷ names) ≡ namespace ++ b'/' ∷ join b'/' names
unfolding join
join_below namespace [] ne = absurd (ne refl)
join_below namespace (p ∷ ps) ne = refl

-- `path.Join` of a directory's name and a normalized path.
pub path_join_below :
    (namespace value path : GoString)
    → IsSegment namespace
    → normalize_relative_path value ≡ ok path
    → path_join (namespace ∷ path ∷ []) ≡ namespace ++ b'/' ∷ path
unfolding path_join join
path_join_below namespace value path seg h =
    let (names, joined, _, ne, segs) = normalize_relative_path_sound value path h in
    let whole = normalize_relative_path_names (namespace ∷ names) (λ e. cc) (seg, segs) in
    let below = join_below namespace names ne in
    let full : normalize_relative_path (namespace ++ b'/' ∷ path) ≡ ok (namespace ++ b'/' ∷ path) =
      rw joined (rw below at whole) in
    rw (seg.nonempty, (accepted path path (normalize_relative_path_idem value path h)).0)
      (path_clean-normalize (namespace ++ b'/' ∷ path) (namespace ++ b'/' ∷ path) full)

-- Where the data plane accepts a destination for a namespace that is a directory's name, the
-- controller computes the same path.
pub effective_destination_path-normalize :
    (namespace destination path : GoString)
    → IsSegment namespace
    → normalize_destination_path namespace destination ≡ ok path
    → effective_destination_path namespace destination ≡ ok path
unfolding normalize_destination_path destination_below effective_destination_path
effective_destination_path-normalize namespace destination path seg h =
    elim (Bool-cases (is_empty destination || str_eq destination (codes "/"))) [
      | inl whole ↦ ground (arith, normalize_segment namespace seg, seg.nonempty)
      | inr part ↦ elim (Result-cases (normalize_relative_path destination)) [
        | inl (rest, e) ↦ ground (
          arith,
          normalize_segment namespace seg,
          seg.nonempty,
          seg.one_segment,
          clean_relative_path-normalize destination rest e,
          path_join_below namespace destination rest seg e,
        )
        | inr (error, e) ↦ absurd (ground (arith, normalize_segment namespace seg, seg.one_segment))
      ]
    ]
