-- ===== src/Controller/Destinations/Effective.antt =====
-- `cleanRelativePath` and `effectiveDestinationPath` of internal/controller/helpers.go.
use kube_rsync_machine.Common.{
  ◌≡◌, ◌≢◌, ◌⊎◌, refl, sym, ap, ◌∙◌, false, List, [], ◌∷◌, ◌++◌, ok, keep_if, any, arith,
  Bool-cases, Result-cases, inl, inr, ◌||◌,
}
use kube_rsync_machine.Common.Text.{
  GoString, codes, is_empty, str_eq, has_prefix, contains, split, join, path_clean, path_join,
}
use kube_rsync_machine.Common.Text.Clean.{is_named, or_dot, path_clean_relative}
use kube_rsync_machine.Dataplane.Paths.{normalize_relative_path, is_skipped, clean_parts}
use kube_rsync_machine.Dataplane.Paths.Relative.{IsSegment}
use kube_rsync_machine.Dataplane.Paths.Destination.{normalize_segment}
use kube_rsync_machine.Controller.Destinations.{
  dot_to_empty, clean_relative_path, effective_destination_path,
}
use kube_rsync_machine.Controller.Destinations.Clean.{
  none_up, path_clean-normalize, path_join_below, not_dot,
}

pub clean_parts_down :
    (parts : List GoString)
    → any (λ part. str_eq part (codes "..")) parts ≡ false
    → clean_parts parts ≡ ok (keep_if is_named parts)
unfolding clean_parts is_skipped
clean_parts_down [] h = refl
clean_parts_down (part ∷ parts) h = ground (arith, clean_parts_down parts)

-- The last step of both functions on the named parts.
pub finish :
    (value : GoString) (names : List GoString)
    → is_empty value ≡ false
    → has_prefix value (codes "/") ≡ false
    → contains value b'\\' ≡ false
    → clean_parts (split b'/' value) ≡ ok names
    → (names ≡ []) ⊎ (normalize_relative_path value ≡ ok (or_dot names))
unfolding normalize_relative_path
finish value [] f r b e = inl refl
finish value (p ∷ ps) f r b e = inr (ground arith)

named_cases :
    (value path : GoString) (names : List GoString)
    → path ≡ dot_to_empty (or_dot names)
    → (names ≡ []) ⊎ (normalize_relative_path value ≡ ok (or_dot names))
    → (path ≡ []) ⊎ (normalize_relative_path value ≡ ok path)
unfolding str_eq
named_cases value path names e (inl none_named) = inl (rw (e, none_named) refl)
named_cases value path names e (inr normal) =
    let same : path ≡ or_dot names = rw (e, not_dot value (or_dot names) normal) refl in
    inr (rw same normal)

-- A cleaned path is empty, or is what `NormalizeRelativePath` returns.
pub clean_relative_path_cases :
    (value path : GoString)
    → clean_relative_path value ≡ ok path
    → (path ≡ []) ⊎ (normalize_relative_path value ≡ ok path)
unfolding clean_relative_path
clean_relative_path_cases value path h =
    elim (Bool-cases (is_empty value || str_eq value (codes "/"))) [
      | inl root ↦ inl (ground arith)
      | inr part ↦
          let relative : has_prefix value (codes "/") ≡ false = ground arith in
          let bare : contains value b'\\' ≡ false = ground arith in
          let down : any (λ p. str_eq p (codes "..")) (split b'/' value) ≡ false = ground arith in
          let names = keep_if is_named (split b'/' value) in
          let cleaned : path ≡ dot_to_empty (path_clean value) = ground arith in
          named_cases value path names
            (cleaned
              ∙ ap dot_to_empty
                  (path_clean_relative value relative (none_up (split b'/' value) down)))
            (finish value names (ground arith) relative bare
              (clean_parts_down (split b'/' value) down))
    ]

-- The namespace's name, then the cleaned path if it is not empty.
abbrev pub below : GoString → GoString → GoString
below namespace [] = namespace
below namespace (c ∷ cleaned) = namespace ++ b'/' ∷ c ∷ cleaned

join_cases :
    (namespace value path : GoString)
    → IsSegment namespace
    → (path ≡ []) ⊎ (normalize_relative_path value ≡ ok path)
    → path_join (namespace ∷ path ∷ []) ≡ below namespace path
unfolding path_join join
join_cases namespace value path seg (inl e) =
    rw (e, seg.nonempty)
      (path_clean-normalize namespace namespace (normalize_segment namespace seg))
join_cases namespace value [] seg (inr normal) =
    rw seg.nonempty (path_clean-normalize namespace namespace (normalize_segment namespace seg))
join_cases namespace value (c ∷ path) seg (inr normal) =
    path_join_below namespace value (c ∷ path) seg normal

-- An effective destination is the cleaned path below the directory of the namespace.
pub effective_destination_path_below :
    (namespace destination path : GoString)
    → IsSegment namespace
    → effective_destination_path namespace destination ≡ ok path
    → (cleaned : GoString) × (clean_relative_path destination ≡ ok cleaned)
      × (path ≡ below namespace cleaned)
unfolding effective_destination_path clean_relative_path
effective_destination_path_below namespace destination path seg h =
    elim (Bool-cases (is_empty destination || str_eq destination (codes "/"))) [
      | inl root ↦ ([], ground arith, ground (arith, seg.nonempty))
      | inr part ↦ elim (Result-cases (clean_relative_path destination)) [
        | inl (cleaned, e) ↦ (
          cleaned,
          e,
          ground (
            arith,
            seg.nonempty,
            join_cases namespace destination cleaned seg
                (clean_relative_path_cases destination cleaned e),
          ),
        )
        | inr (error, e) ↦ absurd (ground (arith, seg.nonempty))
      ]
    ]

-- Where the first '/' stands is where both texts are cut.
cut_equal :
    (a b c d : GoString)
    → contains a b'/' ≡ false
    → contains b b'/' ≡ false
    → a ++ b'/' ∷ c ≡ b ++ b'/' ∷ d
    → (a ≡ b) × (c ≡ d)
unfolding contains
cut_equal [] [] c d h k e = (refl, cc)
cut_equal [] (y ∷ b) c d h k e = absurd (ground arith)
cut_equal (x ∷ a) [] c d h k e = absurd (ground arith)
cut_equal (x ∷ a) (y ∷ b) c d h k e =
    let tail = cut_equal a b c d (ground arith) (ground arith) (ground arith) in
    let head : x ≡ y = ground arith in (cc (head, tail.0), tail.1)

not_below : (a b c : GoString) → contains a b'/' ≡ false → a ≢ b ++ b'/' ∷ c
unfolding contains
not_below [] [] c h e = cc
not_below [] (y ∷ b) c h e = cc
not_below (x ∷ a) [] c h e = ground arith
not_below (x ∷ a) (y ∷ b) c h e = not_below a b c (ground arith) (ground arith)

-- Equal paths below two namespaces come from the same namespace and the same cleaned path.
pub below_equal :
    (n m c d : GoString) → IsSegment n → IsSegment m → below n c ≡ below m d → (n ≡ m) × (c ≡ d)
below_equal n m [] [] s t e = (e, refl)
below_equal n m [] (y ∷ d) s t e = absurd (not_below n m (y ∷ d) s.one_segment e)
below_equal n m (x ∷ c) [] s t e = absurd (not_below m n (x ∷ c) t.one_segment (sym e))
below_equal n m (x ∷ c) (y ∷ d) s t e = cut_equal n m (x ∷ c) (y ∷ d) s.one_segment t.one_segment e
