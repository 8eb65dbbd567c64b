-- ===== src/Controller/Destinations/Overlap.antt =====
-- `mirrorPathsOverlap` of internal/controller/helpers.go.
use kube_rsync_machine.Common.{
  ◌≡◌, refl, sym, ap, ◌∙◌, Bool, true, false, ◌&&◌, ◌||◌, List, [], ◌∷◌, ◌++◌, append_assoc, arith,
  All,
}
use kube_rsync_machine.Common.Text.{
  GoString, codes, is_empty, str_eq, str_eq_iff, has_prefix, contains, join,
}
use kube_rsync_machine.Dataplane.Paths.Relative.{IsSegment}
use kube_rsync_machine.Controller.Destinations.{mirror_paths_overlap}

-- The second list of names begins with the first.
abbrev pub starts : List GoString → List GoString → Bool
starts [] qs = true
starts (p ∷ ps) [] = false
starts (p ∷ ps) (q ∷ qs) = str_eq p q && starts ps qs

abbrev slashed : List GoString → GoString
slashed [] = []
slashed (p ∷ ps) = p ++ b'/' ∷ slashed ps

join-slashed :
    (p : GoString) (ps : List GoString) → join b'/' (p ∷ ps) ++ codes "/" ≡ slashed (p ∷ ps)
unfolding join
join-slashed p [] = refl
join-slashed p (q ∷ ps) =
    append_assoc p (b'/' ∷ join b'/' (q ∷ ps)) (codes "/")
    ∙ ap (λ s. p ++ b'/' ∷ s) (join-slashed q ps)

none_starts : (p s : GoString) → has_prefix [] (p ++ b'/' ∷ s) ≡ false
unfolding has_prefix
none_starts [] s = refl
none_starts (c ∷ p) s = refl

no_prefix : (s : GoString) → has_prefix s [] ≡ true
unfolding has_prefix
no_prefix [] = refl
no_prefix (c ∷ s) = refl

-- A first name and what follows it are compared one after the other.
has_prefix_names :
    (p q s t : GoString)
    → contains p b'/' ≡ false
    → contains q b'/' ≡ false
    → has_prefix (q ++ b'/' ∷ t) (p ++ b'/' ∷ s) ≡ (str_eq p q && has_prefix t s)
unfolding has_prefix contains str_eq
has_prefix_names [] [] s t h k = ground arith
has_prefix_names [] (d ∷ q) s t h k = ground arith
has_prefix_names (c ∷ p) [] s t h k = ground arith
has_prefix_names (c ∷ p) (d ∷ q) s t h k = ground (arith, has_prefix_names p q s t)

has_prefix-slashed :
    (ps qs : List GoString)
    → All IsSegment ps
    → All IsSegment qs
    → has_prefix (slashed qs) (slashed ps) ≡ starts ps qs
unfolding has_prefix
has_prefix-slashed [] qs h k = no_prefix (slashed qs)
has_prefix-slashed (p ∷ ps) [] h k = none_starts p (slashed ps)
has_prefix-slashed (p ∷ ps) (q ∷ qs) (h, hs) (k, ks) =
    has_prefix_names p q (slashed ps) (slashed qs) h.one_segment k.one_segment
    ∙ ap (λ b. str_eq p q && b) (has_prefix-slashed ps qs hs ks)

-- The code's two tests are one on paths that end in '/'.
same_or_below :
    (a b : GoString)
    → has_prefix (b ++ codes "/") (a ++ codes "/") ≡ (str_eq a b || has_prefix b (a ++ codes "/"))
unfolding has_prefix str_eq
same_or_below [] [] = ground arith
same_or_below [] (d ∷ b) = ground arith
same_or_below (c ∷ a) [] = ground (arith, none_starts a [])
same_or_below (c ∷ a) (d ∷ b) = ground (arith, same_or_below a b)

join_filled :
    (p : GoString) (ps : List GoString) → IsSegment p → is_empty (join b'/' (p ∷ ps)) ≡ false
unfolding join
join_filled [] ps seg = absurd (ground (arith, seg.nonempty))
join_filled (c ∷ p) [] seg = refl
join_filled (c ∷ p) (q ∷ ps) seg = refl

below_iff :
    (p : GoString) (ps : List GoString) (q : GoString) (qs : List GoString)
    → All IsSegment (p ∷ ps)
    → All IsSegment (q ∷ qs)
    → (str_eq (join b'/' (p ∷ ps)) (join b'/' (q ∷ qs))
        || has_prefix (join b'/' (q ∷ qs)) (join b'/' (p ∷ ps) ++ codes "/"))
      ≡ starts (p ∷ ps) (q ∷ qs)
below_iff p ps q qs h k =
    sym (same_or_below (join b'/' (p ∷ ps)) (join b'/' (q ∷ qs)))
    ∙ rw (join-slashed p ps, join-slashed q qs) (has_prefix-slashed (p ∷ ps) (q ∷ qs) h k)

-- Two clean paths overlap exactly if the names of one begin with the names of the other; the empty
-- path is the root, which overlaps all.
pub mirror_paths_overlap_iff :
    (xs ys : List GoString)
    → All IsSegment xs
    → All IsSegment ys
    → mirror_paths_overlap (join b'/' xs) (join b'/' ys) ≡ (starts xs ys || starts ys xs)
unfolding mirror_paths_overlap join
mirror_paths_overlap_iff [] ys h k = refl
mirror_paths_overlap_iff (p ∷ ps) [] h k = rw (join_filled p ps h.0) refl
mirror_paths_overlap_iff (p ∷ ps) (q ∷ qs) h k = ground (
  arith,
  join_filled p ps h.0,
  join_filled q qs k.0,
  below_iff p ps q qs h k,
  below_iff q qs p ps k h,
  str_eq_iff (join b'/' (p ∷ ps)) (join b'/' (q ∷ qs)),
  str_eq_iff (join b'/' (q ∷ qs)) (join b'/' (p ∷ ps)),
)

pub mirror_paths_overlap_comm :
    (a b : GoString) → mirror_paths_overlap a b ≡ mirror_paths_overlap b a
unfolding mirror_paths_overlap
mirror_paths_overlap_comm a b = ground (arith, str_eq_iff a b, str_eq_iff b a)
