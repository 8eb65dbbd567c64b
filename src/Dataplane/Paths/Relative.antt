-- ===== src/Dataplane/Paths/Relative.antt =====
-- `NormalizeRelativePath` of internal/dataplane/snapshot.go.
use kube_rsync_machine.Common.{
  ◌≡◌, ◌≢◌, refl, Bool, true, false, not, List, [], ◌∷◌, ok, err, keep_if, any, arith, All, All-imp,
  Bool-cases, Result-cases, inl, inr,
}
use kube_rsync_machine.Common.Text.{
  GoString, is_empty, str_eq, str_eq_iff, has_prefix, contains, split, join,
}
use kube_rsync_machine.Common.Text.Split.{
  split-Lacks, split-join, split-Lacks_other, join-Lacks, Lacks,
}
use kube_rsync_machine.Dataplane.Paths.{
  above_root, slash, backslash, dot, dot_dot, root_path, is_skipped, clean_parts,
  normalize_relative_path,
}

-- A directory entry's name: it names no other directory than a child.
pub record IsSegment (p : GoString) : Type 0 where
  pub nonempty : is_empty p ≡ false
  pub not_here : p ≢ dot
  pub not_parent : p ≢ dot_dot
  pub one_segment : contains p slash ≡ false
  pub no_backslash : contains p backslash ≡ false

-- The part does not survive the loop, or the loop keeps it.
clean_part :
    (part : GoString)
    → contains part slash ≡ false
    → contains part backslash ≡ false
    → is_skipped part ≡ false
    → str_eq part dot_dot ≡ false
    → IsSegment part
unfolding is_skipped
clean_part part s b k d = record {
  nonempty = ground arith;
  not_here = λ e. ground (arith, str_eq_iff part dot);
  not_parent = λ e. ground (arith, str_eq_iff part dot_dot);
  one_segment = s;
  no_backslash = b;
}

abbrev pub kept : GoString → Bool
kept part = not (is_skipped part)

-- The loop keeps the parts other than "" and ".", all of them names of children.
clean_parts_sound :
    (parts cleaned : List GoString)
    → All (Lacks slash) parts
    → All (Lacks backslash) parts
    → clean_parts parts ≡ ok cleaned
    → All IsSegment cleaned × (cleaned ≡ keep_if kept parts)
unfolding clean_parts
clean_parts_sound [] cleaned s b h = ground arith
clean_parts_sound (part ∷ parts) cleaned s b h = elim (Bool-cases (is_skipped part)) [
  | inl skip ↦ rw skip (clean_parts_sound parts cleaned s.1 b.1 (rw skip at h))
  | inr keep ↦ elim (Bool-cases (str_eq part dot_dot)) [
    | inl up ↦ absurd (ground arith)
    | inr down ↦ elim (Result-cases (clean_parts parts)) [
      | inl (rest, e) ↦
          let below = clean_parts_sound parts rest s.1 b.1 e in
          let here = clean_part part s.0 b.0 keep down in ground (arith, below, here)
      | inr (error, e) ↦ absurd (ground arith)
    ]
  ]
]

clean_parts_fixed : (ps : List GoString) → All IsSegment ps → clean_parts ps ≡ ok ps
unfolding clean_parts is_skipped
clean_parts_fixed [] h = refl
clean_parts_fixed (p ∷ ps) (seg, h) = ground (
  arith,
  clean_parts_fixed ps h,
  str_eq_iff p dot,
  str_eq_iff p dot_dot,
  seg.nonempty,
  seg.not_here,
  seg.not_parent,
)

clean_parts_refuses :
    (parts : List GoString)
    → any (λ p. str_eq p dot_dot) parts ≡ true
    → clean_parts parts ≡ err above_root
unfolding clean_parts is_skipped
clean_parts_refuses [] h = cc
clean_parts_refuses (p ∷ ps) h =
    ground (arith, clean_parts_refuses ps, str_eq_iff p dot, str_eq_iff p dot_dot)

-- A normalized path is one or more names joined by '/': those of the input's parts that are
-- neither empty nor ".". None of them is "..", so the path stays below the directory it starts in.
pub normalize_relative_path_sound :
    (value path : GoString)
    → normalize_relative_path value ≡ ok path
    → (names : List GoString) × (path ≡ join slash names)
      × (names ≡ keep_if kept (split slash value))
      × (names ≢ [])
      × All IsSegment names
unfolding normalize_relative_path
normalize_relative_path_sound value path h = elim (Result-cases (clean_parts (split slash value))) [
  | inl (names, e) ↦
      let sound =
        clean_parts_sound (split slash value) names (split-Lacks slash value)
          (split-Lacks_other slash backslash value (ground arith)) e in
      (names, ground arith, sound.1, ground arith, sound.0)
  | inr (error, e) ↦ absurd (ground arith)
]

pub All-one_segment : (names : List GoString) → All IsSegment names → All (Lacks slash) names
All-one_segment = All-imp (λ p seg. seg.one_segment)

All-no_backslash : (names : List GoString) → All IsSegment names → All (Lacks backslash) names
All-no_backslash = All-imp (λ p seg. seg.no_backslash)

-- A path of names neither is empty nor begins with '/'.
join_relative :
    (p : GoString) (ps : List GoString)
    → IsSegment p
    → (is_empty (join slash (p ∷ ps)) ≡ false)
      × (has_prefix (join slash (p ∷ ps)) root_path ≡ false)
unfolding join has_prefix contains
join_relative [] ps seg = absurd (ground (arith, seg.nonempty))
join_relative (c ∷ p) [] seg = (refl, ground (arith, seg.one_segment))
join_relative (c ∷ p) (q ∷ ps) seg = (refl, ground (arith, seg.one_segment))

-- A path that is made of names joined by '/' is accepted and is left as it is.
pub normalize_relative_path_names :
    (names : List GoString)
    → names ≢ []
    → All IsSegment names
    → normalize_relative_path (join slash names) ≡ ok (join slash names)
unfolding normalize_relative_path
normalize_relative_path_names [] ne h = absurd (ne refl)
normalize_relative_path_names (p ∷ ps) ne h = ground (
  arith,
  (join_relative p ps h.0).0,
  (join_relative p ps h.0).1,
  join-Lacks slash backslash (p ∷ ps) refl (All-no_backslash (p ∷ ps) h),
  split-join slash (p ∷ ps) ne (All-one_segment (p ∷ ps) h),
  clean_parts_fixed (p ∷ ps) h,
)

-- Normalizing once is enough: a normalized path is accepted again and does not change.
pub normalize_relative_path_idem :
    (value path : GoString)
    → normalize_relative_path value ≡ ok path
    → normalize_relative_path path ≡ ok path
normalize_relative_path_idem value path h =
    let (names, e, _, ne, segs) = normalize_relative_path_sound value path h in
    rw e (normalize_relative_path_names names ne segs)

-- A path with a ".." among its parts is refused.
pub normalize_relative_path_refuses :
    (value path : GoString)
    → any (λ p. str_eq p dot_dot) (split slash value) ≡ true
    → normalize_relative_path value ≢ ok path
unfolding normalize_relative_path
normalize_relative_path_refuses value path h e =
    ground (arith, clean_parts_refuses (split slash value) h)
