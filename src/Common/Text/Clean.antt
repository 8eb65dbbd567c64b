-- ===== src/Common/Text/Clean.antt =====
-- `path.Clean` and `path.Join` on texts of bytes.
use mathlib.Core.Path.{◌≡◌, refl}
use mathlib.Core.Bool.{Bool, false, not, ◌||◌}
use mathlib.Core.List.{List, [], ◌∷◌, ◌++◌, append-nil}
use mathlib.Core.Logic.{inl, inr}
use kube_rsync_machine.Common.Tests.{if◌then◌else◌, Bool-cases}
use kube_rsync_machine.Common.Lists.{All, keep_if}
use kube_rsync_machine.Common.Text.Equal.{GoString, str_eq, is_empty, codes}
use kube_rsync_machine.Common.Text.Prefix.{has_prefix}
use kube_rsync_machine.Common.Text.Split.{split, join}

-- Neither "" nor "."
abbrev pub is_named : GoString → Bool
is_named part = not (is_empty part || str_eq part (codes "."))

abbrev pub rev_onto : List GoString → List GoString → List GoString
rev_onto [] ys = ys
rev_onto (x ∷ xs) ys = rev_onto xs (x ∷ ys)

-- What ".." does to the names kept so far, the last one first.
step_up : Bool → List GoString → List GoString
step_up rooted [] = if rooted then [] else codes ".." ∷ []
step_up rooted (name ∷ names) =
    if str_eq name (codes "..") then codes ".." ∷ name ∷ names else names

clean_onto : Bool → List GoString → List GoString → List GoString
unfolding step_up
clean_onto rooted names [] = names
clean_onto rooted names (part ∷ parts) =
    clean_onto rooted
      (if is_named part
        then (if str_eq part (codes "..") then step_up rooted names else part ∷ names)
        else names)
      parts

abbrev pub or_dot : List GoString → GoString
or_dot [] = codes "."
or_dot (p ∷ ps) = join b'/' (p ∷ ps)

unfoldable pub path_clean : GoString → GoString
unfolding clean_onto
path_clean value =
    let rooted = has_prefix value (codes "/") in
    let names = rev_onto (clean_onto rooted [] (split b'/' value)) [] in
    if rooted then b'/' ∷ join b'/' names else or_dot names

abbrev or_empty : List GoString → GoString
or_empty [] = []
or_empty (p ∷ ps) = path_clean (join b'/' (p ∷ ps))

-- `path.Join(parts...)`, which passes over empty parts.
unfoldable pub path_join : List GoString → GoString
path_join parts = or_empty (keep_if (λ part. not (is_empty part)) parts)

rev_onto_back : (xs ys zs : List GoString) → rev_onto (rev_onto xs ys) zs ≡ rev_onto ys (xs ++ zs)
rev_onto_back [] ys zs = refl
rev_onto_back (x ∷ xs) ys zs = rev_onto_back xs (x ∷ ys) zs

-- Without "..", what is left are the named parts.
clean_onto_named :
    (rooted : Bool) (names parts : List GoString)
    → All (λ p. str_eq p (codes "..") ≡ false) parts
    → clean_onto rooted names parts ≡ rev_onto (keep_if is_named parts) names
unfolding clean_onto
clean_onto_named rooted names [] h = refl
clean_onto_named rooted names (part ∷ parts) (down, h) = elim (Bool-cases (is_named part)) [
  | inl e ↦ rw (e, down) (clean_onto_named rooted (part ∷ names) parts h)
  | inr e ↦ rw e (clean_onto_named rooted names parts h)
]

-- A relative path without "..": its named parts, or ".".
pub path_clean_relative :
    (value : GoString)
    → has_prefix value (codes "/") ≡ false
    → All (λ p. str_eq p (codes "..") ≡ false) (split b'/' value)
    → path_clean value ≡ or_dot (keep_if is_named (split b'/' value))
unfolding path_clean
path_clean_relative value relative h =
    rw
      (
        relative,
        clean_onto_named false [] (split b'/' value) h,
        rev_onto_back (keep_if is_named (split b'/' value)) [] [],
        append-nil (keep_if is_named (split b'/' value)),
      )
      refl
