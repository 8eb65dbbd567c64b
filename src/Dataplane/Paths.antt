-- ===== src/Dataplane/Paths.antt =====
-- internal/dataplane/snapshot.go: `NormalizeRelativePath`, `NormalizeTargetSubpath`,
-- `NormalizeDestinationPath` and `validateRunID`. Error texts are constructors of `PathError`.
pub mod Relative
pub mod Destination
pub mod RunId
use kube_rsync_machine.Common.{
  ℕ, ◌≡◌, ◌≢◌, Bool, true, false, not, ◌&&◌, ◌||◌, List, [], ◌∷◌, ◌++◌, Result, ok, err, ◌>>=◌,
  ◌>>◌, refuse, map_err, if◌then◌else◌, any,
}
use kube_rsync_machine.Common.Text.{
  GoString, codes, is_empty, str_eq, has_prefix, contains, split, join,
}

pub data PathError : Type 0 where
  empty_path absolute_path backslash_separator above_root no_segment : PathError
  many_segments : PathError
  invalid_namespace invalid_destination : PathError → PathError

abbrev pub slash : ℕ
slash = b'/'

abbrev pub backslash : ℕ
backslash = b'\\'

abbrev pub dot : GoString
dot = b'.' ∷ []

abbrev pub dot_dot : GoString
dot_dot = b'.' ∷ b'.' ∷ []

abbrev pub root_path : GoString
root_path = slash ∷ []

-- `case "", ".":`
unfoldable pub is_skipped : GoString → Bool
is_skipped part = is_empty part || str_eq part dot

-- The loop over the parts of the path; the parts kept, in order.
unfoldable pub clean_parts : List GoString → Result PathError (List GoString)
clean_parts [] = ok []
clean_parts (part ∷ parts) =
    let rest = clean_parts parts in
    if is_skipped part
    then rest
    else if str_eq part dot_dot
    then err above_root
    else (rest >>= λ cleaned. ok (part ∷ cleaned))

abbrev pub is_nil : List GoString → Bool
is_nil [] = true
is_nil (part ∷ parts) = false

unfoldable pub normalize_relative_path : GoString → Result PathError GoString
unfolding clean_parts is_skipped
normalize_relative_path value = do
  refuse (is_empty value) empty_path
  refuse (has_prefix value root_path) absolute_path
  refuse (contains value backslash) backslash_separator
  cleaned ← clean_parts (split slash value)
  refuse (is_nil cleaned) no_segment
  ok (join slash cleaned)

unfoldable pub normalize_target_subpath : GoString → Result PathError GoString
unfolding normalize_relative_path
normalize_target_subpath value =
    if is_empty value || str_eq value dot || str_eq value root_path
    then ok []
    else normalize_relative_path value

-- The end of `NormalizeDestinationPath`, under the normalized namespace.
unfoldable pub destination_below : GoString → GoString → Result PathError GoString
destination_below prefix destination =
    if is_empty destination || str_eq destination root_path
    then ok prefix
    else (map_err invalid_destination (normalize_relative_path destination) >>= λ below.
        ok (prefix ++ slash ∷ below))

unfoldable pub normalize_destination_path : GoString → GoString → Result PathError GoString
unfolding destination_below
normalize_destination_path namespace destination = do
  prefix ← map_err invalid_namespace (normalize_relative_path namespace)
  refuse (contains prefix slash) many_segments
  destination_below prefix destination

pub data RunIdError : Type 0 where
  run_id_required invalid_run_id : RunIdError

-- `validateRunID`: `strings.ContainsAny(runID, "\r\n=")` is three searches.
unfoldable pub validate_run_id : GoString → Result RunIdError (Unit {0})
validate_run_id run_id = do
  refuse (is_empty run_id) run_id_required
  normalized ← map_err (λ e. invalid_run_id) (normalize_relative_path run_id)
  refuse
      (not (str_eq normalized run_id)
        || contains run_id slash
        || contains run_id b'\r'
        || contains run_id b'\n'
        || contains run_id b'=')
      invalid_run_id
