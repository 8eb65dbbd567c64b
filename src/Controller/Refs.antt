-- ===== src/Controller/Refs.antt =====
-- internal/controller/helpers.go: references between objects, `ResolveObjectReference`, and the
-- namespaces that a machine admits, `namespaceAllowed`; the objects are those of
-- api/v1alpha1/types.go, with the fields that the helpers read.
pub mod Admission
pub mod Names
use kube_rsync_machine.Common.{
  Bool, true, false, ◌&&◌, ◌||◌, List, [], ◌∷◌, ◌++◌, Option, none, some, Result, ok, err, ◌>>◌,
  refuse, if◌then◌else◌, any, not, ◌==◌,
}
use kube_rsync_machine.Common.Int.{ℤ, pos, negsuc}
use kube_rsync_machine.Common.Text.{GoString, codes, is_empty, str_eq}

-- `types.NamespacedName`
pub record NamespacedName : Type 0 where
  pub namespace : GoString
  pub name : GoString

pub record ObjectReference : Type 0 where
  pub namespace : GoString
  pub name : GoString

-- `krmv1alpha1.RetentionPolicy`
pub record RetentionSpec : Type 0 where
  pub hourly : ℤ
  pub daily : ℤ
  pub weekly : ℤ
  pub monthly : ℤ

-- What the helpers read of an `RsyncMachine`.
pub record MachineObject : Type 0 where
  pub namespace : GoString
  pub name : GoString
  pub strategy : GoString
  pub retention : RetentionSpec
  pub allowed_source_namespaces : List GoString
  pub allowed_restore_namespaces : List GoString

-- What the helpers read of a `BackupSource`; `delete` is the optional `spec.rsync.delete`.
pub record BackupSource : Type 0 where
  pub namespace : GoString
  pub name : GoString
  pub machine_ref : ObjectReference
  pub destination_path : GoString
  pub delete : Option Bool

pub data RefError : Type 0 where
  name_required : RefError
  namespace_required : GoString → RefError

-- `NamespacedName.String`
unfoldable pub name_string : NamespacedName → GoString
name_string ref = ref.namespace ++ b'/' ∷ ref.name

-- `==` of two `NamespacedName`
unfoldable pub same_name : NamespacedName → NamespacedName → Bool
same_name a b = str_eq a.namespace b.namespace && str_eq a.name b.name

unfoldable pub namespace_or : ObjectReference → GoString → GoString
namespace_or ref default_namespace =
    if is_empty ref.namespace then default_namespace else ref.namespace

unfoldable pub resolve_object_reference :
    ObjectReference → GoString → Result RefError NamespacedName
unfolding namespace_or
resolve_object_reference ref default_namespace =
    if is_empty ref.name
    then err name_required
    else if is_empty (namespace_or ref default_namespace)
    then err (namespace_required ref.name)
    else ok (record { namespace = namespace_or ref default_namespace; name = ref.name })

-- The cases of the loop in `namespaceAllowed`.
unfoldable pub item_allows : GoString → GoString → GoString → Bool
item_allows machine_namespace namespace item =
    if str_eq item (codes "*")
    then true
    else if str_eq item (codes ".")
    then str_eq namespace machine_namespace
    else str_eq namespace item

abbrev pub or_own : List GoString → List GoString
or_own [] = codes "." ∷ []
or_own (item ∷ items) = item ∷ items

unfoldable pub namespace_allowed : GoString → List GoString → GoString → Bool
unfolding item_allows
namespace_allowed machine_namespace allowed namespace =
    not (is_empty namespace) && any (item_allows machine_namespace namespace) (or_own allowed)

unfoldable pub source_namespace_allowed : MachineObject → GoString → Bool
source_namespace_allowed machine =
    namespace_allowed machine.namespace machine.allowed_source_namespaces

unfoldable pub restore_namespace_allowed : MachineObject → GoString → Bool
restore_namespace_allowed machine =
    namespace_allowed machine.namespace machine.allowed_restore_namespaces

unfoldable pub machine_name : MachineObject → NamespacedName
machine_name machine = record { namespace = machine.namespace; name = machine.name }

unfoldable pub source_name : BackupSource → NamespacedName
source_name source = record { namespace = source.namespace; name = source.name }

-- The reference resolves, to this machine.
abbrev pub refers_to : Result RefError NamespacedName → MachineObject → Bool
unfolding machine_name
refers_to (err e) machine = false
refers_to (ok ref) machine = same_name ref (machine_name machine)

-- The tests that every loop over the sources of a machine begins with.
unfoldable pub admits : MachineObject → BackupSource → Bool
admits machine source =
    refers_to (resolve_object_reference source.machine_ref source.namespace) machine
    && source_namespace_allowed machine source.namespace

unfoldable pub type_or_default : GoString → GoString
type_or_default strategy = if is_empty strategy then codes "Snapshot" else strategy

unfoldable pub is_mirror : MachineObject → Bool
unfolding type_or_default
is_mirror machine = str_eq (type_or_default machine.strategy) (codes "Mirror")

abbrev pub delete_or_default : Option Bool → Bool
delete_or_default none = true
delete_or_default (some delete) = delete

abbrev pub is_zero : ℤ → Bool
is_zero (pos n) = n == 0
is_zero (negsuc n) = false

-- `RetentionPolicy.Empty`
unfoldable pub retention_empty : RetentionSpec → Bool
retention_empty p = is_zero p.hourly && is_zero p.daily && is_zero p.weekly && is_zero p.monthly
