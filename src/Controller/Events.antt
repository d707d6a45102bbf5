-- ===== src/Controller/Events.antt =====
-- pkg/controller/pod_controller.go: OnAdd, OnUpdate and OnDelete of the pod informer.
pub mod Added
pub mod Kept
use device_mounter.Base.{
  ℕ, String, Bool, true, false, not, ◌&&◌, Option, none, some, List, [], ◌∷◌, eqs, every,
  if◌then◌else◌,
}
use device_mounter.Base.Dict.{Dict, has_key, at_key}
use device_mounter.Api.{
  Pod, OwnerReference, app_component_label, app_managed_by_label, create_manager_by,
}
use device_mounter.Controller.{Key, Metadata, no_metadata, Codec, MetadataCache, delete, set}
use device_mounter.Controller.Repair.{pod_label_keys, pod_anno_keys, is_nil, same_map, same_owners}

-- `client.ObjectKey{Namespace: …, Name: …}`
abbrev pub pod_key : Pod → Key
pod_key pod = record { namespace = pod.namespace; name = pod.name }

-- `containsKeys`
abbrev pub contains_keys : List String → Dict String → Bool
contains_keys [] m = true
contains_keys (key ∷ keys) m = has_key key m && contains_keys keys m

-- The object of an event, where it has metadata: `meta.Accessor`.
abbrev pub Object : Type 0
Object = Option Pod

-- `OnAdd`: the key added to the queue of new pods.
unfoldable pub on_add : Object → Option Key
on_add none = none
on_add (some pod) =
    if is_nil pod.labels
    then none
    else if is_nil pod.annotations
    then none
    else if not (contains_keys pod_anno_keys pod.annotations)
    then none
    else if not (contains_keys pod_label_keys pod.labels)
    then none
    else if not (eqs (at_key app_component_label pod.labels) create_manager_by)
    then none
    else if not (eqs (at_key app_managed_by_label pod.labels) create_manager_by)
    then none
    else some (pod_key pod)

-- The old part if the new one differs.
abbrev pub unless_same {ℓ} : {A : Type ℓ} → Bool → List A → List A
unless_same true old = []
unless_same false old = old

-- The metadata that `metadataFixEnqueue` keeps.
unfoldable pub changed_metadata : Pod → Pod → Metadata
changed_metadata old new = record {
  labels = unless_same (same_map old.labels new.labels) old.labels;
  annotations = unless_same (same_map old.annotations new.annotations) old.annotations;
  owner_references =
      unless_same (same_owners old.owner_references new.owner_references) old.owner_references;
}

-- `reflect.DeepEqual(metadata, Metadata{})`: all three parts are nil.
abbrev pub is_empty : Metadata → Bool
is_empty metadata = elim (metadata.owner_references) [
  | [] ↦ is_nil metadata.labels && is_nil metadata.annotations
  | o ∷ owners ↦ false
]

module _ (codec : Codec) where
  -- `metadataFixEnqueue`: the cache, and the key added to the queue of repairs.
  unfoldable pub metadata_fix_enqueue : MetadataCache → Pod → Pod → MetadataCache × Option Key
  metadata_fix_enqueue cache old new =
      if eqs old.resource_version new.resource_version
      then (cache, none)
      else if is_empty (changed_metadata old new)
      then (cache, none)
      else (set codec cache (pod_key old) (changed_metadata old new), some (pod_key old))

  -- `OnUpdate`
  unfoldable pub on_update : MetadataCache → Object → Object → MetadataCache × Option Key
  unfolding metadata_fix_enqueue
  on_update cache none new = (cache, none)
  on_update cache (some old) new =
      if is_nil old.labels
      then (cache, none)
      else if is_nil old.annotations
      then (cache, none)
      else elim new [ none ↦ (cache, none) | some pod ↦ metadata_fix_enqueue cache old pod ]

-- What `OnDelete` is given: a pod, a pod or a key whose deletion was not observed, or something else.
pub data Deleted : Type 0 where
  pod : Pod → Deleted
  unobserved_pod : Pod → Deleted
  -- The parts of the key between the separators.
  unobserved_key : List String → Deleted
  other : Deleted

-- `OnDelete`; the parts of a key are those of `strings.Split`.
unfoldable pub on_delete : MetadataCache → Deleted → MetadataCache
on_delete cache (pod p) = delete cache (pod_key p)
on_delete cache (unobserved_pod p) = delete cache (pod_key p)
on_delete cache (unobserved_key []) = cache
on_delete cache (unobserved_key (a ∷ [])) = cache
on_delete cache (unobserved_key (namespace ∷ name ∷ [])) =
    delete cache (record { namespace = namespace; name = name })
on_delete cache (unobserved_key (a ∷ b ∷ c ∷ rest)) = cache
on_delete cache other = cache
