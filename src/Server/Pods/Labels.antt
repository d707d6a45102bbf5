-- ===== src/Server/Pods/Labels.antt =====
-- The marks that `MutationPodFunc` (pkg/server/mounter/util.go) puts on a slave pod are those by which
-- `GetSlavePods` finds it.
use device_mounter.Base.{
  String, true, false, Option, none, some, [], ◌∷◌, ◌≡◌, refl, ◌∙◌, ap, arith, All, eqs, eqs_refl,
  string_dec,
}
use device_mounter.Base.Dict.{Dict, lookup, insert, lookup-insert, at_key}
use device_mounter.Api.{
  Container, Pod, device_type_annotation, container_id_annotation, owner_name_label,
  owner_uid_label, mount_container_label, app_component_label, app_managed_by_label,
}
use device_mounter.Server.Cluster.{Cluster}
use device_mounter.Server.Pods.{slave_selector, has_device_type, mutation_pod}

pub lookup-insert_other :
    {V : Type 0} (j k : String) (v : V) (m : Dict V) (found : Option V)
    → eqs j k ≡ false
    → lookup j m ≡ found
    → lookup j (insert k v m) ≡ found
lookup-insert_other j k v m found other h = lookup-insert j k v m ∙ rw other h

pub lookup-insert_same :
    {V : Type 0} (k : String) (v : V) (m : Dict V) → lookup k (insert k v m) ≡ some v
lookup-insert_same k v m = lookup-insert k k v m ∙ rw (eqs_refl k) refl

pub at_key-lookup : (k v : String) (m : Dict String) → lookup k m ≡ some v → at_key k m ≡ v
at_key-lookup k v m h = ap {A = Option String} (λ o. elim o [ none ↦ "" | some x ↦ x ]) h

has_device_type-lookup :
    (type : String) (pod : Pod)
    → lookup device_type_annotation pod.annotations ≡ some type
    → has_device_type type pod ≡ true
unfolding lookup
has_device_type-lookup type pod h = go pod.annotations h
  where
    go :
        (annotations : Dict String)
        → lookup device_type_annotation annotations ≡ some type
        → has_device_type type (record pod { annotations = annotations }) ≡ true
    go [] e = absurd (ground arith)
    go (a ∷ rest) e =
        ap (λ s. eqs s type) (at_key-lookup device_type_annotation type (a ∷ rest) e)
        ∙ eqs_refl type

module _ (c : Cluster) where
  -- A pod that the handler completes for a container is selected by the labels with which the slave
  -- pods of that container are listed, in the namespace in which they are listed, and passes the
  -- test of the device type.
  pub mutation_pod-selected :
      (uuid dev_type : String) (container : Container) (owner_pod pod : Pod)
      → let slave = mutation_pod c uuid dev_type container owner_pod pod in
        All
          (λ (key, value). lookup key slave.labels ≡ some value)
          (slave_selector owner_pod container)
        × (slave.namespace ≡ owner_pod.namespace)
        × (has_device_type dev_type slave ≡ true)
  unfolding mutation_pod string_dec
  mutation_pod-selected uuid dev_type container owner_pod pod = (
    (
      lookup-insert_other owner_name_label app_managed_by_label _ _ _ refl (
          lookup-insert_other owner_name_label app_component_label _ _ _ refl (
            lookup-insert_other owner_name_label mount_container_label _ _ _ refl (
              lookup-insert_other owner_name_label owner_uid_label _ _ _ refl
                (lookup-insert_same owner_name_label owner_pod.name _)))),
      (
        lookup-insert_other owner_uid_label app_managed_by_label _ _ _ refl (
            lookup-insert_other owner_uid_label app_component_label _ _ _ refl (
              lookup-insert_other owner_uid_label mount_container_label _ _ _ refl
                (lookup-insert_same owner_uid_label owner_pod.uid _))),
        (
          lookup-insert_other mount_container_label app_managed_by_label _ _ _ refl (
              lookup-insert_other mount_container_label app_component_label _ _ _ refl
                (lookup-insert_same mount_container_label container.name _)),
          tt,
        ),
      ),
    ),
    refl,
    has_device_type-lookup dev_type (mutation_pod c uuid dev_type container owner_pod pod) (
        lookup-insert_other device_type_annotation container_id_annotation _ _ _ refl
          (lookup-insert_same device_type_annotation dev_type _)),
  )
