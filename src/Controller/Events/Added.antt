-- ===== src/Controller/Events/Added.antt =====
-- The slave pods that the mount handler completes (MutationPodFunc of pkg/server/mounter/util.go)
-- and OnAdd of pkg/controller/pod_controller.go.
use device_mounter.Base.{
  String, true, false, Bool, not, ◌&&◌, Option, none, some, ◌≡◌, refl, ◌∙◌, ap, eqs, eqs_refl,
  arith, string_dec, if◌then◌else◌,
}
use device_mounter.Base.Dict.{Dict, lookup, has_key, at_key}
use device_mounter.Api.{
  Container, Pod, device_type_annotation, container_id_annotation, owner_name_label,
  created_by_label, owner_uid_label, mount_container_label, app_component_label,
  app_managed_by_label, create_manager_by,
}
use device_mounter.Server.Cluster.{Cluster}
use device_mounter.Server.Pods.{mutation_pod}
use device_mounter.Server.Pods.Labels.{
  lookup-insert_same, lookup-insert_other, at_key-lookup, mutation_pod-selected,
}
use device_mounter.Controller.{Key}
use device_mounter.Controller.Repair.{is_nil, pod_label_keys, pod_anno_keys}
use device_mounter.Controller.Repair.Kept.{is_nil-insert}
use device_mounter.Controller.Events.{pod_key, contains_keys, on_add}

has_key-lookup : (k v : String) (m : Dict String) → lookup k m ≡ some v → has_key k m ≡ true
has_key-lookup k v m h = ap (λ o. elim o [ none ↦ false | some x ↦ true ]) h

-- Every test that `OnAdd` makes of a pod.
pub record IsComplete (pod : Pod) : Type 0 where
  pub labelled : is_nil pod.labels ≡ false
  pub annotated : is_nil pod.annotations ≡ false
  pub annotations : contains_keys pod_anno_keys pod.annotations ≡ true
  pub labels : contains_keys pod_label_keys pod.labels ≡ true
  pub component : at_key app_component_label pod.labels ≡ create_manager_by
  pub manager : at_key app_managed_by_label pod.labels ≡ create_manager_by

passes : (b : Bool) (x : Option Key) → b ≡ false → (if b then none else x) ≡ x
passes true x h = absurd (ground arith)
passes false x h = refl

passes_text : (s t : String) (x : Option Key) → s ≡ t → (if not (eqs s t) then none else x) ≡ x
passes_text s t x h = passes (not (eqs s t)) x (ap not (ap (λ r. eqs r t) h ∙ eqs_refl t))

and_true : (a b : Bool) → a ≡ true → b ≡ true → (a && b) ≡ true
and_true a b h k = ground arith

on_add_complete : (pod : Pod) → IsComplete pod → on_add (some pod) ≡ some (pod_key pod)
unfolding on_add
on_add_complete pod h =
    passes (is_nil pod.labels) _ h.labelled
    ∙ passes (is_nil pod.annotations) _ h.annotated
    ∙ passes (not (contains_keys pod_anno_keys pod.annotations)) _ (ap not h.annotations)
    ∙ passes (not (contains_keys pod_label_keys pod.labels)) _ (ap not h.labels)
    ∙ passes_text (at_key app_component_label pod.labels) create_manager_by _ h.component
    ∙ passes_text (at_key app_managed_by_label pod.labels) create_manager_by _ h.manager

module _ (c : Cluster) where
  -- `OnAdd` enqueues the key of every slave pod that the mount handler completes.
  pub on_add-mutation_pod :
      (uuid dev_type : String) (container : Container) (owner_pod pod : Pod)
      → on_add (some (mutation_pod c uuid dev_type container owner_pod pod))
        ≡ some (record { namespace = owner_pod.namespace; name = pod.name })
  unfolding mutation_pod string_dec
  on_add-mutation_pod uuid dev_type container owner_pod pod =
      let selected = (mutation_pod-selected c uuid dev_type container owner_pod pod).0 in
      on_add_complete (mutation_pod c uuid dev_type container owner_pod pod) (record {
        labelled = is_nil-insert _ _ _;
        annotated = is_nil-insert _ _ _;
        annotations =
            and_true _ _
              (has_key-lookup device_type_annotation dev_type _ (
                lookup-insert_other device_type_annotation container_id_annotation _ _ _ refl
                  (lookup-insert_same device_type_annotation dev_type _)))
              (and_true _ _
                (has_key-lookup container_id_annotation _ _
                  (lookup-insert_same container_id_annotation _ _))
                refl);
        labels = and_true _ _ (has_key-lookup owner_name_label _ _ selected.0) (
            and_true _ _ (has_key-lookup owner_uid_label _ _ selected.1.0) (
              and_true _ _
                (has_key-lookup created_by_label uuid _ (
                  lookup-insert_other created_by_label app_managed_by_label _ _ _ refl (
                    lookup-insert_other created_by_label app_component_label _ _ _ refl (
                      lookup-insert_other created_by_label mount_container_label _ _ _ refl (
                        lookup-insert_other created_by_label owner_uid_label _ _ _ refl (
                          lookup-insert_other created_by_label owner_name_label _ _ _ refl
                            (lookup-insert_same created_by_label uuid _)))))))
                (and_true _ _ (has_key-lookup mount_container_label _ _ selected.1.1.0) refl)));
        component = at_key-lookup _ _ _ (
            lookup-insert_other app_component_label app_managed_by_label _ _ _ refl
              (lookup-insert_same app_component_label create_manager_by _));
        manager = at_key-lookup _ _ _ (lookup-insert_same app_managed_by_label create_manager_by _);
      })
