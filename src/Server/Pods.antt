-- ===== src/Server/Pods.antt =====
-- pkg/server/mounter/util.go: the target pod, the slave pods and their clean-up.
pub mod Labels
use device_mounter.Base.{
  String, ◌<>◌, Bool, false, Option, none, some, List, [], ◌∷◌, ◌++◌, map, eqs, keep, if◌then◌else◌,
}
use device_mounter.Base.Dict.{Dict, insert, at_key}
use device_mounter.Api.{
  GoError, mounter_error, not_found_error, other_error, ResultCode, Result, ok, err, Container,
  ObjectKey, Pod, PodContainer, ContainerStatus, OwnerReference, key_of, device_type_annotation,
  container_id_annotation, created_by_label, owner_name_label, owner_uid_label,
  mount_container_label, app_component_label, app_managed_by_label, create_manager_by,
}
use device_mounter.Server.World.{
  World, Exec, tick, log, pure, raise, lift, ask, pod_created, pdb_created, pod_deleted, ◌>>=◌,
}
use device_mounter.Server.Cluster.{Cluster}

-- A handler that answers `NotFound` at once instead of passing the error on.
abbrev pub as_answer : {A : Type 0} → Result A → Result A
as_answer (ok a) = ok a
as_answer (err (not_found_error m)) = err (mounter_error ResultCode.not_found m)
as_answer (err (mounter_error code m)) = err (mounter_error code m)
as_answer (err (other_error m)) = err (other_error m)

abbrev pub answer_not_found : {A : Type 0} → Exec A → Exec A
answer_not_found m w = let (r, w') = m w in (as_answer r, w')

-- `Owner`, of which the code sets the controller flag.
abbrev pub owner : Pod → Bool → List OwnerReference
owner pod controller = record { name = pod.name; uid = pod.uid; controller = controller } ∷ []

-- The labels by which the slave pods of a container are found.
abbrev pub slave_selector : Pod → Container → Dict String
slave_selector owner_pod container =
    (owner_name_label, owner_pod.name)
    ∷ (owner_uid_label, owner_pod.uid)
    ∷ (mount_container_label, container.name)
    ∷ []

abbrev pub has_device_type : String → Pod → Bool
has_device_type dev_type pod = elim (pod.annotations) [
  | [] ↦ false
  | a ∷ rest ↦ eqs (at_key device_type_annotation (a ∷ rest)) dev_type
]

-- `getContainerId` in `MutationPodFunc`.
abbrev pub container_id : List ContainerStatus → String → String
container_id [] name = ""
container_id (s ∷ statuses) name =
    if eqs s.name name then s.container_id else container_id statuses name

module _ (c : Cluster) where
  -- `GetTargetPod`
  unfoldable pub get_target_pod : String → String → Exec Pod
  get_target_pod name namespace = do
    pod ← ask (λ w. c.api_get_pod w namespace name)
    if eqs pod.node_name c.node_name
        then pure pod
        else raise (other_error ("target pod is not running on the node <" <> (c.node_name <> ">")))

  -- `GetSlavePods`
  unfoldable pub get_slave_pods : String → Pod → Container → Exec (List Pod)
  get_slave_pods dev_type owner_pod container = do
    pods ← ask (λ w. c.list_pods w owner_pod.namespace (slave_selector owner_pod container))
    pure (keep (has_device_type dev_type) pods)

  abbrev set_image : PodContainer → PodContainer
  set_image container = record container {
    image = c.slave_image;
    image_pull_policy = c.slave_pull_policy;
  }

  -- `MutationPodFunc`; the identifier is `uuid.New()`.
  unfoldable pub mutation_pod : String → String → Container → Pod → Pod → Pod
  mutation_pod uuid dev_type container owner_pod pod = record pod {
    deletion_timestamp = false;
    namespace = owner_pod.namespace;
    annotations =
        insert container_id_annotation (container_id owner_pod.container_statuses container.name)
          (insert device_type_annotation dev_type pod.annotations);
    node_selector = insert "kubernetes.io/hostname" c.node_name pod.node_selector;
    labels = insert app_managed_by_label create_manager_by (
        insert app_component_label create_manager_by (
          insert mount_container_label container.name (
            insert owner_uid_label owner_pod.uid
              (insert owner_name_label owner_pod.name (insert created_by_label uuid pod.labels)))));
    owner_references = owner owner_pod false;
    containers = map set_image pod.containers;
    grace_period = some 0;
  }

  -- `PatchPod`
  unfoldable pub patch_pod : Pod → List String → Result Pod
  patch_pod pod [] = ok pod
  patch_pod pod (p ∷ patches) = c.apply_patches (p ∷ patches) pod

  -- The loop that patches and completes each template.
  unfoldable pub complete_pods : String → Container → Pod → List String → List Pod → Exec (List Pod)
  unfolding patch_pod mutation_pod
  complete_pods dev_type container owner_pod patches [] = pure []
  complete_pods dev_type container owner_pod patches (pod ∷ pods) = do
    patched ← lift (patch_pod pod patches)
    uuid ← ask (λ w. ok (c.new_uuid w))
    rest ← complete_pods dev_type container owner_pod patches pods
    pure (mutation_pod uuid dev_type container owner_pod patched ∷ rest)

  -- After the creation of one pod; `continue` is the rest of the loop. A failure to create the
  -- disruption budget is only logged.
  abbrev pub on_created :
      (List ObjectKey → World → List ObjectKey × Option GoError × World)
      → List ObjectKey
      → Result Pod
      → World
      → List ObjectKey × Option GoError × World
  on_created continue keys (err e) w = (keys, some e, tick w)
  on_created continue keys (ok pod) w =
      continue (keys ++ key_of pod ∷ [])
        (log (pdb_created (key_of pod)) (log (pod_created (key_of pod)) w))

  -- The loop that creates the pods: the keys created, and the error that broke it off.
  unfoldable pub create_pods :
      List Pod → List ObjectKey → World → List ObjectKey × Option GoError × World
  create_pods [] keys w = (keys, none, w)
  create_pods (pod ∷ pods) keys w = on_created (create_pods pods) keys (c.create_pod w pod) w

  -- `GarbageCollectionPods`: the keys whose deletion failed.
  unfoldable pub garbage_collection_pods : List ObjectKey → World → List ObjectKey × World
  garbage_collection_pods [] w = ([], w)
  garbage_collection_pods (key ∷ keys) w =
      let failed : List ObjectKey = elim (c.delete_pod w key) [
        | none ↦ []
        | some e ↦ elim e [
          | not_found_error m ↦ []
          | mounter_error code m ↦ key ∷ []
          | other_error m ↦ key ∷ []
        ]
      ] in
      let (rest, w') = garbage_collection_pods keys (log (pod_deleted key) w) in
      (failed ++ rest, w')
