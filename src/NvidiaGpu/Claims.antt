-- ===== src/NvidiaGpu/Claims.antt =====
-- The nested loops of an update (pkg/devices/nvidia/gpu/collector.go) as one loop over the devices that
-- the kubelet lists, each with its owner.
use device_mounter.Base.{
  String, Bool, true, false, List, [], ◌∷◌, ◌++◌, ◌≡◌, refl, sym, ap, ◌∙◌, eqs, if◌then◌else◌,
}
use device_mounter.NvidiaGpu.{
  Owner, NvidiaGpu, ContainerDevices, ContainerResources, PodResources, Moment, Host, resource_name,
}
use device_mounter.NvidiaGpu.Status.{claim, claim_ids, claim_devices, claim_containers, claim_pods}

abbrev pub Claim : Type 0
Claim = String × Owner

abbrev pub claims_of_ids : Owner → List String → List Claim
claims_of_ids owner [] = []
claims_of_ids owner (uuid ∷ uuids) = (uuid, owner) ∷ claims_of_ids owner uuids

abbrev pub claims_of_devices : Owner → List ContainerDevices → List Claim
claims_of_devices owner [] = []
claims_of_devices owner (dev ∷ devices) =
    (if eqs dev.resource_name resource_name then claims_of_ids owner dev.device_ids else [])
    ++ claims_of_devices owner devices

abbrev pub owner_in : PodResources → ContainerResources → Owner
owner_in pod container = record {
  pod_name = pod.name;
  pod_namespace = pod.namespace;
  container_name = container.name;
}

abbrev pub claims_of_containers : PodResources → List ContainerResources → List Claim
claims_of_containers pod [] = []
claims_of_containers pod (container ∷ containers) =
    claims_of_devices (owner_in pod container) container.devices
    ++ claims_of_containers pod containers

-- The GPUs that the kubelet lists, in its order, each with its owner.
abbrev pub claims_of : List PodResources → List Claim
claims_of [] = []
claims_of (pod ∷ pods) = claims_of_containers pod pod.containers ++ claims_of pods

module _ (host : Host) (moment : Moment) where
  abbrev pub claim_all : List Claim → List NvidiaGpu → List NvidiaGpu
  claim_all [] gpus = gpus
  claim_all ((uuid, owner) ∷ claims) gpus = claim_all claims (claim host moment owner uuid gpus)

  claim_all-append :
      (xs ys : List Claim) (gpus : List NvidiaGpu)
      → claim_all (xs ++ ys) gpus ≡ claim_all ys (claim_all xs gpus)
  claim_all-append [] ys gpus = refl
  claim_all-append ((uuid, owner) ∷ xs) ys gpus =
      claim_all-append xs ys (claim host moment owner uuid gpus)

  claim_ids-claims :
      (owner : Owner) (uuids : List String) (gpus : List NvidiaGpu)
      → claim_ids host moment owner uuids gpus ≡ claim_all (claims_of_ids owner uuids) gpus
  unfolding claim_ids
  claim_ids-claims owner [] gpus = refl
  claim_ids-claims owner (uuid ∷ uuids) gpus =
      claim_ids-claims owner uuids (claim host moment owner uuid gpus)

  one_device :
      (owner : Owner) (dev : ContainerDevices) (listed : Bool) (gpus : List NvidiaGpu)
      → (if listed then claim_ids host moment owner dev.device_ids gpus else gpus)
        ≡ claim_all (if listed then claims_of_ids owner dev.device_ids else []) gpus
  one_device owner dev true gpus = claim_ids-claims owner dev.device_ids gpus
  one_device owner dev false gpus = refl

  claim_devices-claims :
      (owner : Owner) (devices : List ContainerDevices) (gpus : List NvidiaGpu)
      → claim_devices host moment owner devices gpus
        ≡ claim_all (claims_of_devices owner devices) gpus
  unfolding claim_devices
  claim_devices-claims owner [] gpus = refl
  claim_devices-claims owner (dev ∷ devices) gpus =
      claim_devices-claims owner devices _
      ∙ ap (claim_all (claims_of_devices owner devices))
          (one_device owner dev (eqs dev.resource_name resource_name) gpus)
      ∙ sym (
          claim_all-append
            (if eqs dev.resource_name resource_name then claims_of_ids owner dev.device_ids else [])
            (claims_of_devices owner devices) gpus)

  claim_containers-claims :
      (pod : PodResources) (containers : List ContainerResources) (gpus : List NvidiaGpu)
      → claim_containers host moment pod containers gpus
        ≡ claim_all (claims_of_containers pod containers) gpus
  unfolding claim_containers
  claim_containers-claims pod [] gpus = refl
  claim_containers-claims pod (container ∷ containers) gpus =
      claim_containers-claims pod containers _
      ∙ ap (claim_all (claims_of_containers pod containers))
          (claim_devices-claims (owner_in pod container) container.devices gpus)
      ∙ sym (
          claim_all-append (claims_of_devices (owner_in pod container) container.devices)
            (claims_of_containers pod containers) gpus)

  pub claim_pods-claims :
      (pods : List PodResources) (gpus : List NvidiaGpu)
      → claim_pods host moment pods gpus ≡ claim_all (claims_of pods) gpus
  unfolding claim_pods
  claim_pods-claims [] gpus = refl
  claim_pods-claims (pod ∷ pods) gpus =
      claim_pods-claims pods _
      ∙ ap (claim_all (claims_of pods)) (claim_containers-claims pod pod.containers gpus)
      ∙ sym (claim_all-append (claims_of_containers pod pod.containers) (claims_of pods) gpus)
