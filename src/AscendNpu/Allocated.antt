-- ===== src/AscendNpu/Allocated.antt =====
-- pkg/devices/ascend/npu/collector.go: the devices that the slave pods have.
use device_mounter.Base.{
  ℕ, String, ◌<>◌, ◌&&◌, Option, none, some, List, [], ◌∷◌, ◌++◌, map, any, eqs, if◌then◌else◌,
}
use device_mounter.Base.Dict.{Dict, lookup}
use device_mounter.Base.Split.{split}
use device_mounter.Api.{GoError, other_error, Result, ok, err, DeviceInfo, Pod, ◌>>=◌}
use device_mounter.NvidiaGpu.{ContainerDevices, ContainerResources, PodResources}
use device_mounter.AscendNpu.{Host, ProcessInfo, has_prefix, contains_text}

-- How the loop over the devices of a container ends: by a `break` with devices, by an allocation that
-- an annotation of the pod names, by an error, or without any of these.
pub data Choice : Type 0 where
  chosen : List ContainerDevices → Choice
  allocated : List String → Choice
  unknown : GoError → Choice
  nothing : Choice

abbrev second : List String → String
second (first ∷ part ∷ parts) = part
second _ = ""

module _ (host : Host) where
  abbrev different : Option String → Option String → List String
  different (some klt) (some real) = if eqs klt real then [] else split "," real
  different (some klt) none = []
  different none real = []

  abbrev fetched_annotations : Result Pod → Dict String
  fetched_annotations (err e) = []
  fetched_annotations (ok pod) = pod.annotations

  abbrev refetched : Pod → Option String → Option String → List String
  refetched pod (some klt) (some real) = different (some klt) (some real)
  refetched pod (some klt) none =
      different (some klt)
        (lookup host.pod_real_alloc (fetched_annotations (host.get_pod pod.namespace pod.name)))
  refetched pod none real =
      different none
        (lookup host.pod_real_alloc (fetched_annotations (host.get_pod pod.namespace pod.name)))

  -- `GetRealDeviceForAnnotations`; nil is the empty list. Of the two annotations only the second is
  -- read from the pod that is fetched again.
  unfoldable pub get_real_device_for_annotations : Pod → List String
  get_real_device_for_annotations pod =
      refetched pod (lookup host.pod_2kl pod.annotations)
        (lookup host.pod_real_alloc pod.annotations)

  abbrev physical : String → String
  physical id = host.dev_type <> ("-" <> id)

  abbrev on_real : List String → Choice
  on_real [] = unknown (other_error "Unable to determine the actual device allocated by Volcano")
  on_real (dev ∷ devs) = allocated (dev ∷ devs)

  -- The dynamic devices of an annotation, which names cores behind a dash or whole devices.
  abbrev on_cores : Pod → String → List String → Choice
  on_cores pod name [] = nothing
  on_cores pod name (ids ∷ []) =
      chosen (record { resource_name = name; device_ids = map physical (split "," ids) } ∷ [])
  on_cores pod name (ids ∷ cores ∷ rest) = on_real (get_real_device_for_annotations pod)

  abbrev on_annotation : Pod → String → Result String → Choice → Choice
  on_annotation pod name (err e) rest = rest
  on_annotation pod name (ok annotation) rest =
      if contains_text name host.ai_core_resource_name
      then on_cores pod name (split "-" annotation)
      else chosen (record { resource_name = name; device_ids = split "," annotation } ∷ [])

  -- The loop over the devices of a container.
  unfoldable pub choose_devices : Pod → List ContainerDevices → Choice
  choose_devices pod [] = nothing
  choose_devices pod (dev ∷ devices) =
      let rest = choose_devices pod devices in
      if has_prefix dev.resource_name host.resource_name_prefix
      then on_annotation pod dev.resource_name
          (host.annotation_by_device_type pod (second (split "/" dev.resource_name))) rest
      else rest

  abbrev real_devices : List String → List ContainerDevices
  real_devices ids = record { resource_name = host.resource_name_prefix; device_ids = ids } ∷ []

  abbrev on_choice : List ContainerDevices → Choice → Result (List ContainerDevices)
  on_choice devices (chosen found) = ok found
  on_choice devices (allocated ids) = ok (real_devices ids)
  on_choice devices (unknown e) = err e
  on_choice devices nothing = ok devices

  abbrev on_devices :
      Pod → List ContainerDevices → Result (List ContainerDevices) → Result (List ContainerDevices)
  on_devices pod [] rest = rest
  on_devices pod (dev ∷ devices) rest =
      on_choice (dev ∷ devices) (choose_devices pod (dev ∷ devices))

  -- The loop over the containers, which ends with the first that has devices.
  unfoldable pub container_devices : Pod → List ContainerResources → Result (List ContainerDevices)
  unfolding choose_devices
  container_devices pod [] = ok []
  container_devices pod (container ∷ containers) =
      on_devices pod container.devices (container_devices pod containers)

  abbrev unless_real : List String → Result (List ContainerDevices) → Result (List ContainerDevices)
  unless_real [] rest = rest
  unless_real (dev ∷ devs) rest = ok (real_devices (dev ∷ devs))

  -- `loadFunc`: the devices of one slave pod.
  unfoldable pub load_pod : Pod → PodResources → Result (List ContainerDevices)
  unfolding container_devices get_real_device_for_annotations
  load_pod pod resources =
      unless_real (get_real_device_for_annotations pod) (container_devices pod resources.containers)

  -- `matchFunc`
  unfoldable pub match_pod : List Pod → PodResources → Option Pod
  match_pod [] resources = none
  match_pod (pod ∷ slave_pods) resources =
      if eqs resources.name pod.name && eqs resources.namespace pod.namespace
      then some pod
      else match_pod slave_pods resources

  abbrev on_match : Option Pod → PodResources → Result (List ContainerDevices)
  on_match none resources = ok []
  on_match (some pod) resources = load_pod pod resources

  abbrev append_devices :
      Result (List ContainerDevices)
      → Result (List ContainerDevices)
      → Result (List ContainerDevices)
  append_devices (err e) rest = err e
  append_devices (ok devices) (err e) = err e
  append_devices (ok devices) (ok rest) = ok (devices ++ rest)

  -- The loop of `GetPodNPUResourcesFunc`; a nil pod is passed over.
  unfoldable pub load_pods : List Pod → List (Option PodResources) → Result (List ContainerDevices)
  unfolding load_pod match_pod
  load_pods slave_pods [] = ok []
  load_pods slave_pods (none ∷ rest) = load_pods slave_pods rest
  load_pods slave_pods (some resources ∷ rest) =
      append_devices (on_match (match_pod slave_pods resources) resources)
        (load_pods slave_pods rest)

  abbrev append_ids : Result (List ℕ) → Result (List ℕ) → Result (List ℕ)
  append_ids (err e) rest = err e
  append_ids (ok ids) (err e) = err e
  append_ids (ok ids) (ok rest) = ok (ids ++ rest)

  -- The identifiers of the devices whose resource is one of Huawei's.
  unfoldable pub visible_devices : List ContainerDevices → Result (List ℕ)
  visible_devices [] = ok []
  visible_devices (device ∷ devices) =
      let rest = visible_devices devices in
      if has_prefix device.resource_name host.resource_name_prefix
      then append_ids
          (host.device_list_id device.device_ids (any host.is_virtual_dev device.device_ids)) rest
      else rest

  abbrev pub cons_info : Result DeviceInfo → Result (List DeviceInfo) → Result (List DeviceInfo)
  cons_info (err e) rest = err e
  cons_info (ok info) (err e) = err e
  cons_info (ok info) (ok rest) = ok (info ∷ rest)

  unfoldable pub info_of_all : (ℕ → Result DeviceInfo) → List ℕ → Result (List DeviceInfo)
  info_of_all f [] = ok []
  info_of_all f (id ∷ ids) = cons_info (f id) (info_of_all f ids)

  -- `GetSlavePodsDeviceInfo`
  unfoldable pub get_slave_pods_device_info :
      List Pod → (ℕ → Result DeviceInfo) → Result (List DeviceInfo)
  unfolding load_pods visible_devices info_of_all
  get_slave_pods_device_info slave_pods f = do
    pods ← host.list_pod_resources
    devices ← load_pods slave_pods pods
    ids ← visible_devices devices
    info_of_all f ids

  abbrev cons_process :
      Result (Option ProcessInfo) → Result (List ProcessInfo) → Result (List ProcessInfo)
  cons_process (err e) rest = err e
  cons_process (ok info) (err e) = err e
  cons_process (ok none) (ok rest) = ok rest
  cons_process (ok (some info)) (ok rest) = ok (info ∷ rest)

  unfoldable pub running_processes : List ℕ → Result (List ProcessInfo)
  running_processes [] = ok []
  running_processes (id ∷ ids) =
      let rest = running_processes ids in
      if host.is_dropped id then rest else cons_process (host.process_info id) rest

  -- `GetRunningProcess`
  unfoldable pub get_running_process : Result (List ProcessInfo)
  unfolding running_processes
  get_running_process = elim host.init [
    | some e ↦ err e
    | none ↦ host.get_device_list >>= λ ids. running_processes ids
  ]
